-- ===== src/Segment/Examples.antt =====
-- myalloc.c: a segment with two pieces, one of which is given back, and one merged into another.
use native.Mathlib.Omega.{arith}
use script_basic.Common.{ℕ, ◌≡◌, ◌≢◌, refl, ◌+◌, ◌==◌, false, true, some, [], ◌∷◌}
use script_basic.Memory.Counting.{counting}
use script_basic.Links.{Links}
use script_basic.Segment.{
  MyAlloc, Memory, init_stat, offset_of_memory, over_limit, segment_alloc, segment_free,
  free_segment, emptied, merge,
}
use script_basic.Segment.Laws.{IsSegment, Disjoint, AllocResult, segment_alloc-AllocResult}
use script_basic.Segment.Release.{
  Freed, Undone, free_all, segment_free-Freed, free_segment-empty, segment_free-segment_alloc,
}
use script_basic.Segment.Merge.{Merged, merge-Merged}

-- Units 300, 200 and 100, of which 300 and 200 are in one segment and 100 is in another.
abbrev links : Links
links = record {
  next = λ u. elim (u == 300) [ true ↦ 200 | false ↦ 0 ];
  prev = λ u. elim (u == 200) [ true ↦ 300 | false ↦ 0 ];
}

abbrev memory : Memory counting
memory = record {
  size = λ u. 10;
  links = links;
  system = 5;
  stat = record init_stat { act_net = 30; act_bru = 123 };
}

abbrev first_segment : MyAlloc
first_segment = record {
  self = 1;
  max_size = 100;
  current_size = 20;
  max_net_size = 20;
  min_net_size = 0;
  first_unit = 300;
}

abbrev second_segment : MyAlloc
second_segment = record first_segment { self = 2; current_size = 10; first_unit = 100 }

three_hundred : ◌≢◌ {A = ℕ} 300 0
three_hundred e = omega arith

first-IsSegment : IsSegment {a = counting} memory first_segment (300 ∷ 200 ∷ [])
first-IsSegment = record { chain = ground arith; current = refl }

second-IsSegment : IsSegment {a = counting} memory second_segment (100 ∷ [])
second-IsSegment = record { chain = ground arith; current = refl }

segments-Disjoint : Disjoint (300 ∷ 200 ∷ []) (100 ∷ [])
segments-Disjoint c h = ground arith

segment_alloc-AllocResult_example :
    AllocResult counting 7 first_segment memory
      (300 ∷ 200 ∷ [])
      (segment_alloc counting 7 first_segment memory)
segment_alloc-AllocResult_example =
    segment_alloc-AllocResult counting 7 first_segment memory (300 ∷ 200 ∷ []) (omega arith) refl
      first-IsSegment

segment_free-Freed_example :
    Freed counting first_segment memory
      (300 ∷ 200 ∷ [])
      first-IsSegment
      200
      (segment_free counting (200 + offset_of_memory) first_segment memory)
segment_free-Freed_example =
    segment_free-Freed counting first_segment memory (300 ∷ 200 ∷ []) first-IsSegment 200 refl

free_segment-empty_example :
    (m' : Memory counting) × (free_segment counting 3 first_segment memory
      ≡ some (emptied first_segment, m'))
    × IsSegment {a = counting} m' (emptied first_segment) []
    × (m'.system ≡ free_all counting (300 ∷ 200 ∷ []) 5)
    × (m'.links ≡ links)
    × (m'.size ≡ memory.size)
free_segment-empty_example =
    free_segment-empty counting 3 first_segment memory (300 ∷ 200 ∷ []) (omega arith)
      first-IsSegment

segment_free-segment_alloc_example : Undone {a = counting} first_segment memory (300 ∷ 200 ∷ []) (
    segment_free counting
      (segment_alloc counting 7 first_segment memory).0
      (segment_alloc counting 7 first_segment memory).1
      (segment_alloc counting 7 first_segment memory).2)
segment_free-segment_alloc_example =
    segment_free-segment_alloc counting 7 first_segment memory (300 ∷ 200 ∷ []) first-IsSegment
      (λ e. omega arith) within (λ e. omega arith) refl (omega arith, omega arith)
  where
    within : over_limit 7 first_segment ≡ false
    within = unfold over_limit in refl

merge-Merged_example :
    (r : MyAlloc × MyAlloc × Memory counting) × (merge counting 3 first_segment second_segment
        memory
      ≡ some r)
    × Merged {a = counting} first_segment second_segment memory (300 ∷ 200 ∷ []) (100 ∷ []) r
merge-Merged_example =
    merge-Merged counting first_segment second_segment memory (300 ∷ 200 ∷ []) (100 ∷ [])
      segments-Disjoint first-IsSegment second-IsSegment 3 (omega arith)
