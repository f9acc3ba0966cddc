-- ===== src/Segment/Statistics.antt =====
-- myalloc.c: the statistics over the life of a segment, and the segment as the allocator of other parts.
use script_basic.Common.{long_mod, ℕ, ◌+◌, ◌%◌, ◌<◌, ◌≡◌, ◌≢◌, refl, false, some, ◌==◌, arith}
use script_basic.Memory.{Allocator}
use script_basic.Segment.{
  sizeof_my_alloc, sizeof_pointer, MyAlloc, Memory, stat_add, stat_sub, init_segment,
  finish_segment, segment_alloc, segment_free,
}
use script_basic.Segment.Merge.{free_segment_none}

-- alloc_Alloc and alloc_Free as the functions that other parts are given.
abbrev pub segment_allocator : Allocator → Allocator
segment_allocator a = record {
  Segment = MyAlloc × Memory a;
  alloc = λ n s. let r = segment_alloc a n s.0 s.1 in (r.0, (r.1, r.2));
  free = λ p s. segment_free a p s.0 s.1;
}

-- Where the system has memory for the structure, alloc_InitSegment and then alloc_FinishSegment
-- leave the actual net size of the statistics as it was, and the actual gross size 48 bytes above
-- what it was.
finish_segment-init_segment :
    (a : Allocator) (rounds : ℕ) (m : Memory a)
    → (a.alloc sizeof_my_alloc m.system).0 ≢ 0
    → 0 < rounds
    → (m.stat.act_net < long_mod) × (m.stat.act_bru < long_mod)
    → (q : MyAlloc) × (m' : Memory a) × ((init_segment a m).0 ≡ some q)
      × (finish_segment a rounds q (init_segment a m).1 ≡ some m')
      × (m'.stat.act_net ≡ m.stat.act_net)
      × (m'.stat.act_bru ≡ (m.stat.act_bru + 48) % long_mod)
unfolding init_segment finish_segment stat_add stat_sub
finish_segment-init_segment a rounds m z h (net, bru) =
    let u : ℕ = (a.alloc sizeof_my_alloc m.system).0 in
    let q : MyAlloc = record {
      self = u;
      max_size = 0;
      current_size = 0;
      max_net_size = 0;
      min_net_size = 0;
      first_unit = 0;
    } in
    let m1 : Memory a = record m {
      system = (a.alloc sizeof_my_alloc m.system).1;
      stat = stat_add 0 sizeof_my_alloc m.stat;
    } in
    let some_segment : (u == 0) ≡ false = ground arith in
    (
      q,
      record m1 { system = a.free u m1.system; stat = stat_sub 0 sizeof_pointer m1.stat },
      rw some_segment refl,
      rw (some_segment, free_segment_none a rounds q m1 refl h, finish_segment) refl,
      omega (arith, net),
      omega (arith, bru),
    )
