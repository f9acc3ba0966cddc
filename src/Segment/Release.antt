-- ===== src/Segment/Release.antt =====
-- alloc_Free, alloc_FreeSegment and alloc_FinishSegment against the list of a segment's pieces.
use script_basic.Common.{
  long_mod, ℕ, zero, suc, ◌+◌, ◌-◌, ◌≤◌, ◌<◌, ◌≡◌, ◌≢◌, inl, inr, refl, sym, ap, ◌∙◌, true, false,
  some, List, [], ◌∷◌, ◌==◌, if◌then◌else◌, arith, length,
}
use mathlib.Core.Path.{subst}
use native.Mathlib.Decide.{ℕ_discrete}
use script_basic.Memory.{Allocator}
use script_basic.Links.{has, remove, Chain}
use script_basic.Links.Chain.{no_zero, next-ne, next-has, prev-has, not_zero}
use script_basic.Links.Unlink.{Unlinked, Chain-unlink}
use script_basic.Segment.{
  stat_add, stat_sub, sizeof_unit, over_limit, segment_alloc, grown, offset_of_memory, MyAlloc,
  Memory, unlink, release_unit, segment_free, free_units, free_segment, emptied,
}
use script_basic.Segment.Laws.{
  total, IsSegment, Spares, unlink-Unlinked, unlink-first, asked, allocated, allocated-IsSegment,
  pushed, segment_alloc_got, stat_after,
}

total-remove :
    (size : ℕ → ℕ) (u : ℕ) (us : List ℕ)
    → has u us ≡ true
    → total size (remove u us) + size u ≡ total size us
total-remove size u [] m = cc
total-remove size u (x ∷ us) m = elim (ℕ_discrete x u) [
  | yes e ↦ ground (arith, ap size e)
  | no e ↦ ground (arith, total-remove size u us)
]

module _ (a : Allocator) (q : MyAlloc) (m : Memory a) (us : List ℕ) (v : IsSegment m q us) where
  new_first :
      (u : ℕ)
      → has u us ≡ true
      → (unlink u q.first_unit m.links).0
        ≡ (if q.first_unit == u then m.links.next u else q.first_unit)
  new_first u h =
      unlink-first u q.first_unit m.links (next-ne m.links us 0 q.first_unit u v.chain h)
      ∙ elim (prev-has m.links us 0 q.first_unit u v.chain h) [
        | inl (e, z) ↦ ground arith
        | inr (e, p) ↦ ground (arith, not_zero m.links us 0 q.first_unit (m.links.prev u) v.chain p)
      ]

  -- A piece that is released leaves the segment, with its bytes, and no other piece does.
  pub record Freed (u : ℕ) (r : MyAlloc × Memory a) : Type 0 where
    pub segment : IsSegment r.1 r.0 (remove u us)
    pub new_least : r.0.current_size < q.min_net_size → r.0.min_net_size ≡ r.0.current_size
    pub old_least : q.min_net_size ≤ r.0.current_size → r.0.min_net_size ≡ q.min_net_size
    pub greatest : r.0.max_net_size ≡ q.max_net_size
    pub limit : r.0.max_size ≡ q.max_size
    pub spares : Spares m r.1 us
    pub given_back : r.1.system ≡ a.free u m.system

  pub release_unit-Freed : (u : ℕ) → has u us ≡ true → Freed u (release_unit a u q m)
  unfolding release_unit
  release_unit-Freed u h = record {
    segment = record {
      chain =
          subst (λ f. Chain (unlink u q.first_unit m.links).1 0 f (remove u us))
            (sym (new_first u h))
            (Chain-unlink m.links (unlink u q.first_unit m.links).1 u un us 0 q.first_unit
              (no_zero m.links us 0 q.first_unit v.chain) h v.chain);
      current = omega (arith, v.current, total-remove m.size u us h);
    };
    new_least = λ lt. ground arith;
    old_least = λ le. ground arith;
    greatest = refl;
    limit = refl;
    spares = record {
      next_same = λ c nz d. un.next_same c (apart c d h) (outside_prev c nz d);
      prev_same = λ c nz d. un.prev_same c (apart c d h) (λ e. ground (
        arith,
        d,
        next-has m.links us 0 q.first_unit u v.chain h (λ y. nz (e ∙ y)),
        ap (λ y. has y us) e,
      ));
      size_same = λ c nz d. refl;
    };
    given_back = refl;
  }
    where
      un : Unlinked m.links (unlink u q.first_unit m.links).1 u
      un = unlink-Unlinked u q.first_unit m.links (next-ne m.links us 0 q.first_unit u v.chain h)

      apart : (c : ℕ) → has c us ≡ false → has u us ≡ true → c ≢ u
      apart c d h e = ground (arith, d, h, ap (λ y. has y us) e)

      outside_prev : (c : ℕ) → c ≢ 0 → has c us ≡ false → c ≢ m.links.prev u
      outside_prev c nz d e = elim (prev-has m.links us 0 q.first_unit u v.chain h) [
        | inl (f, z) ↦ nz (e ∙ z)
        | inr (f, p) ↦ ground (arith, d, p, ap (λ y. has y us) e)
      ]

  segment_free_unit : (u : ℕ) → segment_free a (u + offset_of_memory) q m ≡ release_unit a u q m
  unfolding segment_free
  segment_free_unit u =
      let some_piece : (u + offset_of_memory == 0) ≡ false = ground arith in
      let unit : u + offset_of_memory - offset_of_memory ≡ u = omega arith in
      rw (some_piece, unit) refl

  -- On a segment that holds these pieces, alloc_Free of the memory of one of them takes this piece
  -- and no other out of the segment, with its size, gives it back to the system, sets the least size
  -- noted to the size in use exactly if that is below it, leaves the limit and the greatest size
  -- noted, and changes nothing at other addresses.
  pub segment_free-Freed :
      (u : ℕ) → has u us ≡ true → Freed u (segment_free a (u + offset_of_memory) q m)
  segment_free-Freed u h = rw (segment_free_unit u) (release_unit-Freed u h)

-- The system's memory after these units have been given back in turn.
abbrev pub free_all : (a : Allocator) → List ℕ → a.Segment → a.Segment
free_all a [] system = system
free_all a (u ∷ us) system = free_all a us (a.free u system)

free_units-free_all :
    (a : Allocator) (rounds : ℕ) (us : List ℕ) (before u : ℕ) (m : Memory a)
    → length us < rounds
    → Chain m.links before u us
    → (m' : Memory a) × (free_units a rounds u m ≡ some m')
      × (m'.system ≡ free_all a us m.system)
      × (m'.links ≡ m.links)
      × (m'.size ≡ m.size)
unfolding free_units
free_units-free_all a zero us before u m h c = absurd (omega arith)
free_units-free_all a (suc rounds) [] before u m h c = (m, ground (arith, c), refl, refl, refl)
free_units-free_all a (suc rounds) (x ∷ us) before u m h (e, nx, d, px, c) =
    let (m', r, s, l, z) =
      free_units-free_all a rounds us x (m.links.next x)
        (record m {
          system = a.free x m.system;
          stat = stat_sub (m.size x) (m.size x + (sizeof_unit - 1)) m.stat;
        })
        (omega arith) c in
    let some_unit : (x == 0) ≡ false = ground arith in (m', rw (e, some_unit) r, s, l, z)

-- On a segment that holds these pieces, and with more rounds than there are pieces,
-- alloc_FreeSegment ends with every piece given back to the system once, from the first on, and the
-- segment empty.
pub free_segment-empty :
    (a : Allocator) (rounds : ℕ) (q : MyAlloc) (m : Memory a) (us : List ℕ)
    → length us < rounds
    → IsSegment m q us
    → (m' : Memory a) × (free_segment a rounds q m ≡ some (emptied q, m'))
      × IsSegment m' (emptied q) []
      × (m'.system ≡ free_all a us m.system)
      × (m'.links ≡ m.links)
      × (m'.size ≡ m.size)
unfolding free_segment
free_segment-empty a rounds q m us h v =
    let (m', r, s, l, z) = free_units-free_all a rounds us 0 q.first_unit m h v.chain in
    (m', rw (r, free_segment) refl, record { chain = refl; current = refl }, s, l, z)

-- A segment as it was before, but for its greatest and least sizes.
pub record Undone {a : Allocator} (q : MyAlloc) (m : Memory a) (us : List ℕ)
    (r : MyAlloc × Memory a) : Type 0 where
  pub segment : IsSegment r.1 r.0 us
  pub first : r.0.first_unit ≡ q.first_unit
  pub current : r.0.current_size ≡ q.current_size
  pub limit : r.0.max_size ≡ q.max_size
  pub net : r.1.stat.act_net ≡ m.stat.act_net
  pub bru : r.1.stat.act_bru ≡ m.stat.act_bru

-- On a segment that holds these pieces, where alloc_Alloc is neither refused nor without memory, and
-- the system's answer is none of the pieces, alloc_Free of the new piece leaves the pieces, the
-- first of them, the size in use, the limit and the actual sizes of the statistics as they were.
pub segment_free-segment_alloc :
    (a : Allocator) (n : ℕ) (q : MyAlloc) (m : Memory a) (us : List ℕ)
    → IsSegment m q us
    → n ≢ 0
    → over_limit n q ≡ false
    → (asked a n q m us).0 ≢ 0
    → has (asked a n q m us).0 us ≡ false
    → (m.stat.act_net < long_mod) × (m.stat.act_bru < long_mod)
    → Undone q m us (
        segment_free a
          (segment_alloc a n q m).0
          (segment_alloc a n q m).1
          (segment_alloc a n q m).2)
unfolding release_unit stat_add stat_sub
segment_free-segment_alloc a n q m us v nz lim z out (net, bru) =
    rw (segment_alloc_got a n q m us nz lim z, segment_free_unit a q' m' (u ∷ us) v' u)
      (record {
        segment =
            subst (IsSegment (release_unit a u q' m').1 (release_unit a u q' m').0) only f.segment;
        first = ground (
          arith,
          new_first a q' m' (u ∷ us) v' u (ground arith),
          (pushed a n q m us u z out v).next_self,
        );
        current = omega (arith, v.current, size_u);
        limit = refl;
        net = omega (arith, net, size_u);
        bru = omega (arith, bru, size_u);
      })
  where
    u : ℕ
    u = (asked a n q m us).0

    q' : MyAlloc
    q' = grown n u q

    m' : Memory a
    m' = allocated a n q m us u (asked a n q m us).1 (stat_after a n q m us)

    v' : IsSegment m' q' (u ∷ us)
    v' = allocated-IsSegment a n q m us u z out v (asked a n q m us).1 (stat_after a n q m us)

    size_u : m'.size u ≡ n
    size_u = ground arith

    f : Freed a q' m' (u ∷ us) v' u (release_unit a u q' m')
    f = release_unit-Freed a q' m' (u ∷ us) v' u (ground arith)

    only : remove u (u ∷ us) ≡ us
    only = ground arith
