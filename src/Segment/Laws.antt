-- ===== src/Segment/Laws.antt =====
-- alloc_Alloc and alloc_Free against the list of the pieces that a segment holds.
use script_basic.Common.{
  long_mod, ℕ, ◌+◌, ◌-◌, ◌%◌, ◌≤◌, ◌<◌, ◌≡◌, ◌≢◌, ◌⊎◌, inl, inr, refl, sym, ap, ◌∙◌, true, false,
  List, [], ◌∷◌, ◌==◌, if◌then◌else◌, Bool-cases, arith,
}
use native.Mathlib.Decide.{ℕ_discrete}
use script_basic.Memory.{Allocator}
use script_basic.Links.{Links, write, has, Chain}
use script_basic.Links.Chain.{frame, Pushed, Chain-push, first-has, not_zero}
use script_basic.Links.Unlink.{Unlinked, apart}
use script_basic.Segment.{
  Stat, stat_add, sizeof_unit, offset_of_memory, extra_byte, MyAlloc, Memory, over_limit, grown,
  link_first, segment_alloc, unlink,
}

-- The bytes of the pieces together.
abbrev pub total : (ℕ → ℕ) → List ℕ → ℕ
total size [] = 0
total size (u ∷ us) = size u + total size us

pub total-frame :
    (f g : ℕ → ℕ) (us : List ℕ) → ((c : ℕ) → has c us ≡ true → g c ≡ f c) → total g us ≡ total f us
total-frame f g [] h = refl
total-frame f g (x ∷ us) h =
    omega (arith, h x (ground arith), total-frame f g us (λ c m. h c (ground (arith, m))))

link_first-Pushed : (u first : ℕ) (l : Links) → u ≢ first → Pushed l (link_first u first l) u first
unfolding link_first
link_first-Pushed u first l n = record {
  next_self = ground arith;
  prev_self = ground arith;
  prev_first = λ z s. ground arith;
  next_same = λ c d. ground arith;
  prev_same = λ c d e. ground arith;
}

pub unlink-Unlinked : (u first : ℕ) (l : Links) → l.next u ≢ u → Unlinked l (unlink u first l).1 u
unfolding unlink
unlink-Unlinked u first l n = record {
  next_prev = λ z. ground arith;
  prev_next = λ z. ground arith;
  next_same = λ c d e. ground arith;
  prev_same = λ c d e. ground arith;
}

pub unlink-first :
    (u first : ℕ) (l : Links)
    → l.next u ≢ u
    → (unlink u first l).0 ≡ (if l.prev u == 0 then l.next u else first)
unfolding unlink
unlink-first u first l n = ground arith

-- The pieces of a segment, newest first, and the bytes in use.
pub record IsSegment {a : Allocator} (m : Memory a) (q : MyAlloc) (us : List ℕ) : Type 0 where
  pub chain : Chain m.links 0 q.first_unit us
  pub current : q.current_size ≡ total m.size us % long_mod

-- Nothing is changed but at these addresses.
pub record Spares {a : Allocator} (m m' : Memory a) (touched : List ℕ) : Type 0 where
  pub next_same : (c : ℕ) → c ≢ 0 → has c touched ≡ false → m'.links.next c ≡ m.links.next c
  pub prev_same : (c : ℕ) → c ≢ 0 → has c touched ≡ false → m'.links.prev c ≡ m.links.prev c
  pub size_same : (c : ℕ) → c ≢ 0 → has c touched ≡ false → m'.size c ≡ m.size c

abbrev pub Disjoint : List ℕ → List ℕ → Type 0
Disjoint us ws = (c : ℕ) → has c us ≡ true → has c ws ≡ false

-- Another segment is still the same.
pub Spares-IsSegment :
    {a : Allocator} (m m' : Memory a) (q : MyAlloc) (touched us : List ℕ)
    → Spares m m' touched
    → Disjoint us touched
    → IsSegment m q us
    → IsSegment m' q us
Spares-IsSegment m m' q touched us s d v = record {
  chain =
      frame m.links m'.links us 0 q.first_unit
        (λ c h. (s.next_same c (nz c h) (d c h), s.prev_same c (nz c h) (d c h))) v.chain;
  current =
      v.current
      ∙ ap (λ t. t % long_mod)
          (sym (total-frame m.size m'.size us (λ c h. s.size_same c (nz c h) (d c h))));
}
  where
    nz : (c : ℕ) → has c us ≡ true → c ≢ 0
    nz c h = not_zero m.links us 0 q.first_unit c v.chain h

module _ (a : Allocator) (n : ℕ) (q : MyAlloc) (m : Memory a) (us : List ℕ) where
  open a use {Segment, alloc}

  abbrev pub asked : ℕ × Segment
  asked = alloc ((n + offset_of_memory + extra_byte) % long_mod) m.system

  -- The size is beyond the limit, or within it, where there is one.
  abbrev pub Beyond : Type 0
  Beyond = (q.max_size ≢ 0) × (q.max_size < q.current_size + n)

  abbrev pub Within : Type 0
  Within = (q.max_size ≡ 0) ⊎ (q.current_size + n ≤ q.max_size)

  -- What alloc_Alloc answers and leaves.
  pub data AllocResult (r : ℕ × MyAlloc × Memory a) : Type 0 where
    refused : (n ≡ 0) ⊎ Beyond → r ≡ (0, q, m) → AllocResult r
    no_memory :
        n ≢ 0 → Within → asked.0 ≡ 0 → r ≡ (0, q, record m { system = asked.1 }) → AllocResult r
    got :
        {u : ℕ} {q' : MyAlloc} {m' : Memory a}
        → n ≢ 0
        → Within
        → u ≢ 0
        → r ≡ (u + offset_of_memory, q', m')
        → IsSegment m' q' (u ∷ us)
        → q'.current_size ≤ q'.max_net_size
        → m'.size u ≡ n
        → q'.max_size ≡ q.max_size
        → Spares m m' (u ∷ us)
        → AllocResult r

  -- The memory with a new unit of `n` bytes.
  abbrev pub allocated : ℕ → Segment → Stat → Memory a
  allocated u system st = record {
    size = write m.size u n;
    links = link_first u q.first_unit m.links;
    system = system;
    stat = st;
  }

  module _ (u : ℕ) (z : u ≢ 0) (out : has u us ≡ false) (v : IsSegment m q us) where
    pub pushed : Pushed m.links (link_first u q.first_unit m.links) u q.first_unit
    pushed = link_first-Pushed u q.first_unit m.links (λ e. ground (
      arith,
      out,
      first-has m.links us 0 q.first_unit v.chain (λ x. z (e ∙ x)),
      ap (λ y. has y us) e,
    ))

    pub allocated-IsSegment :
        (system : Segment) (st : Stat) → IsSegment (allocated u system st) (grown n u q) (u ∷ us)
    allocated-IsSegment system st = record {
      chain =
          Chain-push m.links (link_first u q.first_unit m.links) us u q.first_unit pushed z out
            v.chain;
      current = ground (
        arith,
        v.current,
        total-frame m.size (write m.size u n) us (λ c h. ground (arith, apart u c us out h)),
      );
    }

    allocated-Spares : (system : Segment) (st : Stat) → Spares m (allocated u system st) (u ∷ us)
    allocated-Spares system st = record {
      next_same = λ c nz h. pushed.next_same c (ground (arith, h));
      prev_same = λ c nz h. pushed.prev_same c (ground (arith, h)) (λ x. ground (
        arith,
        h,
        first-has m.links us 0 q.first_unit v.chain (λ y. nz (x ∙ y)),
        ap (λ y. has y us) x,
      ));
      size_same = λ c nz h. ground (arith, h);
    }

  within_limit : q.current_size + n < long_mod → over_limit n q ≡ false → Within
  unfolding over_limit
  within_limit range lim = ground (arith, lim)

  beyond_limit : q.current_size + n < long_mod → over_limit n q ≡ true → Beyond
  unfolding over_limit
  beyond_limit range lim = (ground (arith, lim), ground (arith, lim))

  abbrev pub stat_after : Stat
  stat_after = stat_add n (n + (sizeof_unit - 1)) m.stat

  pub segment_alloc_got :
      n ≢ 0
      → over_limit n q ≡ false
      → asked.0 ≢ 0
      → segment_alloc a n q m
        ≡ (asked.0 + offset_of_memory, grown n asked.0 q, allocated asked.0 asked.1 stat_after)
  unfolding segment_alloc
  segment_alloc_got nz lim z =
      let some_size : (n == 0) ≡ false = ground arith in
      let some_unit : (asked.0 == 0) ≡ false = ground arith in rw (some_size, lim, some_unit) refl

  -- On a segment that holds these pieces, where the size in use and the size asked for are together
  -- below 2 ^ 64, and if the system's memory answers with a piece that is none of the segment's,
  -- alloc_Alloc refuses a size of 0, and a size with which the size in use would be above the limit,
  -- where there is one, and changes nothing; for any other size it returns NULL and leaves the
  -- segment where the system has no memory, and else returns the memory of a new piece of that size
  -- that it puts in front of the others; the size in use is that of all pieces and not above the
  -- greatest size noted, the limit stays, and nothing at other addresses is changed.
  pub segment_alloc-AllocResult :
      q.current_size + n < long_mod
      → has asked.0 us ≡ false
      → IsSegment m q us
      → AllocResult (segment_alloc a n q m)
  unfolding segment_alloc
  segment_alloc-AllocResult range out v = elim (ℕ_discrete n 0) [
    | yes e ↦ refused (inl e) (ground (arith, e))
    | no e ↦ elim (Bool-cases (over_limit n q)) [
      | inl lim ↦ refused (inr (beyond_limit range lim)) (ground (arith, e, lim))
      | inr lim ↦ elim (ℕ_discrete asked.0 0) [
        | yes z ↦ no_memory e (within_limit range lim) z (ground (arith, e, lim, z))
        | no z ↦
            got e (within_limit range lim) z (segment_alloc_got e lim z)
              (allocated-IsSegment asked.0 z out v asked.1 stat_after) (ground arith) (ground arith)
              refl (allocated-Spares asked.0 z out v asked.1 stat_after)
      ]
    ]
  ]
