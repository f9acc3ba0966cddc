-- ===== src/Segment/Merge.antt =====
-- alloc_Merge and alloc_MergeAndFinish against the lists of the two segments' pieces.
use script_basic.Common.{
  long_mod, ℕ, zero, suc, ◌+◌, ◌%◌, ◌<◌, ◌≡◌, ◌≢◌, ◌⊎◌, inl, inr, refl, sym, ap, ◌∙◌, true, false,
  some, List, [], ◌∷◌, ◌++◌, ◌==◌, if◌then◌else◌, arith, length,
}
use mathlib.Core.Path.{subst}
use native.Mathlib.Decide.{ℕ_discrete}
use script_basic.Memory.{Allocator}
use script_basic.Links.{Links, has, Chain}
use script_basic.Links.Chain.{first-has, frame}
use script_basic.Links.Join.{last, Joined, has-last, has-append, Chain-join}
use script_basic.Segment.{
  MyAlloc, Memory, last_unit, join_links, merge, merge_and_finish, finish_segment, free_segment,
  free_units, emptied, sizeof_pointer, stat_sub,
}
use script_basic.Segment.Laws.{total, IsSegment, Spares, Disjoint}

last_unit-last :
    (rounds : ℕ) (l : Links) (us : List ℕ) (before u q : ℕ)
    → length us < rounds
    → Chain l before u us
    → last_unit rounds l u q ≡ some (last q us)
unfolding last_unit
last_unit-last zero l us before u q h c = absurd (omega arith)
last_unit-last (suc rounds) l [] before u q h c = ground (arith, c)
last_unit-last (suc rounds) l (x ∷ us) before u q h (e, nx, d, px, c) =
    let some_unit : (x == 0) ≡ false = ground arith in
    rw (e, some_unit) (last_unit-last rounds l us x (l.next x) x (omega arith) c)

total-append :
    (size : ℕ → ℕ) (us ws : List ℕ) → total size (us ++ ws) ≡ total size us + total size ws
total-append size [] ws = omega arith
total-append size (u ∷ us) ws = omega (arith, total-append size us ws)

-- The first unit of the merged segment.
abbrev pub first_of : ℕ → ℕ → ℕ
first_of first1 first2 = if first1 == 0 then first2 else first1

first_of-some : (first1 first2 : ℕ) → first1 ≢ 0 → first1 ≡ first_of first1 first2
first_of-some first1 first2 n = ground arith

join_links-Joined :
    (first1 q first2 : ℕ) (l : Links)
    → first1 ≢ 0
    → Joined l (join_links first1 q first2 l) q first2
unfolding join_links
join_links-Joined first1 q first2 l n = record {
  next_last = ground arith;
  prev_first = λ z. ground arith;
  next_same = λ c d. ground arith;
  prev_same = λ c d. ground arith;
}

-- Behind an empty segment nothing is linked anew.
join_links-same :
    (first1 first2 c : ℕ) (l : Links)
    → first1 ≡ 0
    → (first2 ≢ 0 → l.prev first2 ≡ 0)
    → ((join_links first1 first1 first2 l).next c ≡ l.next c)
      × ((join_links first1 first1 first2 l).prev c ≡ l.prev c)
unfolding join_links
join_links-same first1 first2 c l e h = (
  ground arith,
  elim (ℕ_discrete first2 c) [ yes q ↦ ground (arith, ap l.prev q, h) | no q ↦ ground arith ],
)

prev-first :
    (l : Links) (ws : List ℕ) (first : ℕ) → Chain l 0 first ws → first ≢ 0 → l.prev first ≡ 0
prev-first l [] first c n = absurd (n c)
prev-first l (w ∷ ws) first (e, nw, dw, pw, c) n = ap l.prev e ∙ pw

join_links-next :
    (first1 q first2 c : ℕ) (l : Links)
    → (first1 ≡ 0) ⊎ (q ≢ c)
    → (join_links first1 q first2 l).next c ≡ l.next c
unfolding join_links
join_links-next first1 q first2 c l h = ground arith

join_links-prev :
    (first1 q first2 c : ℕ) (l : Links)
    → first2 ≢ c
    → (join_links first1 q first2 l).prev c ≡ l.prev c
unfolding join_links
join_links-prev first1 q first2 c l h = ground arith

join_links-Chain :
    (l : Links) (us ws : List ℕ) (first1 first2 : ℕ)
    → Disjoint us ws
    → Chain l 0 first1 us
    → Chain l 0 first2 ws
    → Chain (join_links first1 (last first1 us) first2 l) 0 (first_of first1 first2) (us ++ ws)
join_links-Chain l [] ws first1 first2 d c c' =
    let none_first : (first1 == 0) ≡ true = ground (arith, c) in
    rw none_first (
      frame l _ ws 0 first2 (λ x m. join_links-same first1 first2 x l c (prev-first l ws first2 c'))
        c')
join_links-Chain l (u ∷ us) ws first1 first2 d (e, nu, du, pu, c) c' =
    let some_unit : (u == 0) ≡ false = ground arith in
    subst (λ f. Chain (join_links f (last u us) first2 l) 0 (first_of f first2) (u ∷ us ++ ws))
      (sym e)
      (subst (λ f. Chain (join_links u (last u us) first2 l) 0 f (u ∷ us ++ ws))
        (first_of-some u first2 nu)
        (Chain-join l _ us ws u first2 (join_links-Joined u (last u us) first2 l nu) d
          (refl, nu, du, pu, c) c'))

-- What alloc_Merge leaves. The emptied segment keeps its size.
pub record Merged {a : Allocator} (q1 q2 : MyAlloc) (m : Memory a) (us ws : List ℕ)
    (r : MyAlloc × MyAlloc × Memory a) : Type 0 where
  pub segment : IsSegment r.2 r.0 (us ++ ws)
  pub limit : r.0.max_size ≡ q1.max_size
  pub no_units : r.1.first_unit ≡ 0
  pub same_size : r.1.current_size ≡ q2.current_size
  pub spares : Spares m r.2 (us ++ ws)
  pub system : r.2.system ≡ m.system

pub free_segment_none :
    (a : Allocator) (rounds : ℕ) (q : MyAlloc) (m : Memory a)
    → q.first_unit ≡ 0
    → 0 < rounds
    → free_segment a rounds q m ≡ some (emptied q, m)
unfolding free_segment free_units
free_segment_none a zero q m e h = absurd (omega arith)
free_segment_none a (suc rounds) q m e h = ground (arith, e)

module _ (a : Allocator) (q1 q2 : MyAlloc) (m : Memory a) (us ws : List ℕ) (d : Disjoint us ws)
    (v1 : IsSegment m q1 us) (v2 : IsSegment m q2 ws) where
  abbrev joined : Links
  joined = join_links q1.first_unit (last q1.first_unit us) q2.first_unit m.links

  last-has : q1.first_unit ≢ 0 → has (last q1.first_unit us) us ≡ true
  last-has n = go us v1.chain
    where
      go : (us : List ℕ) → Chain m.links 0 q1.first_unit us → has (last q1.first_unit us) us ≡ true
      go [] c = absurd (n c)
      go (x ∷ us) c = has-last x us

  joined-Spares : Spares m (record m { links = joined }) (us ++ ws)
  joined-Spares = record {
    next_same = λ c nz h. elim (ℕ_discrete q1.first_unit 0) [
      | yes e ↦
          join_links-next q1.first_unit (last q1.first_unit us) q2.first_unit c m.links (inl e)
      | no n ↦
          join_links-next q1.first_unit (last q1.first_unit us) q2.first_unit c m.links
            (inr (λ e. ground (arith, h, has-append c us ws, last-has n, ap (λ y. has y us) e)))
    ];
    prev_same = λ c nz h.
        join_links-prev q1.first_unit (last q1.first_unit us) q2.first_unit c m.links (λ e. ground (
          arith,
          h,
          has-append c us ws,
          first-has m.links ws 0 q2.first_unit v2.chain (λ y. nz (sym e ∙ y)),
          ap (λ y. has y ws) e,
        ));
    size_same = λ c nz h. refl;
  }

  abbrev merged : MyAlloc × MyAlloc × Memory a
  merged = (
    record q1 {
      first_unit = if q1.first_unit == 0 then q2.first_unit else q1.first_unit;
      current_size = (q1.current_size + q2.current_size) % long_mod;
    },
    record q2 { first_unit = 0 },
    record m { links = joined },
  )

  merged-IsSegment : IsSegment merged.2 merged.0 (us ++ ws)
  merged-IsSegment = record {
    chain = join_links-Chain m.links us ws q1.first_unit q2.first_unit d v1.chain v2.chain;
    current = omega (arith, v1.current, v2.current, total-append m.size us ws);
  }

  merge_lem : (rounds : ℕ) → length us < rounds → merge a rounds q1 q2 m ≡ some merged
  unfolding merge
  merge_lem rounds h =
      rw (last_unit-last rounds m.links us 0 q1.first_unit q1.first_unit h v1.chain, merge) refl

  -- On two segments that hold disjoint lists of pieces, and with more rounds than the first has
  -- pieces, alloc_Merge ends; the first segment then holds its pieces and behind them those of the
  -- second one, with the limit it had, and the second one has no piece, but the size that it had;
  -- nothing at other addresses is changed and nothing is given back.
  pub merge-Merged :
      (rounds : ℕ)
      → length us < rounds
      → (r : MyAlloc × MyAlloc × Memory a) × (merge a rounds q1 q2 m ≡ some r)
        × Merged q1 q2 m us ws r
  merge-Merged rounds h = (
    merged,
    merge_lem rounds h,
    record {
      segment = merged-IsSegment;
      limit = refl;
      no_units = refl;
      same_size = refl;
      spares = joined-Spares;
      system = refl;
    },
  )

  -- On two segments that hold disjoint lists of pieces, and with more rounds than the first has
  -- pieces, alloc_MergeAndFinish ends, the first segment then holds the pieces of both, and nothing
  -- is given back to the system but the structure of the second one.
  pub merge_and_finish-segment :
      (rounds : ℕ)
      → length us < rounds
      → (q' : MyAlloc) × (m' : Memory a) × (merge_and_finish a rounds q1 q2 m ≡ some (q', m'))
        × IsSegment m' q' (us ++ ws)
        × (m'.system ≡ a.free q2.self m.system)
  unfolding merge_and_finish finish_segment
  merge_and_finish-segment rounds h =
      let m' : Memory a = record merged.2 {
        system = a.free q2.self m.system;
        stat = stat_sub 0 sizeof_pointer m.stat;
      } in
      (
        merged.0,
        m',
        rw
            (
              merge_lem rounds h,
              merge_and_finish,
              finish_segment,
              free_segment_none a rounds merged.1 merged.2 refl (omega arith),
            )
            refl,
        record { chain = merged-IsSegment.chain; current = merged-IsSegment.current },
        refl,
      )
