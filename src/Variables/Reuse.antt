-- ===== src/Variables/Reuse.antt =====
-- memory_NewVariable against the list of free variables that it takes the variable from.
use script_basic.Common.{
  ℕ, suc, ◌<◌, ◌≡◌, ◌≢◌, refl, sym, ap, ◌∙◌, true, false, some, List, [], ◌∷◌, leb, ◌==◌, arith,
}
use mathlib.Core.Path.{subst, fun_ext}
use native.Mathlib.Decide.{ℕ_discrete}
use script_basic.Common.Int.{pos}
use script_basic.Memory.{Allocator}
use script_basic.Links.{Links, has, Chain}
use script_basic.Links.Chain.{frame, first-has, next-ne, not_zero, no_zero}
use script_basic.Links.Unlink.{Unlinked, Chain-unlink, apart}
use script_basic.Variables.Objects.{
  freed, unknown, Object, Variables, large_block_type, put_at, list_of, places,
  max_number_of_fix_types, new_variable, reuse_variable, unlink_free,
}
use script_basic.Variables.Release.{is_array, release_variable, give_back}
use script_basic.Variables.Lists.{IsFree, IsMortal, Same}
use script_basic.Variables.MortalList.{IsStore}
use script_basic.Variables.Released.{
  freed_all, give_back-Same, give_back-IsFree, release_variable-give_back,
}

unlink_free-Unlinked :
    (p : ℕ) (l : Links) → l.next p ≢ p → l.prev p ≡ 0 → Unlinked l (unlink_free p l) p
unfolding unlink_free
unlink_free-Unlinked p l n z = record {
  next_prev = λ y. absurd (y z);
  prev_next = λ y. ground arith;
  next_same = λ c d e. ground arith;
  prev_same = λ c d e. ground arith;
}

-- A variable that new_variable takes from a free list, and the store without it.
pub record Reused {a : Allocator} (type p first : ℕ) (free : ℕ → List ℕ) (ms : List ℕ)
    (r : ℕ × Variables a) : Type 0 where
  pub same : r.0 ≡ p
  pub state : (r.1.object p).state ≡ unknown
  pub s_type : (r.1.object p).s_type ≡ type
  pub no_elements : places (r.1.object p).low (r.1.object p).high ≡ 0
  pub no_next : r.1.links.next p ≡ 0
  pub no_prev : r.1.links.prev p ≡ 0
  pub store : IsStore r.1 first free ms

module _ (a : Allocator) (m : Variables a) (first : ℕ) (free : ℕ → List ℕ) (ms : List ℕ)
    (v : IsStore m first free ms) (type size : ℕ) (t : type < max_number_of_fix_types) (p : ℕ)
    (us : List ℕ) (e : free (list_of type) ≡ p ∷ us) where
  -- The list that the variable is in.
  chain : Chain m.links 0 (m.free_list (list_of type)) (p ∷ us)
  chain =
      subst (λ x. Chain m.links 0 (m.free_list (list_of type)) x) e
        (v.free_lists.chain (list_of type))

  in_list : (c : ℕ) → has c (p ∷ us) ≡ true → has c (free (list_of type)) ≡ true
  in_list c h = subst (λ x. has c x ≡ true) (sym e) h

  reused : Variables a
  reused = record m {
    free_list = put_at m.free_list (list_of type) (m.links.next p);
    links = unlink_free p m.links;
    object =
        put_at m.object p
          (record (m.object p) { s_type = type; low = pos 1; high = pos 0; state = unknown });
  }

  reuses : new_variable a type size m ≡ (p, reused)
  unfolding new_variable reuse_variable reused
  reuses =
      let not_large : (type == 255) ≡ false = ground (arith, t) in
      let no_error : leb 254 type ≡ false = ground (arith, t) in
      let some_free : (p == 0) ≡ false = ground (arith, chain) in
      rw (not_large, no_error, chain.0, some_free) refl

  reused_links : Unlinked m.links (unlink_free p m.links) p
  reused_links =
      unlink_free-Unlinked p m.links (next-ne m.links (p ∷ us) 0 _ p chain (ground arith)) chain.3

  reused-Same : (c : ℕ) → c ≢ p → has c us ≡ false → c ≢ 0 → Same m reused c
  unfolding reused
  reused-Same c n h z = record {
    next = reused_links.next_same c n (λ q. z (q ∙ chain.3));
    prev = reused_links.prev_same c n (λ q. ground (
      arith,
      h,
      first-has m.links us p (m.links.next p) chain.4 (λ y. z (q ∙ y)),
      ap (λ x. has x us) q,
    ));
    object = ground arith;
  }

  -- A variable that is not in the list.
  elsewhere : (c : ℕ) → has c (free (list_of type)) ≡ false → c ≢ 0 → Same m reused c
  elsewhere c h z =
      let h' : has c (p ∷ us) ≡ false = subst (λ x. has c x ≡ false) e h in
      reused-Same c (ground (arith, h')) (ground (arith, h')) z

  own-Chain : Chain (unlink_free p m.links) 0 (m.links.next p) us
  own-Chain =
      let at_first : (m.free_list (list_of type) == p) ≡ true = ground (arith, chain.0) in
      let self : (p == p) ≡ true = ground arith in
      rw (at_first, self) at
        (Chain-unlink m.links (unlink_free p m.links) p reused_links (p ∷ us) 0
          (m.free_list (list_of type)) (no_zero m.links (p ∷ us) 0 _ chain) (ground arith) chain)

  -- In another list is no variable of this one.
  other_list :
      (i c : ℕ) → list_of type ≢ i → has c (free i) ≡ true → has c (free (list_of type)) ≡ false
  other_list i c n h =
      ground (arith, v.free_lists.list i c h, v.free_lists.list (list_of type) c, n)

  -- What is still free was so, and is not `p`.
  still_free :
      (i c : ℕ) → has c (put_at free (list_of type) us i) ≡ true → (has c (free i) ≡ true) × (c ≢ p)
  still_free i c h = elim (ℕ_discrete (list_of type) i) [
    | yes q ↦
        let here : (list_of type == i) ≡ true = ground (arith, q) in
        let h' : has c us ≡ true = rw here at h in
        (
          subst (λ x. has c (free x) ≡ true) q (in_list c (ground (arith, h'))),
          apart p c us chain.2 h',
        )
    | no q ↦
        let other : (list_of type == i) ≡ false = ground (arith, q) in
        let h' : has c (free i) ≡ true = rw other at h in
        (h', λ r. ground (arith, other_list i c q h', in_list c (ground (arith, r))))
  ]

  reused-IsFree : IsFree reused (put_at free (list_of type) us)
  unfolding reused
  reused-IsFree = record {
    chain = λ i. elim (ℕ_discrete (list_of type) i) [
      | yes q ↦ let here : (list_of type == i) ≡ true = ground (arith, q) in rw here own-Chain
      | no q ↦
          let other : (list_of type == i) ≡ false = ground (arith, q) in
          rw other (
            frame m.links reused.links (free i) 0 (m.free_list i)
              (λ c h.
                let s : Same m reused c =
                  elsewhere c (other_list i c q h)
                    (not_zero m.links (free i) 0 (m.free_list i) c (v.free_lists.chain i) h) in
                (s.next, s.prev))
              (v.free_lists.chain i))
    ];
    state = λ i c h. let (f, n) = still_free i c h in ground (arith, v.free_lists.state i c f);
    list = λ i c h. let (f, n) = still_free i c h in ground (arith, v.free_lists.list i c f);
  }

  reused-IsMortal : IsMortal reused 0 first ms
  reused-IsMortal = record {
    chain =
        frame m.links reused.links ms 0 first (λ c h. ((other c h).next, (other c h).prev))
          v.mortal_list.chain;
    state = λ c h. ap (λ (o : Object). o.state) (other c h).object ∙ v.mortal_list.state c h;
  }
    where
      other : (c : ℕ) → has c ms ≡ true → Same m reused c
      other c h =
          elsewhere c (ground (arith, v.mortal_list.state c h, v.free_lists.state (list_of type) c))
            (not_zero m.links ms 0 first c v.mortal_list.chain h)

  pub new_variable-Reused :
      Reused type p first (put_at free (list_of type) us) ms (new_variable a type size m)
  unfolding reused unlink_free
  new_variable-Reused = rw reuses (record {
    same = refl;
    state = ground arith;
    s_type = ground arith;
    no_elements = ground arith;
    no_next = ground arith;
    no_prev = ground arith;
    store = record { free_lists = reused-IsFree; mortal_list = reused-IsMortal };
  })

put_at-put_at : (f : ℕ → List ℕ) (i : ℕ) (x : List ℕ) → put_at (put_at f i x) i (f i) ≡ f
put_at-put_at f i x = fun_ext (λ j. ground arith)

give_back-IsStore :
    (a : Allocator) (m : Variables a) (first : ℕ) (free : ℕ → List ℕ) (ms : List ℕ) (p : ℕ)
    → IsStore m first free ms
    → p ≢ 0
    → (m.object p).state ≡ unknown
    → (m.object p).s_type ≢ large_block_type
    → IsStore
        (give_back a p m)
        first
        (put_at free (list_of (m.object p).s_type) (p ∷ free (list_of (m.object p).s_type)))
        ms
give_back-IsStore a m first free ms p v z s l = record {
  free_lists =
      subst (λ f. IsFree (give_back a p m) f) lists
        (give_back-IsFree a m free v.free_lists p z used);
  mortal_list = record {
    chain =
        frame m.links (give_back a p m).links ms 0 first
          (λ c h. ((other c h).next, (other c h).prev)) v.mortal_list.chain;
    state = λ c h. ap (λ (o : Object). o.state) (other c h).object ∙ v.mortal_list.state c h;
  };
}
  where
    used : (m.object p).state ≢ freed
    used q = ground (arith, s)

    lists :
        freed_all m.object (p ∷ []) free
        ≡ put_at free (list_of (m.object p).s_type) (p ∷ free (list_of (m.object p).s_type))
    lists =
        let small : ((m.object p).s_type == large_block_type) ≡ false = ground (arith, l) in
        rw small refl

    other : (c : ℕ) → has c ms ≡ true → Same m (give_back a p m) c
    other c h =
        give_back-Same a m free v.free_lists p z used c
          (λ q. ground (arith, v.mortal_list.state c h, s, ap (λ x. (m.object x).state) q))
          (λ q. ground (arith, v.mortal_list.state c h))

-- On free lists and a mortal list of variables, memory_ReleaseVariable of a variable in state
-- unknown that is neither an array nor a large block ends, and memory_NewVariable of a type that is
-- kept in the same free list, below 254, then returns this variable, with the new type, in state
-- unknown, with no elements and with NULL links, and with the free lists and the mortal list as they
-- were at first.
pub new_variable-release_variable :
    (a : Allocator) (m : Variables a) (first : ℕ) (free : ℕ → List ℕ) (ms : List ℕ)
    (depth p type size : ℕ)
    → IsStore m first free ms
    → p ≢ 0
    → (m.object p).state ≡ unknown
    → is_array (m.object p).v_type ≡ false
    → (m.object p).s_type ≢ large_block_type
    → type < max_number_of_fix_types
    → list_of type ≡ list_of (m.object p).s_type
    → (m' : Variables a) × (release_variable a (suc depth) p m ≡ some m')
      × Reused type p first free ms (new_variable a type size m')
new_variable-release_variable a m first free ms depth p type size v z s n l t e =
    let i : ℕ = list_of (m.object p).s_type in
    let freed_lists : ℕ → List ℕ = put_at free i (p ∷ free i) in
    (
      give_back a p m,
      release_variable-give_back a depth p m z (λ q. ground (arith, s)) n,
      subst (λ f. Reused type p first f ms (new_variable a type size (give_back a p m)))
          (ap (λ j. put_at freed_lists j (free i)) e ∙ put_at-put_at free i (p ∷ free i))
          (new_variable-Reused a (give_back a p m) first freed_lists ms
            (give_back-IsStore a m first free ms p v z s l) type size t p (free i)
            (ap freed_lists e ∙ ground arith)),
    )
