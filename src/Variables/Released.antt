-- ===== src/Variables/Released.antt =====
-- memory_ReleaseVariable and memory_ReleaseMortals against the lists of free and of mortal variables.
use script_basic.Common.{
  ℕ, suc, zero, ◌<◌, ◌≡◌, ◌≢◌, refl, sym, ap, ◌∙◌, true, false, Option, some, List, [], ◌∷◌, length,
  ◌==◌, if◌then◌else◌, Bool-cases, inl, inr, arith,
}
use mathlib.Core.Path.{subst}
use script_basic.Memory.{Allocator}
use script_basic.Links.{has}
use script_basic.Links.Chain.{frame}
use script_basic.Links.Unlink.{apart}
use script_basic.Variables.Objects.{
  State, freed, mortal, immortal, unknown, Object, Variables, large_block_type, put_at, list_of,
}
use script_basic.Variables.Release.{
  is_immortal, is_array, unreference, free_large, keep_free, give_back, release_variable,
}
use script_basic.Variables.Mortal.{release_each, release_mortals}
use script_basic.Variables.Lists.{
  IsFree, IsMortal, Same, IsFree-Same, keep_free-Same, keep_free-IsFree,
}

-- The free lists when these variables have been released in turn: large blocks are in none.
abbrev pub freed_all : (ℕ → Object) → List ℕ → (ℕ → List ℕ) → ℕ → List ℕ
freed_all object [] free = free
freed_all object (p ∷ ms) free = freed_all object ms (
    if (object p).s_type == large_block_type
    then free
    else put_at free (list_of (object p).s_type) (p ∷ free (list_of (object p).s_type)))

-- The segment, to which large blocks and their records have been given back.
abbrev pub returned : (a : Allocator) → (ℕ → Object) → List ℕ → a.Segment → a.Segment
returned a object [] s = s
returned a object (p ∷ ms) s = returned a object ms (
    if (object p).s_type == large_block_type
    then a.free p (if (object p).value == 0 then s else a.free (object p).value s)
    else s)

-- Records that differ in their states only.
abbrev Alike : (ℕ → Object) → (ℕ → Object) → Type 0
Alike f g = (c : ℕ) → ((g c).s_type ≡ (f c).s_type) × ((g c).value ≡ (f c).value)

freed_all-Alike :
    (f g : ℕ → Object) (ms : List ℕ) (free : ℕ → List ℕ)
    → Alike f g
    → freed_all g ms free ≡ freed_all f ms free
freed_all-Alike f g [] free h = refl
freed_all-Alike f g (p ∷ ms) free h = rw (h p).0 (freed_all-Alike f g ms _ h)

returned-Alike :
    (a : Allocator) (f g : ℕ → Object) (ms : List ℕ) (s : a.Segment)
    → Alike f g
    → returned a g ms s ≡ returned a f ms s
returned-Alike a f g [] s h = refl
returned-Alike a f g (p ∷ ms) s h = rw ((h p).0, (h p).1) (returned-Alike a f g ms _ h)

not_immortal : (s : State) → s ≢ immortal → is_immortal s ≡ false
not_immortal unknown n = refl
not_immortal freed n = refl
not_immortal mortal n = refl
not_immortal immortal n = absurd (n refl)

unreference_plain :
    (a : Allocator) (rounds p : ℕ) (m : Variables a)
    → is_immortal (m.object p).state ≡ false
    → unreference a rounds p m ≡ some (p, m)
unfolding unreference
unreference_plain a rounds p m e = rw e refl

-- A variable that is neither immortal nor an array is given back at once.
pub release_variable-give_back :
    (a : Allocator) (rounds p : ℕ) (m : Variables a)
    → p ≢ 0
    → (m.object p).state ≢ immortal
    → is_array (m.object p).v_type ≡ false
    → release_variable a (suc rounds) p m ≡ some (give_back a p m)
unfolding release_variable
release_variable-give_back a rounds p m z n h =
    let some_variable : (p == 0) ≡ false = ground arith in
    rw (some_variable, unreference_plain a rounds p m (not_immortal (m.object p).state n))
      (rw h refl)

module _ (a : Allocator) (m : Variables a) (free : ℕ → List ℕ) (v : IsFree m free) where
  module _ (p : ℕ) (z : p ≢ 0) (n : (m.object p).state ≢ freed) where
    pub give_back-Same : (c : ℕ) → c ≢ p → (m.object c).state ≢ freed → Same m (give_back a p m) c
    unfolding give_back free_large
    give_back-Same c d s = elim (Bool-cases ((m.object p).s_type == large_block_type)) [
      | inl e ↦ rw e (record { next = refl; prev = refl; object = refl })
      | inr e ↦ rw e (keep_free-Same a m free v p z n c d s)
    ]

    pub give_back-IsFree : IsFree (give_back a p m) (freed_all m.object (p ∷ []) free)
    unfolding give_back free_large
    give_back-IsFree = elim (Bool-cases ((m.object p).s_type == large_block_type)) [
      | inl e ↦ rw e (
          IsFree-Same a m free v _ refl
            (λ i c q. record { next = refl; prev = refl; object = refl }))
      | inr e ↦ rw e (keep_free-IsFree a m free v p z n)
    ]

    give_back-Alike : Alike m.object (give_back a p m).object
    unfolding give_back free_large keep_free
    give_back-Alike c = ground arith

    give_back-returned : (give_back a p m).segment ≡ returned a m.object (p ∷ []) m.segment
    unfolding give_back free_large keep_free
    give_back-returned = ground arith

-- What memory_ReleaseMortals leaves of the variables.
pub record Emptied {a : Allocator} (m m' : Variables a) (free : ℕ → List ℕ) (ms : List ℕ)
    : Type 0 where
  pub lists : IsFree m' (freed_all m.object ms free)
  pub segment : m'.segment ≡ returned a m.object ms m.segment
  pub others : (c : ℕ) → has c ms ≡ false → (m.object c).state ≢ freed → Same m m' c

Same-trans :
    (a : Allocator) (m m1 m2 : Variables a) (c : ℕ) → Same m m1 c → Same m1 m2 c → Same m m2 c
Same-trans a m m1 m2 c s t = record {
  next = t.next ∙ s.next;
  prev = t.prev ∙ s.prev;
  object = t.object ∙ s.object;
}

-- The first variable of a mortal list is given back.
module _ (a : Allocator) (m : Variables a) (free : ℕ → List ℕ) (v : IsFree m free) (p : ℕ)
    (ms : List ℕ) (before first : ℕ) (w : IsMortal m before first (p ∷ ms)) where
  not_freed : (c : ℕ) → has c (p ∷ ms) ≡ true → (m.object c).state ≢ freed
  not_freed c h e = ground (arith, w.state c h)

  step_Same : (c : ℕ) → c ≢ p → (m.object c).state ≢ freed → Same m (give_back a p m) c
  step_Same = give_back-Same a m free v p w.chain.1 (not_freed p (ground arith))

  in_rest : (c : ℕ) → has c ms ≡ true → Same m (give_back a p m) c
  in_rest c h = step_Same c (apart p c ms w.chain.2 h) (not_freed c (ground (arith, h)))

  rest-IsMortal : IsMortal (give_back a p m) p (m.links.next p) ms
  rest-IsMortal = record {
    chain =
        frame m.links (give_back a p m).links ms p (m.links.next p)
          (λ c h. ((in_rest c h).next, (in_rest c h).prev)) w.chain.4;
    state =
        λ c h. ap (λ (o : Object). o.state) (in_rest c h).object ∙ w.state c (ground (arith, h));
  }

  after_rest :
      (m' : Variables a)
      → Emptied (give_back a p m) m' (freed_all m.object (p ∷ []) free) ms
      → Emptied m m' free (p ∷ ms)
  after_rest m' e = record {
    lists =
        subst (λ f. IsFree m' f)
          (freed_all-Alike m.object (give_back a p m).object ms _
            (give_back-Alike a m free v p w.chain.1 (not_freed p (ground arith))))
          e.lists;
    segment =
        e.segment
        ∙ returned-Alike a m.object (give_back a p m).object ms _
            (give_back-Alike a m free v p w.chain.1 (not_freed p (ground arith)))
        ∙ ap (returned a m.object ms)
            (give_back-returned a m free v p w.chain.1 (not_freed p (ground arith)));
    others = λ c h n.
        let s : Same m (give_back a p m) c = step_Same c (ground (arith, h)) n in
        Same-trans a m (give_back a p m) m' c s (
          e.others c (ground (arith, h))
            (λ q. n (sym (ap (λ (o : Object). o.state) s.object) ∙ q)));
  }

release_each_next :
    (a : Allocator) (rounds depth p : ℕ) (m : Variables a) (r : Option (Variables a))
    → p ≢ 0
    → (m.object p).state ≢ immortal
    → is_array (m.object p).v_type ≡ false
    → release_each a rounds (suc depth) (m.links.next p) (give_back a p m) ≡ r
    → release_each a (suc rounds) (suc depth) p m ≡ r
unfolding release_each
release_each_next a rounds depth p m r z n h e =
    let some_variable : (p == 0) ≡ false = ground arith in
    rw (some_variable, release_variable-give_back a depth p m z n h) e

release_each-Emptied :
    (a : Allocator) (rounds depth : ℕ) (ms : List ℕ) (before first : ℕ) (m : Variables a)
    → (free : ℕ → List ℕ) → length ms < rounds
    → IsFree m free
    → IsMortal m before first ms
    → ((c : ℕ) → has c ms ≡ true → is_array (m.object c).v_type ≡ false)
    → (m' : Variables a) × (release_each a rounds (suc depth) first m ≡ some m')
      × Emptied m m' free ms
unfolding release_each
release_each-Emptied a zero depth ms before first m free h v w plain = absurd (omega arith)
release_each-Emptied a (suc rounds) depth [] before first m free h v w plain = (
  m,
  ground (arith, w.chain),
  record {
    lists = v;
    segment = refl;
    others = λ c h n. record { next = refl; prev = refl; object = refl };
  },
)
release_each-Emptied a (suc rounds) depth (p ∷ ms) before first m free h v w plain =
    let own : has p (p ∷ ms) ≡ true = ground arith in
    let (m', e, r) =
      release_each-Emptied a rounds depth ms p (m.links.next p) (give_back a p m)
        (freed_all m.object (p ∷ []) free) (omega arith)
        (give_back-IsFree a m free v p w.chain.1 (not_freed a m free v p ms before first w p own))
        (rest-IsMortal a m free v p ms before first w)
        (λ c q.
          ap (λ (o : Object). is_array o.v_type) (in_rest a m free v p ms before first w c q).object
          ∙ plain c (ground (arith, q))) in
    (
      m',
      subst (λ x. release_each a (suc rounds) (suc depth) x m ≡ some m') (sym w.chain.0)
          (release_each_next a rounds depth p m (some m') w.chain.1 (λ q. ground (arith, w.state p))
            (plain p own) e),
      after_rest a m free v p ms before first w m' r,
    )

-- On a mortal list of variables that are no arrays, and free lists of free variables,
-- memory_ReleaseMortals ends, given more rounds than there are variables: the mortal list is empty;
-- each variable is in front of the free list of its type, or given back to the segment with its
-- block if it is a large block, in the order of the list; and no other variable that is in use is
-- changed.
pub release_mortals-Emptied :
    (a : Allocator) (rounds depth first : ℕ) (m : Variables a) (free : ℕ → List ℕ) (ms : List ℕ)
    → length ms < rounds
    → IsFree m free
    → IsMortal m 0 first ms
    → ((c : ℕ) → has c ms ≡ true → is_array (m.object c).v_type ≡ false)
    → (m' : Variables a) × (release_mortals a rounds (suc depth) (some first) m ≡ some (some 0, m'))
      × Emptied m m' free ms
unfolding release_mortals
release_mortals-Emptied a rounds depth first m free ms h v w plain =
    let (m', e, r) = release_each-Emptied a rounds depth ms 0 first m free h v w plain in
    (m', rw (e, release_mortals) refl, r)
