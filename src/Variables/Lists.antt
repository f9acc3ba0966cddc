-- ===== src/Variables/Lists.antt =====
-- memory.c: the free lists and the mortal list as lists of variables, which the functions keep apart.
use script_basic.Common.{ℕ, ◌≡◌, ◌≢◌, sym, ap, ◌∙◌, true, false, List, ◌∷◌, ◌==◌, arith}
use mathlib.Core.Path.{subst}
use native.Mathlib.Decide.{ℕ_discrete}
use script_basic.Memory.{Allocator}
use script_basic.Links.{Links, has, Chain}
use script_basic.Links.Chain.{frame, Pushed, Chain-push, first-has, not_zero}
use script_basic.Variables.Objects.{freed, mortal, Object, Variables, put_at, list_of}
use script_basic.Variables.Release.{link_free, keep_free}

-- The free variables of each list.
pub record IsFree {a : Allocator} (m : Variables a) (free : ℕ → List ℕ) : Type 0 where
  pub chain : (i : ℕ) → Chain m.links 0 (m.free_list i) (free i)
  pub state : (i c : ℕ) → has c (free i) ≡ true → (m.object c).state ≡ freed
  pub list : (i c : ℕ) → has c (free i) ≡ true → list_of (m.object c).s_type ≡ i

-- The variables of a mortal list. `before` is what the first one says to come before it.
pub record IsMortal {a : Allocator} (m : Variables a) (before first : ℕ) (ms : List ℕ)
    : Type 0 where
  pub chain : Chain m.links before first ms
  pub state : (c : ℕ) → has c ms ≡ true → (m.object c).state ≡ mortal

-- Variables of another state than those of a free list are in none.
pub outside :
    {a : Allocator} (m : Variables a) (free : ℕ → List ℕ)
    → IsFree m free
    → (i c : ℕ) → (m.object c).state ≢ freed
    → has c (free i) ≡ false
outside m free v i c n = ground (arith, v.state i c, n)

link_free-Pushed : (p first : ℕ) (l : Links) → p ≢ first → Pushed l (link_free p first l) p first
unfolding link_free
link_free-Pushed p first l n = record {
  next_self = ground arith;
  prev_self = ground arith;
  prev_first = λ z s. ground arith;
  next_same = λ c d. ground arith;
  prev_same = λ c d e. ground arith;
}

-- The links and the record of a variable are as before.
pub record Same {a : Allocator} (m m' : Variables a) (c : ℕ) : Type 0 where
  pub next : m'.links.next c ≡ m.links.next c
  pub prev : m'.links.prev c ≡ m.links.prev c
  pub object : m'.object c ≡ m.object c

module _ (a : Allocator) (m : Variables a) (free : ℕ → List ℕ) (v : IsFree m free) where
  -- Another variable than a free one is not the first of a free list.
  not_first : (p i : ℕ) → p ≢ 0 → (m.object p).state ≢ freed → p ≢ m.free_list i
  not_first p i z n e = n (
      v.state i p (
        subst (λ x. has x (free i) ≡ true) (sym e)
          (first-has m.links (free i) 0 (m.free_list i) (v.chain i) (λ q. z (e ∙ q)))))

  -- The first of a free list is in no other.
  other_list : (i j c : ℕ) → i ≢ j → has c (free j) ≡ true → c ≢ m.free_list i
  other_list i j c n h e = n (
      sym (
        v.list i c (
          subst (λ x. has x (free i) ≡ true) (sym e)
            (first-has m.links (free i) 0 (m.free_list i) (v.chain i)
              (λ q. not_zero m.links (free j) 0 (m.free_list j) c (v.chain j) h (e ∙ q)))))
      ∙ v.list j c h)

  -- The frame of all that is done below.
  pub IsFree-Same :
      (m' : Variables a)
      → m'.free_list ≡ m.free_list
      → ((i c : ℕ) → has c (free i) ≡ true → Same m m' c)
      → IsFree m' free
  IsFree-Same m' e h = record {
    chain = λ i.
        subst (λ f. Chain m'.links 0 (f i) (free i)) (sym e)
          (frame m.links m'.links (free i) 0 (m.free_list i)
            (λ c q. ((h i c q).next, (h i c q).prev)) (v.chain i));
    state = λ i c q. ap (λ (o : Object). o.state) (h i c q).object ∙ v.state i c q;
    list = λ i c q. ap (λ (o : Object). list_of o.s_type) (h i c q).object ∙ v.list i c q;
  }

  module _ (p : ℕ) (z : p ≢ 0) (n : (m.object p).state ≢ freed) where
    -- A variable that is neither `p` nor free is left alone.
    pub keep_free-Same : (c : ℕ) → c ≢ p → (m.object c).state ≢ freed → Same m (keep_free a p m) c
    unfolding keep_free link_free
    keep_free-Same c d s = record {
      next = ground arith;
      prev = ground (arith, apart_first);
      object = ground arith;
    }
      where
        apart_first :
            m.free_list (list_of (m.object p).s_type) ≢ 0
            → c ≢ m.free_list (list_of (m.object p).s_type)
        apart_first y e = not_first c (list_of (m.object p).s_type) (λ q. y (sym e ∙ q)) s e

    -- All variables of the free lists differ from `p`.
    not_free : (i c : ℕ) → has c (free i) ≡ true → c ≢ p
    not_free i c q e = n (sym (ap (λ x. (m.object x).state) e) ∙ v.state i c q)

    pub keep_free-IsFree :
        IsFree
          (keep_free a p m)
          (put_at free (list_of (m.object p).s_type) (p ∷ free (list_of (m.object p).s_type)))
    unfolding keep_free
    keep_free-IsFree = record {
      chain = λ i. elim (ℕ_discrete (list_of (m.object p).s_type) i) [
        | yes e ↦
            let here : (list_of (m.object p).s_type == i) ≡ true = ground arith in
            rw here (
              Chain-push m.links (link_free p (first) m.links) (free (list_of (m.object p).s_type))
                p first pushed z (outside m free v (list_of (m.object p).s_type) p n)
                (v.chain (list_of (m.object p).s_type)))
        | no e ↦
            let other : (list_of (m.object p).s_type == i) ≡ false = ground arith in
            rw other (
              frame m.links (link_free p first m.links) (free i) 0 (m.free_list i)
                (λ c q. (
                  pushed.next_same c (not_free i c q),
                  pushed.prev_same c (not_free i c q)
                      (other_list (list_of (m.object p).s_type) i c e q),
                ))
                (v.chain i))
      ];
      state = λ i c q. ground (arith, v.state i c);
      list = λ i c q. ground (arith, v.list i c);
    }
      where
        first : ℕ
        first = m.free_list (list_of (m.object p).s_type)

        pushed : Pushed m.links (link_free p first m.links) p first
        pushed = link_free-Pushed p first m.links (not_first p (list_of (m.object p).s_type) z n)
