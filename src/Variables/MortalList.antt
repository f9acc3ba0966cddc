-- ===== src/Variables/MortalList.antt =====
-- memory_Mortalize and memory_Immortalize against the lists of free and of mortal variables.
use script_basic.Common.{
  ℕ, ◌≡◌, ◌≢◌, refl, sym, ap, ◌∙◌, inl, inr, true, false, List, ◌∷◌, ◌==◌, if◌then◌else◌, arith,
}
use mathlib.Core.Path.{subst}
use script_basic.Memory.{Allocator}
use script_basic.Links.{Links, has, remove, Chain}
use script_basic.Links.Chain.{
  Pushed, Chain-push, first-has, next-has, prev-has, not_zero, next-ne, prev-ne, no_zero,
}
use script_basic.Links.Unlink.{Unlinked, Chain-unlink, has-remove, has-remove_self}
use script_basic.Variables.Objects.{State, freed, mortal, immortal, Variables}
use script_basic.Variables.Release.{is_immortal}
use script_basic.Variables.Mortal.{link_mortal, unlink_mortal, mortalize, immortalize}
use script_basic.Variables.Lists.{IsFree, IsMortal, Same, IsFree-Same}

-- The free variables, and those of one mortal list.
pub record IsStore {a : Allocator} (m : Variables a) (first : ℕ) (free : ℕ → List ℕ) (ms : List ℕ)
    : Type 0 where
  pub free_lists : IsFree m free
  pub mortal_list : IsMortal m 0 first ms

link_mortal-Pushed :
    (p first : ℕ) (l : Links) → p ≢ first → Pushed l (link_mortal p first l) p first
unfolding link_mortal
link_mortal-Pushed p first l n = record {
  next_self = ground arith;
  prev_self = ground arith;
  prev_first = λ z s. ground arith;
  next_same = λ c d. ground arith;
  prev_same = λ c d e. ground arith;
}

unlink_mortal-Unlinked :
    (p first : ℕ) (l : Links)
    → l.next p ≢ p
    → l.prev p ≢ p
    → Unlinked l (unlink_mortal p first l).1 p
unfolding unlink_mortal
unlink_mortal-Unlinked p first l n n' = record {
  next_prev = λ z. ground arith;
  prev_next = λ z. ground arith;
  next_same = λ c d e. ground arith;
  prev_same = λ c d e. ground arith;
}

unlink_mortal-first :
    (p first : ℕ) (l : Links)
    → (unlink_mortal p first l).0 ≡ (if l.prev p == 0 then l.next p else first)
unfolding unlink_mortal
unlink_mortal-first p first l = refl

-- In a chain of variables of one state, a variable of another state is not the first.
not_first_mortal :
    (a : Allocator) (m : Variables a) (before first : ℕ) (ms : List ℕ)
    → IsMortal m before first ms
    → (c : ℕ) → c ≢ 0
    → (m.object c).state ≢ mortal
    → c ≢ first
not_first_mortal a m before first ms w c z n e = n (
    w.state c (
      subst (λ x. has x ms ≡ true) (sym e)
        (first-has m.links ms before first w.chain (λ q. z (e ∙ q)))))

mortal_state : (s : State) → s ≡ mortal → is_immortal s ≡ false
mortal_state s e = rw e refl

-- What memory_Immortalize makes of a variable `p`: it is no longer in the list, its links are NULL,
-- and its value is the same.
pub record Immortalized {a : Allocator} (m : Variables a) (p : ℕ) (free : ℕ → List ℕ) (ms : List ℕ)
    (r : ℕ × Variables a) : Type 0 where
  pub state : (r.1.object p).state ≡ immortal
  pub value : (r.1.object p).value ≡ (m.object p).value
  pub no_next : r.1.links.next p ≡ 0
  pub no_prev : r.1.links.prev p ≡ 0
  pub store : IsStore r.1 r.0 free (remove p ms)

module _ (a : Allocator) (m : Variables a) (first : ℕ) (free : ℕ → List ℕ) (ms : List ℕ)
    (v : IsStore m first free ms) where
  -- On free lists and a mortal list of variables, memory_Mortalize of a variable that is neither
  -- free nor mortal puts it in front of the mortal list and keeps the free lists.
  pub mortalize-IsStore :
      (p : ℕ)
      → p ≢ 0
      → (m.object p).state ≢ freed
      → (m.object p).state ≢ mortal
      → IsStore (mortalize a p first m).1 (mortalize a p first m).0 free (p ∷ ms)
  unfolding mortalize
  mortalize-IsStore p z nf nm = record {
    free_lists = IsFree-Same a m free v.free_lists _ refl (λ i c h. alone c (free_apart i c h) (
        not_first_mortal a m 0 first ms v.mortal_list c
          (not_zero m.links (free i) 0 (m.free_list i) c (v.free_lists.chain i) h)
          (ground (arith, v.free_lists.state i c h))));
    mortal_list = record {
      chain =
          Chain-push m.links (link_mortal p first m.links) ms p first pushed z
            (ground (arith, v.mortal_list.state p, nm)) v.mortal_list.chain;
      state = λ c h. ground (arith, v.mortal_list.state c);
    };
  }
    where
      pushed : Pushed m.links (link_mortal p first m.links) p first
      pushed =
          link_mortal-Pushed p first m.links (not_first_mortal a m 0 first ms v.mortal_list p z nm)

      free_apart : (i c : ℕ) → has c (free i) ≡ true → c ≢ p
      free_apart i c h e = nf (sym (ap (λ x. (m.object x).state) e) ∙ v.free_lists.state i c h)

      alone : (c : ℕ) → c ≢ p → c ≢ first → Same m (mortalize a p first m).1 c
      alone c n n' = record {
        next = pushed.next_same c n;
        prev = pushed.prev_same c n n';
        object = ground arith;
      }

  module _ (p : ℕ) (h : has p ms ≡ true) where
    chain_links : Unlinked m.links (unlink_mortal p first m.links).1 p
    chain_links =
        unlink_mortal-Unlinked p first m.links (next-ne m.links ms 0 first p v.mortal_list.chain h)
          (prev-ne m.links ms 0 first p v.mortal_list.chain h
            (λ e. not_zero m.links ms 0 first p v.mortal_list.chain h (sym e)))

    new_first : (unlink_mortal p first m.links).0 ≡ (if first == p then m.links.next p else first)
    new_first =
        unlink_mortal-first p first m.links
        ∙ elim (prev-has m.links ms 0 first p v.mortal_list.chain h) [
          | inl (e, b) ↦ ground arith
          | inr (e, b) ↦
              ground (arith, not_zero m.links ms 0 first (m.links.prev p) v.mortal_list.chain b)
        ]

    immortalize_unlinks : immortalize a p first m ≡ (
      (unlink_mortal p first m.links).0,
      record m {
        object = λ c. if p == c then record (m.object p) { state = immortal } else m.object c;
        links = (unlink_mortal p first m.links).1;
      },
    )
    unfolding immortalize
    immortalize_unlinks =
        let some_variable : (p == 0) ≡ false =
          ground (arith, not_zero m.links ms 0 first p v.mortal_list.chain h) in
        rw (some_variable, mortal_state (m.object p).state (v.mortal_list.state p h)) refl

    in_rest : (c : ℕ) → has c (remove p ms) ≡ true → (c ≢ p) × (has c ms ≡ true)
    in_rest c q = (
      λ e. ground (
        arith,
        has-remove_self m.links p ms 0 first v.mortal_list.chain,
        q,
        ap (λ x. has x (remove p ms)) e,
      ),
      ground (arith, has-remove p c ms, q),
    )

    -- Of the links of a variable that is not mortal nothing is changed.
    not_mortal :
        (c : ℕ) → c ≢ 0 → (m.object c).state ≢ mortal → Same m (immortalize a p first m).1 c
    not_mortal c z n = rw immortalize_unlinks (record {
      next = chain_links.next_same c apart_p (λ e. n (
          v.mortal_list.state c
            (subst (λ x. has x ms ≡ true) (sym e) (prev_mortal (λ y. z (e ∙ y))))));
      prev = chain_links.prev_same c apart_p (λ e. n (
          v.mortal_list.state c (
            subst (λ x. has x ms ≡ true) (sym e)
              (next-has m.links ms 0 first p v.mortal_list.chain h (λ y. z (e ∙ y))))));
      object = ground (arith, apart_p);
    })
      where
        apart_p : c ≢ p
        apart_p e = n (v.mortal_list.state c (subst (λ x. has x ms ≡ true) (sym e) h))

        prev_mortal : m.links.prev p ≢ 0 → has (m.links.prev p) ms ≡ true
        prev_mortal y = elim (prev-has m.links ms 0 first p v.mortal_list.chain h) [
          | inl (e, b) ↦ absurd (y b)
          | inr (e, b) ↦ b
        ]

    kept-IsFree : IsFree (immortalize a p first m).1 free
    kept-IsFree =
        IsFree-Same a m free v.free_lists (immortalize a p first m).1 (rw immortalize_unlinks refl)
          (λ i c q.
            not_mortal c (not_zero m.links (free i) 0 (m.free_list i) c (v.free_lists.chain i) q)
              (ground (arith, v.free_lists.state i c q)))

    kept-IsMortal : IsMortal (immortalize a p first m).1 0 (immortalize a p first m).0 (remove p ms)
    kept-IsMortal = rw immortalize_unlinks (record {
      chain =
          subst (λ f. Chain (unlink_mortal p first m.links).1 0 f (remove p ms)) (sym new_first)
            (Chain-unlink m.links (unlink_mortal p first m.links).1 p chain_links ms 0 first
              (no_zero m.links ms 0 first v.mortal_list.chain) h v.mortal_list.chain);
      state = λ c q. ground (arith, in_rest c q, v.mortal_list.state c);
    })

    -- On free lists and a mortal list of variables, memory_Immortalize of a variable of the mortal
    -- list takes it and no other out of the list, makes it immortal with its links NULL and its
    -- value as it was, and keeps the free lists.
    pub immortalize-Immortalized : Immortalized m p free ms (immortalize a p first m)
    unfolding unlink_mortal
    immortalize-Immortalized = record {
      state = rw immortalize_unlinks (ground arith);
      value = rw immortalize_unlinks (ground arith);
      no_next = rw immortalize_unlinks (ground arith);
      no_prev = rw immortalize_unlinks (ground arith);
      store = record { free_lists = kept-IsFree; mortal_list = kept-IsMortal };
    }
