-- ===== src/Links/Chain.antt =====
-- What a chain of links survives, and an element put in front of it.
use script_basic.Common.{
  ℕ, true, false, ◌≡◌, ◌≢◌, ◌⊎◌, inl, inr, refl, sym, ap, ◌∙◌, List, [], ◌∷◌, arith,
}
use native.Mathlib.Decide.{ℕ_discrete}
use mathlib.Core.Path.{subst}
use script_basic.Links.{Links, has, Chain}

-- Links that are the same at all of a chain's addresses.
pub frame :
    (l l' : Links) (us : List ℕ) (before first : ℕ)
    → ((c : ℕ) → has c us ≡ true → (l'.next c ≡ l.next c) × (l'.prev c ≡ l.prev c))
    → Chain l before first us
    → Chain l' before first us
frame l l' [] before first h c = c
frame l l' (a ∷ us) before first h (e, n, d, p, c) =
    let (hn, hp) = h a (ground arith) in
    (
      e,
      n,
      d,
      hp ∙ p,
      subst (λ x. Chain l' a x us) (sym hn)
          (frame l l' us a (l.next a) (λ x m. h x (ground arith)) c),
    )

-- `a` has been put in front of `first`.
pub record Pushed (l l' : Links) (a first : ℕ) : Type 0 where
  pub next_self : l'.next a ≡ first
  pub prev_self : l'.prev a ≡ 0
  pub prev_first : first ≢ 0 → first ≢ a → l'.prev first ≡ a
  pub next_same : (c : ℕ) → c ≢ a → l'.next c ≡ l.next c
  pub prev_same : (c : ℕ) → c ≢ a → c ≢ first → l'.prev c ≡ l.prev c

pub Chain-push :
    (l l' : Links) (us : List ℕ) (a first : ℕ)
    → Pushed l l' a first
    → a ≢ 0
    → has a us ≡ false
    → Chain l 0 first us
    → Chain l' 0 a (a ∷ us)
Chain-push l l' [] a first p n out e = (refl, n, refl, p.prev_self, p.next_self ∙ e)
Chain-push l l' (x ∷ us) a first p n out (e, nx, d, px, c) = (
  refl,
  n,
  out,
  p.prev_self,
  (
    p.next_self ∙ e,
    nx,
    d,
    ap l'.prev (sym e) ∙ p.prev_first (λ q. nx (sym e ∙ q)) (λ q. apart (sym e ∙ q)),
    subst (λ y. Chain l' x y us) (sym (p.next_same x apart))
        (frame l l' us x (l.next x)
          (λ y m. (p.next_same y (ne y m), p.prev_same y (ne y m) (ne_first y m))) c),
  ),
)
  where
    apart : x ≢ a
    apart q = ground (arith, out)

    ne : (y : ℕ) → has y us ≡ true → y ≢ a
    ne y m q = ground (arith, out, ap (λ z. has z us) q)

    ne_first : (y : ℕ) → has y us ≡ true → y ≢ first
    ne_first y m q = ground (arith, d, ap (λ z. has z us) (q ∙ e))

-- The first of a chain is NULL or among its addresses, and so is the next of any of them.
pub first-has :
    (l : Links) (us : List ℕ) (before first : ℕ)
    → Chain l before first us
    → first ≢ 0
    → has first us ≡ true
first-has l [] before first c n = absurd (n c)
first-has l (x ∷ us) before first c n = ground (arith, c)

pub next-has :
    (l : Links) (us : List ℕ) (before first a : ℕ)
    → Chain l before first us
    → has a us ≡ true
    → l.next a ≢ 0
    → has (l.next a) us ≡ true
next-has l [] before first a c m n = cc
next-has l (x ∷ us) before first a (e, nx, d, px, c) m n =
    ground (arith, first-has l us x (l.next x) c, next-has l us x (l.next x) a c)

-- What stands before an address of a chain: `before` at the first, else another of them.
pub prev-has :
    (l : Links) (us : List ℕ) (before first a : ℕ)
    → Chain l before first us
    → has a us ≡ true
    → (first ≡ a) × (l.prev a ≡ before) ⊎ (first ≢ a) × (has (l.prev a) us ≡ true)
prev-has l [] before first a c m = cc
prev-has l (x ∷ us) before first a (e, nx, d, px, c) m = elim (ℕ_discrete x a) [
  | yes q ↦ inl (e ∙ q, ap l.prev (sym q) ∙ px)
  | no q ↦ inr (
    λ r. q (sym e ∙ r),
    elim (prev-has l us x (l.next x) a c (ground arith)) [
      | inl (h, b) ↦ ground (arith, b)
      | inr (h, b) ↦ ground (arith, b)
    ],
  )
]

pub not_zero :
    (l : Links) (us : List ℕ) (before first a : ℕ)
    → Chain l before first us
    → has a us ≡ true
    → a ≢ 0
not_zero l [] before first a c m = cc
not_zero l (x ∷ us) before first a (e, nx, d, px, c) m =
    ground (arith, nx, not_zero l us x (l.next x) a c)

pub next-ne :
    (l : Links) (us : List ℕ) (before first a : ℕ)
    → Chain l before first us
    → has a us ≡ true
    → l.next a ≢ a
next-ne l [] before first a c m q = cc
next-ne l (x ∷ us) before first a (e, nx, d, px, c) m q = elim (ℕ_discrete x a) [
  | yes s ↦ ground (
    arith,
    d,
    s,
    q,
    first-has l us x (l.next x) c,
    nx,
    ap l.next s,
    ap (λ y. has y us) (ap l.next s ∙ q ∙ sym s),
  )
  | no s ↦ next-ne l us x (l.next x) a c (ground (arith, m)) q
]

pub no_zero :
    (l : Links) (us : List ℕ) (before first : ℕ) → Chain l before first us → has 0 us ≡ false
no_zero l [] before first c = refl
no_zero l (x ∷ us) before first (e, nx, d, px, c) = ground (arith, nx, no_zero l us x (l.next x) c)

pub prev-ne :
    (l : Links) (us : List ℕ) (before first a : ℕ)
    → Chain l before first us
    → has a us ≡ true
    → before ≢ a
    → l.prev a ≢ a
prev-ne l [] before first a c m n q = cc
prev-ne l (x ∷ us) before first a (e, nx, d, px, c) m n q = elim (ℕ_discrete x a) [
  | yes s ↦ n (sym px ∙ ap l.prev s ∙ q)
  | no s ↦ prev-ne l us x (l.next x) a c (ground (arith, m)) s q
]
