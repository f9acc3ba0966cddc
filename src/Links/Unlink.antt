-- ===== src/Links/Unlink.antt =====
-- An element taken out of a chain of links.
use native.Mathlib.Decide.{ℕ_discrete}
use mathlib.Core.Path.{subst}
use script_basic.Common.{
  ℕ, true, false, ◌≡◌, ◌≢◌, inl, inr, refl, sym, ap, ◌∙◌, List, [], ◌∷◌, ◌==◌, if◌then◌else◌, arith,
}
use script_basic.Links.{Links, has, remove, Chain}
use script_basic.Links.Chain.{frame, next-has, prev-has}

-- The neighbours of `a` are linked to each other. What its own links are does not matter.
pub record Unlinked (l l' : Links) (a : ℕ) : Type 0 where
  pub next_prev : l.prev a ≢ 0 → l'.next (l.prev a) ≡ l.next a
  pub prev_next : l.next a ≢ 0 → l'.prev (l.next a) ≡ l.prev a
  pub next_same : (c : ℕ) → c ≢ a → c ≢ l.prev a → l'.next c ≡ l.next c
  pub prev_same : (c : ℕ) → c ≢ a → c ≢ l.next a → l'.prev c ≡ l.prev c

pub apart : (a c : ℕ) (us : List ℕ) → has a us ≡ false → has c us ≡ true → c ≢ a
apart a c us h m q = ground (arith, h, m, ap (λ z. has z us) q)

pub has-remove : (a c : ℕ) (us : List ℕ) → has c us ≡ false → has c (remove a us) ≡ false
has-remove a c [] h = refl
has-remove a c (x ∷ us) h = ground (arith, has-remove a c us)

-- The addresses of a chain are different, so that the one taken out is gone.
pub has-remove_self :
    (l : Links) (a : ℕ) (us : List ℕ) (before first : ℕ)
    → Chain l before first us
    → has a (remove a us) ≡ false
has-remove_self l a [] before first c = refl
has-remove_self l a (x ∷ us) before first (e, nx, d, px, c) = elim (ℕ_discrete x a) [
  | yes q ↦ ground (arith, d, ap (λ y. has y us) q)
  | no q ↦ ground (arith, has-remove_self l a us x (l.next x) c)
]

module _ (l l' : Links) (a : ℕ) (u : Unlinked l l' a) where
  -- What followed `a` comes after what stood before it.
  relink :
      (us : List ℕ) (before : ℕ)
      → l.prev a ≡ before
      → has a us ≡ false
      → has before us ≡ false
      → Chain l a (l.next a) us
      → Chain l' before (l.next a) us
  relink [] before b h hb c = c
  relink (y ∷ ys) before b h hb (e, ny, d, py, c) = (
    e,
    ny,
    d,
    ap l'.prev (sym e) ∙ u.prev_next (λ q. ny (sym e ∙ q)) ∙ b,
    subst (λ z. Chain l' y z ys)
        (sym (u.next_same y (ground (arith, h)) (λ q. ground (arith, hb, q ∙ b))))
        (frame l l' ys y (l.next y)
          (λ z m. (
            u.next_same z (apart a z ys (ground (arith, h)) m)
                (λ q. apart before z ys (ground (arith, hb)) m (q ∙ b)),
            u.prev_same z (apart a z ys (ground (arith, h)) m) (λ q. apart y z ys d m (q ∙ e)),
          ))
          c),
  )

  -- Links of an element that stands before `a`.
  before_next :
      (us : List ℕ) (x : ℕ)
      → x ≢ 0
      → x ≢ a
      → has x us ≡ false
      → has a us ≡ true
      → Chain l x (l.next x) us
      → l'.next x ≡ (if l.next x == a then l.next a else l.next x)
  before_next us x nx na d m c = elim (prev-has l us x (l.next x) a c m) [
    | inl (h, b) ↦ ground (arith, ap l'.next b, b, u.next_prev)
    | inr (h, b) ↦ ground (arith, u.next_same x na (λ q. apart x (l.prev a) us d b (sym q)))
  ]

  before_prev :
      (us : List ℕ) (x : ℕ)
      → x ≢ 0
      → x ≢ a
      → has x us ≡ false
      → has a us ≡ true
      → Chain l x (l.next x) us
      → l'.prev x ≡ l.prev x
  before_prev us x nx na d m c =
      u.prev_same x na
        (λ q. apart x (l.next a) us d (next-has l us x (l.next x) a c m (λ z. nx (q ∙ z))) (sym q))

  pub Chain-unlink :
      (us : List ℕ) (before first : ℕ)
      → has before us ≡ false
      → has a us ≡ true
      → Chain l before first us
      → Chain l' before (if first == a then l.next a else first) (remove a us)
  Chain-unlink [] before first hb m c = cc
  Chain-unlink (x ∷ us) before first hb m (e, nx, d, px, c) = elim (ℕ_discrete x a) [
    | yes q ↦ ground (
      arith,
      relink us before (ap l.prev (sym q) ∙ px) (ap (λ z. has z us) (sym q) ∙ d)
          (ground (arith, hb)) (subst (λ z. Chain l z (l.next z) us) q c),
    )
    | no q ↦
        let other : (first == a) ≡ false = ground arith in
        let other' : (x == a) ≡ false = ground arith in
        rw (other, other')
          (
            e,
            nx,
            has-remove a x us d,
            before_prev us x nx q d (ground (arith, m)) c ∙ px,
            subst (λ z. Chain l' x z (remove a us))
                (sym (before_next us x nx q d (ground (arith, m)) c))
                (Chain-unlink us x (l.next x) d (ground (arith, m)) c),
          )
  ]
