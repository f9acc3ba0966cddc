-- ===== src/Links/Join.antt =====
-- A chain of links put behind another one.
use mathlib.Core.Path.{subst}
use script_basic.Common.{
  ℕ, true, false, ◌||◌, ◌≡◌, ◌≢◌, refl, sym, ap, ◌∙◌, List, [], ◌∷◌, ◌++◌, arith,
}
use script_basic.Links.{Links, has, Chain}
use script_basic.Links.Chain.{frame, first-has, not_zero}
use script_basic.Links.Unlink.{apart}

-- The address where a chain ends, `before` if it is empty.
abbrev pub last : ℕ → List ℕ → ℕ
last before [] = before
last before (a ∷ us) = last a us

-- `first` has been linked behind `z`.
pub record Joined (l l' : Links) (z first : ℕ) : Type 0 where
  pub next_last : l'.next z ≡ first
  pub prev_first : first ≢ 0 → l'.prev first ≡ z
  pub next_same : (c : ℕ) → c ≢ z → l'.next c ≡ l.next c
  pub prev_same : (c : ℕ) → c ≢ first → l'.prev c ≡ l.prev c

pub has-last : (a : ℕ) (us : List ℕ) → has (last a us) (a ∷ us) ≡ true
has-last a [] = ground arith
has-last a (x ∷ us) = ground (arith, has-last x us)

pub has-append : (a : ℕ) (us ws : List ℕ) → has a (us ++ ws) ≡ (has a us || has a ws)
has-append a [] ws = refl
has-append a (x ∷ us) ws = ground (arith, has-append a us ws)

module _ (l l' : Links) (z first : ℕ) (j : Joined l l' z first) (ws : List ℕ) where
  -- The second chain, behind its new predecessor.
  behind : (old : ℕ) → has z ws ≡ false → Chain l old first ws → Chain l' z first ws
  behind old h c = go ws h c
    where
      go : (ws : List ℕ) → has z ws ≡ false → Chain l old first ws → Chain l' z first ws
      go [] h c = c
      go (y ∷ ys) h (e, ny, d, py, c) = (
        e,
        ny,
        d,
        ap l'.prev (sym e) ∙ j.prev_first (λ q. ny (sym e ∙ q)),
        subst (λ x. Chain l' y x ys) (sym (j.next_same y (ground (arith, h))))
            (frame l l' ys y (l.next y)
              (λ x m. (
                j.next_same x (apart z x ys (ground (arith, h)) m),
                j.prev_same x (λ q. apart y x ys d m (q ∙ e)),
              ))
              c),
      )

  -- From an address of the first chain on.
  join_from :
      (us : List ℕ) (a : ℕ)
      → a ≢ 0
      → last a us ≡ z
      → ((c : ℕ) → has c (a ∷ us) ≡ true → has c ws ≡ false)
      → has a us ≡ false
      → ((c : ℕ) → has c us ≡ true → c ≢ first)
      → Chain l a (l.next a) us
      → Chain l' z first ws
      → Chain l' a (l'.next a) (us ++ ws)
  join_from [] a na e dis d other c w =
      subst (λ x. Chain l' a x ws) (sym (ap l'.next e ∙ j.next_last))
        (subst (λ x. Chain l' x first ws) (sym e) w)
  join_from (x ∷ us) a na e dis d other (ex, nx, dx, px, c) w =
      subst (λ y. Chain l' a y (x ∷ us ++ ws)) (sym (j.next_same a not_last))
        (
          ex,
          nx,
          rw (has-append x us ws) (ground (arith, dx, dis x)),
          j.prev_same x (other x (ground arith)) ∙ px,
          join_from us x nx e (λ y m. dis y (ground (arith, m))) dx
              (λ y m. other y (ground (arith, m))) c w,
        )
    where
      not_last : a ≢ z
      not_last q = ground (arith, d, has-last x us, ap (λ y. has y (x ∷ us)) (q ∙ sym e))

pub Chain-join :
    (l l' : Links) (us ws : List ℕ) (a first : ℕ)
    → Joined l l' (last a us) first
    → ((c : ℕ) → has c (a ∷ us) ≡ true → has c ws ≡ false)
    → Chain l 0 a (a ∷ us)
    → Chain l 0 first ws
    → Chain l' 0 a (a ∷ us ++ ws)
Chain-join l l' us ws a first j dis (e, na, d, pa, c) w = (
  e,
  na,
  rw (has-append a us ws) (ground (arith, d, dis a)),
  j.prev_same a (clash a (ground arith)) ∙ pa,
  join_from l l' (last a us) first j ws us a na refl dis d (λ y m. clash y (ground (arith, m))) c
      (behind l l' (last a us) first j ws 0 (dis (last a us) (has-last a us)) w),
)
  where
    clash : (y : ℕ) → has y (a ∷ us) ≡ true → y ≢ first
    clash y m q =
        let n : first ≢ 0 = λ z. not_zero l (a ∷ us) 0 a y (refl, na, d, pa, c) m (q ∙ z) in
        ground (arith, dis y m, first-has l ws 0 first w n, ap (λ x. has x ws) q)
