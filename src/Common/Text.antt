-- ===== src/Common/Text.antt =====
-- Texts: the lists of their characters, and the test that they are the same.
use script_basic.Common.{
  ℕ, ◌≡◌, refl, List, [], ◌∷◌, Bool, true, false, ◌&&◌, ◌==◌, and_left, and_right, arith,
}

abbrev pub same : List ℕ → List ℕ → Bool
same [] [] = true
same [] (y ∷ w) = false
same (x ∷ p) [] = false
same (x ∷ p) (y ∷ w) = x == y && same p w

-- `same` is equality.
pub same-eq : (p w : List ℕ) → same p w ≡ true → p ≡ w
same-eq [] [] e = refl
same-eq [] (y ∷ w) e = cc
same-eq (x ∷ p) [] e = cc
same-eq (x ∷ p) (y ∷ w) e =
    let x_eq : x ≡ y = ground (arith, and_left (x == y) (same p w) e) in
    let p_eq : p ≡ w = same-eq p w (and_right (x == y) (same p w) e) in cc

pub same_refl : (p : List ℕ) → same p p ≡ true
same_refl [] = refl
same_refl (x ∷ p) = let here : (x == x) ≡ true = ground arith in rw here (same_refl p)
