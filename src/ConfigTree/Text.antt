-- ===== src/ConfigTree/Text.antt =====
-- conftree.c: keys as texts. What strmyeq compares, and where the first part of a key ends.
use script_basic.Common.{ℕ, ◌≡◌, ◌≢◌, ◌⊎◌, refl, List, [], ◌∷◌, ◌++◌, some, true, false, arith}
use script_basic.Common.Text.{same}
use script_basic.ConfigTree.{goes_on, strmyeq, end_of_part}

-- No character of the text ends a part of a key.
abbrev pub IsPart : ℕ → List ℕ → Type 0
IsPart tc [] = Unit
IsPart tc (c ∷ p) = (c ≢ 0) × (c ≢ tc) × IsPart tc p

abbrev pub IsEnd : ℕ → ℕ → Type 0
IsEnd tc c = (c ≡ 0) ⊎ (c ≡ tc)

-- The memory has the part, and then a character that ends it.
abbrev pub Reads : ℕ → List ℕ → List ℕ → Type 0
Reads tc p m = IsPart tc p × ((c : ℕ) × (rest : List ℕ) × IsEnd tc c × (m ≡ p ++ c ∷ rest))

goes_on-true : (tc c : ℕ) → c ≢ 0 → c ≢ tc → goes_on tc c ≡ true
goes_on-true tc c h k = ground arith

goes_on-false : (tc c : ℕ) → IsEnd tc c → goes_on tc c ≡ false
goes_on-false tc c e = ground arith

pub strmyeq-same :
    (tc : ℕ) (p w : List ℕ) (c d : ℕ) (r s : List ℕ)
    → IsPart tc p
    → IsPart tc w
    → IsEnd tc c
    → IsEnd tc d
    → strmyeq tc (p ++ c ∷ r) (w ++ d ∷ s) ≡ some (same p w)
unfolding strmyeq
strmyeq-same tc [] [] c d r s h k e f = ground arith
strmyeq-same tc [] (y ∷ w) c d r s h k e f = ground arith
strmyeq-same tc (x ∷ p) [] c d r s h k e f = ground arith
strmyeq-same tc (x ∷ p) (y ∷ w) c d r s h k e f =
    ground (arith, strmyeq-same tc p w c d r s h.2 k.2 e f)

pub end_of_part-skips :
    (tc : ℕ) (p : List ℕ) (c : ℕ) (r : List ℕ)
    → IsPart tc p
    → IsEnd tc c
    → end_of_part tc (p ++ c ∷ r) ≡ c ∷ r
unfolding end_of_part
end_of_part-skips tc [] c r h e = rw (goes_on-false tc c e) refl
end_of_part-skips tc (x ∷ p) c r h e =
    rw (goes_on-true tc x h.0 h.1) (end_of_part-skips tc p c r h.2 e)
