-- ===== src/Sym/Name.antt =====
-- sym.c: names, as `_to_lower`, `hashpjw` and the C library's `strcmp` read them.
use Prim.Native.Nat.{compare, Ordering, bit_and, bit_xor}
use Prim.Native.Nat.Ordering.{lt, eq, gt}
use script_basic.Common.{
  ℕ, ◌+◌, ◌-◌, ◌*◌, ◌/◌, ◌%◌, ◌^◌, ◌<◌, ◌≡◌, refl, List, [], ◌∷◌, arith, ltb, leb, ◌==◌, ◌&&◌,
  if◌then◌else◌,
}

abbrev pub Name : Type 0
Name = List ℕ

-- `isupper` and `tolower` in the C locale
pub to_lower_char : ℕ → ℕ
to_lower_char c = if leb b'A' c && leb c b'Z' then c + 32 else c

unfoldable pub to_lower : Name → Name
unfolding to_lower_char
to_lower [] = []
to_lower (c ∷ s) = to_lower_char c ∷ to_lower s

abbrev pub prime : ℕ
prime = 211

abbrev mask : ℕ
mask = 0xf000_0000

-- A `char` is signed: from 128 on it stands for the code less 256, in 64-bit `unsigned long`.
abbrev char_value : ℕ → ℕ
char_value c = if ltb c 128 then c else c + 2 ^ 64 - 256

-- One round of the loop, with `h << 4` and `g >> 24`.
hash_step : ℕ → ℕ → ℕ
hash_step h c =
    let h' : ℕ = (h * 16 % 2 ^ 64 + char_value c) % 2 ^ 64 in
    let g : ℕ = bit_and h' mask in if g == 0 then h' else bit_xor (bit_xor h' (g / 2 ^ 24)) g

hash_from : ℕ → Name → ℕ
unfolding hash_step
hash_from h [] = h
hash_from h (c ∷ s) = hash_from (hash_step h c) s

unfoldable pub hashpjw : Name → ℕ
unfolding hash_from
hashpjw s = hash_from 0 s % prime

pub hashpjw-lt-prime : (s : Name) → hashpjw s < prime
unfolding hashpjw
hashpjw-lt-prime s = omega arith

-- The sign of the C library's result.
unfoldable pub strcmp : Name → Name → Ordering
strcmp [] [] = eq
strcmp [] (y ∷ t) = lt
strcmp (x ∷ s) [] = gt
strcmp (x ∷ s) (y ∷ t) = elim (compare x y) [ lt ↦ lt | eq ↦ strcmp s t | gt ↦ gt ]

pub strcmp_refl : (s : Name) → strcmp s s ≡ eq
unfolding strcmp
strcmp_refl [] = refl
strcmp_refl (x ∷ s) = ground (arith, strcmp_refl s)

pub eq_of_strcmp : (s t : Name) → strcmp s t ≡ eq → s ≡ t
unfolding strcmp
eq_of_strcmp [] [] e = refl
eq_of_strcmp [] (y ∷ t) e = ground arith
eq_of_strcmp (x ∷ s) [] e = ground arith
eq_of_strcmp (x ∷ s) (y ∷ t) e = ground (arith, eq_of_strcmp s t)

pub gt_of_lt : (s t : Name) → strcmp s t ≡ lt → strcmp t s ≡ gt
unfolding strcmp
gt_of_lt [] [] e = ground arith
gt_of_lt [] (y ∷ t) e = refl
gt_of_lt (x ∷ s) [] e = ground arith
gt_of_lt (x ∷ s) (y ∷ t) e = ground (arith, gt_of_lt s t)

pub lt_of_gt : (s t : Name) → strcmp s t ≡ gt → strcmp t s ≡ lt
unfolding strcmp
lt_of_gt [] [] e = ground arith
lt_of_gt [] (y ∷ t) e = ground arith
lt_of_gt (x ∷ s) [] e = refl
lt_of_gt (x ∷ s) (y ∷ t) e = ground (arith, lt_of_gt s t)

infix 50 ◌≺◌
abbrev pub ◌≺◌ : Name → Name → Type 0
s ≺ t = strcmp s t ≡ lt

pub ≺_trans : (s t u : Name) → s ≺ t → t ≺ u → s ≺ u
unfolding strcmp
≺_trans [] [] u p q = ground arith
≺_trans [] (y ∷ t) [] p q = ground arith
≺_trans [] (y ∷ t) (z ∷ u) p q = refl
≺_trans (x ∷ s) [] u p q = ground arith
≺_trans (x ∷ s) (y ∷ t) [] p q = ground arith
≺_trans (x ∷ s) (y ∷ t) (z ∷ u) p q = ground (arith, ≺_trans s t u)

-- Lowering is idempotent, so a stored name is found under every spelling of it.
pub to_lower-to_lower : (s : Name) → to_lower (to_lower s) ≡ to_lower s
unfolding to_lower
to_lower-to_lower [] = refl
to_lower-to_lower (c ∷ s) = ground (arith, to_lower-to_lower s)
