-- ===== src/Match/Asked.antt =====
-- match.c: the type and the set at the start that an action of match_ModifySet asks for.
use native.Mathlib.Decide.{dec_lt}
use script_basic.Common.{
  ℕ, zero, suc, ◌^◌, inl, inr, not, Bool-cases, check_below, check_below_sound, get_or-replicate,
  ◌/◌, ◌%◌, ◌≤◌, ◌<◌, ◌≡◌, refl, ap, ◌∙◌, Bool, true, false, ltb, ◌==◌, if◌then◌else◌, get_or,
  replicate, arith,
}
use script_basic.Match.Sets.{Bytes}
use script_basic.Match.Modify.{new_base, new_type}
use script_basic.Match.Members.{holds}

-- The type that the bits 0x08, 0x10 and 0x20 of an action ask for: no joker, a single joker, a multiple
-- joker, of which the last that is set counts.
pub record TypeAsked (action old new : ℕ) : Type 0 where
  pub multi : action / 0x20 % 2 ≡ 1 → new ≡ 3
  pub single : action / 0x20 % 2 ≡ 0 → action / 0x10 % 2 ≡ 1 → new ≡ 1
  pub none : action / 0x20 % 2 ≡ 0 → action / 0x10 % 2 ≡ 0 → action / 0x08 % 2 ≡ 1 → new ≡ 0
  pub kept : action / 0x20 % 2 ≡ 0 → action / 0x10 % 2 ≡ 0 → action / 0x08 % 2 ≡ 0 → new ≡ old

pub new_type-TypeAsked : (action old : ℕ) → TypeAsked action old (new_type action old)
unfolding new_type
new_type-TypeAsked action old = record {
  multi = λ a. ground arith;
  single = λ a b. ground arith;
  none = λ a b c. ground arith;
  kept = λ a b c. ground arith;
}

-- The set at the start: all characters if the bit 0x80 is set, none if only 0x40 is.
abbrev pub starts_with : ℕ → Bytes → ℕ → Bool
starts_with action cs c =
    if action / 0x80 % 2 == 1
    then ltb c 256
    else if action / 0x40 % 2 == 1
    then false
    else holds cs c

abbrev bit_at : ℕ → ℕ → Bool
bit_at b k = b / 2 ^ k % 2 == 1

bits_of_full : check_below 8 (bit_at 255) ≡ true
unfolding check_below
bits_of_full = refl

bits_of_empty : check_below 8 (λ k. not (bit_at 0 k)) ≡ true
unfolding check_below
bits_of_empty = refl

pub get_or-replicate_within : (n i a d : ℕ) → i < n → get_or (replicate n a) i d ≡ a
unfolding replicate
get_or-replicate_within zero i a d h = absurd (omega arith)
get_or-replicate_within (suc n) zero a d h = refl
get_or-replicate_within (suc n) (suc i) a d h = get_or-replicate_within n i a d (omega arith)

pub get_or-replicate_beyond : (n i a d : ℕ) → n ≤ i → get_or (replicate n a) i d ≡ d
unfolding replicate
get_or-replicate_beyond zero i a d h = refl
get_or-replicate_beyond (suc n) zero a d h = absurd (omega arith)
get_or-replicate_beyond (suc n) (suc i) a d h = get_or-replicate_beyond n i a d (omega arith)

no_bits : (k : ℕ) → k < 8 → bit_at 0 k ≡ false
no_bits k h = ground (arith, check_below_sound 8 (λ j. not (bit_at 0 j)) k bits_of_empty h)

holds-full : (c : ℕ) → holds (replicate 32 0xff) c ≡ ltb c 256
holds-full c = elim (dec_lt c 256) [
  | yes h ↦
      ap (λ b. bit_at b (c % 8)) (get_or-replicate_within 32 (c / 8) 0xff 0 (omega arith))
      ∙ check_below_sound 8 (bit_at 255) (c % 8) bits_of_full (omega arith)
      ∙ ground arith
  | no h ↦
      ap (λ b. bit_at b (c % 8)) (get_or-replicate_beyond 32 (c / 8) 0xff 0 (omega arith))
      ∙ no_bits (c % 8) (omega arith)
      ∙ ground arith
]

holds-empty : (c : ℕ) → holds (replicate 32 0) c ≡ false
holds-empty c =
    ap (λ b. bit_at b (c % 8)) (get_or-replicate 32 (c / 8) 0) ∙ no_bits (c % 8) (omega arith)

pub new_base-starts_with :
    (action : ℕ) (cs : Bytes) (c : ℕ) → holds (new_base action cs) c ≡ starts_with action cs c
unfolding new_base
new_base-starts_with action cs c = elim (Bool-cases (action / 0x80 % 2 == 1)) [
  | inl f ↦ rw f (holds-full c)
  | inr f ↦ rw f (elim (Bool-cases (action / 0x40 % 2 == 1)) [
    | inl n ↦ rw n (holds-empty c)
    | inr n ↦ rw n refl
  ])
]
