-- ===== src/Match/Agreement.antt =====
-- match.c: match_match's tests and its reading of a pattern agree with what the pattern means.
use mathlib.Core.Path.{subst}
use script_basic.Common.{
  ℕ, suc, ◌/◌, ◌%◌, ◌^◌, ◌<◌, ◌≡◌, refl, ap, ◌∙◌, ◌⊎◌, inl, inr, Bool, true, false, not, ◌||◌,
  Option, none, some, List, [], ◌∷◌, ◌++◌, get_or, ◌==◌, if◌then◌else◌, check_below,
  check_below_sound, Bool-cases, arith,
}
use script_basic.Match.Sets.{
  Bytes, joker_match, upper, is_space, match_index, multi_joker_set, single_joker_set,
}
use script_basic.Match.Matcher.{
  Setting, multi, escape, single, space, plain, kind, same, accepts, skip_spaces, Outcome,
}
use script_basic.Match.Pattern.{
  Item, many, one, spaces, literal, cons?, Head, First, manys, Decides,
}
use script_basic.Match.Pattern as Code
use script_basic.Match.Meaning.{
  place_of, meaning, read_step, read, same_letter, has, takes, is_blank, after_blanks, Longer,
  Means, is_low, IsLow, AreLow,
}

match_index-place_of : (c : ℕ) → match_index c ≡ (elim (place_of c) [ none ↦ 0 | some i ↦ suc i ])
unfolding match_index
match_index-place_of c = ground arith

joker_no_escape : (c i : ℕ) → place_of c ≡ some i → ((c == b'~') ≡ false) × ((c == b' ') ≡ false)
joker_no_escape c i e = (ground arith, ground arith)

module _ (g : Setting) (c : ℕ) where
  kind_at : (o : Option ℕ) → place_of c ≡ o → kind g c ≡ meaning g.sets c
  unfolding kind multi_joker_set single_joker_set
  kind_at none e = ground (arith, match_index-place_of c)
  kind_at (some i) e = ground (arith, match_index-place_of c, joker_no_escape c i e)

  kind-meaning : kind g c ≡ meaning g.sets c
  kind-meaning = kind_at (place_of c) refl

abbrev tests_alike : ℕ → ℕ → Bool
tests_alike b k = if b / 2 ^ k == 0 then not (b / 2 ^ k % 2 == 1) else b / 2 ^ k % 2 == 1

abbrev low_alike : ℕ → Bool
low_alike b = not (is_low b) || check_below 8 (tests_alike b)

low_bytes : check_below 256 low_alike ≡ true
unfolding check_below
low_bytes = refl

alike : (b k : ℕ) → is_low b ≡ true → k < 8 → not (b / 2 ^ k == 0) ≡ (b / 2 ^ k % 2 == 1)
alike b k l h =
    let range : b < 256 = ground arith in
    let one_byte : low_alike b ≡ true = check_below_sound 256 low_alike b low_bytes range in
    let all_bits : check_below 8 (tests_alike b) ≡ true = ground (arith, l, one_byte) in
    let t = check_below_sound 8 (tests_alike b) k all_bits h in
    elim (Bool-cases (b / 2 ^ k == 0)) [
      | inl z ↦ ground (arith, z, t)
      | inr z ↦ ground (arith, z, t)
    ]

joker_match-has : (set : Bytes) (c : ℕ) → IsLow set → joker_match set c ≡ has set c
unfolding joker_match
joker_match-has set c l = alike (get_or set (c / 8) 0) (c % 8) (l (c / 8)) (omega arith)

module _ (g : Setting) where
  accepts-takes : (set : Bytes) (c : ℕ) → IsLow set → accepts g set c ≡ takes g.f_case set c
  unfolding accepts upper
  accepts-takes set c l = elim (Bool-cases g.f_case) [
    | inl e ↦ rw (e, accepts) (joker_match-has set c l)
    | inr e ↦ rw (e, accepts) (joker_match-has set _ l)
  ]

  same-same_letter : (x c : ℕ) → same g x c ≡ same_letter g.f_case x c
  unfolding same upper
  same-same_letter x c = ground arith

  is_space-is_blank : (c : ℕ) → is_space c ≡ is_blank c
  unfolding is_space
  is_space-is_blank c = ground arith

  skip_spaces-after_blanks : (s : Bytes) → skip_spaces g s ≡ after_blanks s
  unfolding skip_spaces
  skip_spaces-after_blanks [] = refl
  skip_spaces-after_blanks (c ∷ s) =
      λ i. if is_space-is_blank c i then skip_spaces-after_blanks s i else c ∷ s

  read_step_same :
      (c : ℕ) (r r' e e' : Option (List Item))
      → r ≡ r'
      → e ≡ e'
      → Code.item_step g c r e ≡ read_step g.sets c r' e'
  unfolding Code.item_step
  read_step_same c r r' e e' p q = λ i. elim (kind-meaning g c i) [
    | multi set ↦ cons? (many set) (p i)
    | escape ↦ q i
    | single set ↦ cons? (one set) (p i)
    | space ↦ cons? spaces (p i)
    | plain ↦ cons? (literal c) (p i)
  ]

  pub items-read : (p : Bytes) → Code.items g p ≡ read g.sets p
  unfolding Code.items
  items-read [] = refl
  items-read (c ∷ []) = read_step_same c _ _ _ _ refl refl
  items-read (c ∷ x ∷ p) =
      read_step_same c _ _ _ _ (items-read (x ∷ p)) (ap (cons? (literal x)) (items-read p))

  Longer-Longer :
      (set : Bytes) (k k' : Bytes → List Bytes → Type 0)
      → IsLow set
      → ((r : Bytes) (ps : List Bytes) → k r ps ≡ k' r ps)
      → (taken s : Bytes) (ps : List Bytes)
      → Code.Longer g set k taken s ps ≡ Longer g.f_case set k' taken s ps
  Longer-Longer set k k' l h taken [] ps = λ i. First taken (λ qs. h [] qs i) ps
  Longer-Longer set k k' l h taken (c ∷ s) ps = λ i.
      First taken (λ qs. h (c ∷ s) qs i) ps
      ⊎ (accepts-takes set c l i ≡ true) × Longer-Longer set k k' l h (taken ++ c ∷ []) s ps i

  Means-Matches :
      (is : List Item)
      → AreLow is
      → (s : Bytes) (ps : List Bytes) → Code.Matches g is s ps ≡ Means g.f_case is s ps
  Means-Matches [] h s ps = refl
  Means-Matches (many set ∷ is) h [] ps = refl
  Means-Matches (many set ∷ is) (l, h) (c ∷ s) ps = λ i.
      (accepts-takes set c l i ≡ true)
      × Longer-Longer set (Code.Matches g is) (Means g.f_case is) l (Means-Matches is h) (c ∷ []) s
          ps i
  Means-Matches (one set ∷ is) h [] ps = refl
  Means-Matches (one set ∷ is) (l, h) (c ∷ s) ps =
      λ i. (accepts-takes set c l i ≡ true) × First (c ∷ []) (λ qs. Means-Matches is h s qs i) ps
  Means-Matches (spaces ∷ is) h [] ps = refl
  Means-Matches (spaces ∷ is) h (c ∷ s) ps = λ i.
      (is_space-is_blank c i ≡ true)
      × (ap (λ r. Code.Matches g is r ps) (skip_spaces-after_blanks s)
            ∙ Means-Matches is h (after_blanks s) ps)
          i
  Means-Matches (literal x ∷ is) h [] ps = refl
  Means-Matches (literal x ∷ is) h (c ∷ s) ps =
      λ i. (same-same_letter x c i ≡ true) × Means-Matches is h s ps i

  pub Decides-Means :
      (is : List Item) (s : Bytes) (o : Outcome)
      → AreLow is
      → Decides (Code.Matches g is s) o
      → Decides (Means g.f_case is s) o
  Decides-Means is s o h d = subst (λ m. Decides m o) (λ i ps. Means-Matches is h s ps i) d
