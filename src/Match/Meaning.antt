-- ===== src/Match/Meaning.antt =====
-- What a pattern means, in the words of match.c's documentation, apart from the code: which characters
-- are jokers, what a joker takes, when two characters are the same. match_match decides it.
use script_basic.Common.{
  ℕ, ◌-◌, ◌/◌, ◌%◌, ◌^◌, ◌≡◌, ◌⊎◌, Bool, true, not, ◌&&◌, ◌||◌, Option, none, some, List, [], ◌∷◌,
  ◌++◌, get_or, leb, ◌==◌, if◌then◌else◌,
}
use script_basic.Match.Sets.{Bytes, MatchSets}
use script_basic.Match.Matcher.{Kind, multi, escape, single, space, plain}
use script_basic.Match.Pattern.{Item, many, one, spaces, literal, cons?, Head, First}

-- The place of a joker character.
abbrev pub place_of : ℕ → Option ℕ
place_of c =
    if c == b'*'
    then some 0
    else if c == b'#'
    then some 1
    else if c == b'$'
    then some 2
    else if c == b'@'
    then some 3
    else if c == b'?'
    then some 4
    else if c == b'&'
    then some 5
    else if c == b'%'
    then some 6
    else if c == b'!'
    then some 7
    else if c == b'+'
    then some 8
    else if c == b'/'
    then some 9
    else if c == b'|'
    then some 10
    else if c == b'<'
    then some 11
    else if c == b'>'
    then some 12
    else none

-- A joker is multiple or single by its type; any other character stands for itself, but the blank and
-- the tilde.
abbrev pub joker_of : ℕ → Bytes → Kind
joker_of type set = if type == 3 then multi set else if type == 1 then single set else plain

abbrev pub meaning : MatchSets → ℕ → Kind
meaning ms c = elim (place_of c) [
  | none ↦ if c == b'~' then escape else if c == b' ' then space else plain
  | some i ↦ joker_of (get_or ms.set_type i 0) (get_or ms.sets i [])
]

-- The pattern read; `none` where it ends in an escape character with nothing to escape.
abbrev pub read_step : MatchSets → ℕ → Option (List Item) → Option (List Item) → Option (List Item)
read_step ms c rest escaped = elim (meaning ms c) [
  | multi set ↦ cons? (many set) rest
  | escape ↦ escaped
  | single set ↦ cons? (one set) rest
  | space ↦ cons? spaces rest
  | plain ↦ cons? (literal c) rest
]

abbrev pub read : MatchSets → Bytes → Option (List Item)
read ms [] = some []
read ms (c ∷ []) = read_step ms c (some []) none
read ms (c ∷ x ∷ p) = read_step ms c (read ms (x ∷ p)) (cons? (literal x) (read ms p))

-- Case does not count: the letter `a` is small, and `b` is its capital.
abbrev pub is_capital_of : ℕ → ℕ → Bool
is_capital_of b a = leb 97 a && leb a 122 && (a - 32 == b)

abbrev pub same_letter : Bool → ℕ → ℕ → Bool
same_letter f_case a b = (a == b) || not f_case && (is_capital_of a b || is_capital_of b a)

-- The character, or its capital where case does not count, has its bit in the set.
abbrev pub has : Bytes → ℕ → Bool
has set c = get_or set (c / 8) 0 / 2 ^ (c % 8) % 2 == 1

abbrev pub takes : Bool → Bytes → ℕ → Bool
takes f_case set c = has set (if not f_case && leb 97 c && leb c 122 then c - 32 else c)

abbrev pub is_blank : ℕ → Bool
is_blank c = (c == 32) || (c == 9) || (c == 10) || (c == 11) || (c == 12) || (c == 13)

abbrev pub after_blanks : Bytes → Bytes
after_blanks [] = []
after_blanks (c ∷ s) = if is_blank c then after_blanks s else c ∷ s

module _ (f_case : Bool) where
  abbrev pub Longer : Bytes → (Bytes → List Bytes → Type 0) → Bytes → Bytes → List Bytes → Type 0
  Longer set k taken [] ps = First taken (k []) ps
  Longer set k taken (c ∷ s) ps =
      First taken (k (c ∷ s)) ps ⊎ (takes f_case set c ≡ true) × Longer set k (taken ++ c ∷ []) s ps

  -- The string matches the items: a multiple joker takes one or more characters of its set, a single
  -- joker one, a blank all white space, one character of it at least, and any other character itself;
  -- the parameters are what the jokers take.
  abbrev pub Means : List Item → Bytes → List Bytes → Type 0
  Means [] s ps = (s ≡ []) × (ps ≡ [])
  Means (many set ∷ is) [] ps = ⊥
  Means (many set ∷ is) (c ∷ s) ps =
      (takes f_case set c ≡ true) × Longer set (Means is) (c ∷ []) s ps
  Means (one set ∷ is) [] ps = ⊥
  Means (one set ∷ is) (c ∷ s) ps = (takes f_case set c ≡ true) × First (c ∷ []) (Means is s) ps
  Means (spaces ∷ is) s ps = Head is_blank (λ r. Means is (after_blanks r) ps) s
  Means (literal x ∷ is) s ps = Head (same_letter f_case x) (λ r. Means is r ps) s

-- Of each group of eight characters with the same higher bits, the set has the first ones only.
abbrev pub is_low : ℕ → Bool
is_low b =
    (b == 0)
    || (b == 1)
    || (b == 3)
    || (b == 7)
    || (b == 15)
    || (b == 31)
    || (b == 63)
    || (b == 127)
    || (b == 255)

abbrev pub IsLow : Bytes → Type 0
IsLow set = (k : ℕ) → is_low (get_or set k 0) ≡ true

abbrev pub AreLow : List Item → Type 0
AreLow [] = Unit
AreLow (many set ∷ is) = IsLow set × AreLow is
AreLow (one set ∷ is) = IsLow set × AreLow is
AreLow (spaces ∷ is) = AreLow is
AreLow (literal x ∷ is) = AreLow is
