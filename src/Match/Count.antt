-- ===== src/Match/Count.antt =====
-- match.c: match_count, and the room that it tells match_match to have.
use script_basic.Common.{
  ℕ, zero, suc, ◌+◌, ◌≤◌, ◌≡◌, refl, sym, ap, ◌∙◌, ◌%◌, ◌^◌, Bool, true, false, some, List, [], ◌∷◌,
  ◌==◌, if◌then◌else◌, ◌<◌, length, arith,
}
use script_basic.Match.Sets.{
  Bytes, MatchSets, escape_character, match_index, multi_joker_set, single_joker_set,
}
use script_basic.Match.Matcher.{
  Setting, Kind, multi, escape, single, space, plain, kind, setting, match_match,
}
use script_basic.Match.Pattern.{Item, items, manys, Decides}
use script_basic.Match.Correct.{match_match-Decides}
use script_basic.Match.Meaning.{read, AreLow, Means}
use script_basic.Match.Agreement.{items-read}
use script_basic.Match.Reading.{
  Read, read_many, read_one, read_space, read_plain, read_escape, items-Read,
}

abbrev pub counted : ℕ → ℕ
counted c = if match_index c == 0 then 0 else 1

-- After an escape character the next one is passed over.
unfoldable pub jokers_in : Bytes → ℕ
jokers_in [] = 0
jokers_in (c ∷ []) = counted c
jokers_in (c ∷ x ∷ p) =
    let rest = jokers_in (x ∷ p) in
    let escaped = jokers_in p in counted c + (if c == escape_character then escaped else rest)

-- The counter is an `int`, here by its bits.
unfoldable pub match_count : Bytes → ℕ
match_count pattern = jokers_in pattern % 2 ^ 32

some-injective : {is js : List Item} → some is ≡ some js → is ≡ js
some-injective e = cc

module _ (g : Setting) where
  escape_not_joker : match_index escape_character ≡ 0
  unfolding match_index
  escape_not_joker = refl

  kind-multi :
      (x : ℕ) (set : Bytes)
      → kind g x ≡ multi set
      → (counted x ≡ 1) × ((x == escape_character) ≡ false)
  unfolding kind multi_joker_set
  kind-multi x set e = ground (arith, escape_not_joker)

  kind-other :
      (x : ℕ) (k : Kind) → kind g x ≡ k → (k ≡ escape → ⊥) → (x == escape_character) ≡ false
  unfolding kind multi_joker_set
  kind-other x k e n = ground (arith, escape_not_joker)

  kind-escape : (x : ℕ) → kind g x ≡ escape → (x == escape_character) ≡ true
  unfolding kind multi_joker_set single_joker_set
  kind-escape x e = ground arith

  jokers_in_next :
      (x : ℕ) (p : Bytes)
      → (x == escape_character) ≡ false
      → jokers_in (x ∷ p) ≡ counted x + jokers_in p
  unfolding jokers_in
  jokers_in_next x [] e = omega arith
  jokers_in_next x (y ∷ p) e = rw e refl

  jokers_in_escaped :
      (x y : ℕ) (p : Bytes)
      → (x == escape_character) ≡ true
      → jokers_in (x ∷ y ∷ p) ≡ counted x + jokers_in p
  unfolding jokers_in
  jokers_in_escaped x y p e = rw e refl

  abbrev Covers : Bytes → Type 0
  Covers p = (is : List Item) → items g p ≡ some is → manys is ≤ jokers_in p

  cover :
      (x : ℕ) (p : Bytes) (is : List Item)
      → Covers p
      → ((y : ℕ) (p' : Bytes) → p ≡ y ∷ p' → Covers p')
      → Read g x p is
      → manys is ≤ jokers_in (x ∷ p)
  cover x p is h h' (read_many set rest k e q) =
      let (one_more, not_escape) = kind-multi x set k in
      rw q (omega (arith, h rest e, jokers_in_next x p not_escape, one_more))
  cover x p is h h' (read_one set rest k e q) =
      rw q (omega (arith, h rest e, jokers_in_next x p (kind-other x (single set) k (λ n. cc))))
  cover x p is h h' (read_space rest k e q) =
      rw q (omega (arith, h rest e, jokers_in_next x p (kind-other x space k (λ n. cc))))
  cover x p is h h' (read_plain rest k e q) =
      rw q (omega (arith, h rest e, jokers_in_next x p (kind-other x plain k (λ n. cc))))
  cover x p is h h' (read_escape y p' rest k w e q) =
      rw (q, w) (omega (arith, h' y p' w rest e, jokers_in_escaped x y p' (kind-escape x k)))

  covers : (rounds : ℕ) (p : Bytes) → length p ≤ rounds → Covers p
  unfolding items
  covers rounds [] l is e = rw (sym (some-injective e)) (omega arith)
  covers zero (x ∷ p) l is e = absurd (omega arith)
  covers (suc rounds) (x ∷ p) l is e =
      cover x p is (covers rounds p (omega arith))
        (λ y p' w. covers rounds p' (omega (arith, ap length w))) (items-Read g x p is e)

jokers_in-length : (p : Bytes) → jokers_in p ≤ length p
unfolding jokers_in
jokers_in-length [] = omega arith
jokers_in-length (c ∷ []) = ground arith
jokers_in-length (c ∷ x ∷ p) = ground (arith, jokers_in-length (x ∷ p), jokers_in-length p)

match_count_small : (p : Bytes) → length p < 2 ^ 31 → match_count p ≡ jokers_in p
unfolding match_count
match_count_small p h = omega (arith, jokers_in-length p)

-- Called with a set collection, with the number that match_count gives for the pattern as the size
-- of the array, with a buffer longer than the string, with a pattern that is shorter than 2 ^ 31,
-- does not end in a lone escape character and whose jokers have sets that hold, of each eight
-- characters with the same higher bits, the first ones only, and with zero bytes after the pattern
-- in memory, match_match ends without an error and decides whether the string matches, with the
-- strings for the jokers where it does.
pub match_match-match_count :
    (ms : MatchSets) (pattern string : Bytes) (buffer_size : ℕ) (f_case : Bool) (beyond : ℕ → ℕ)
    (is : List Item)
    → read ms pattern ≡ some is
    → AreLow is
    → length pattern < 2 ^ 31
    → length string < buffer_size
    → ((k : ℕ) → beyond k ≡ 0)
    → Decides
        (Means f_case is string)
        (match_match pattern string (match_count pattern) buffer_size f_case (some ms) beyond)
match_match-match_count ms pattern string buffer_size f_case beyond is e low short big quiet =
    let g = setting ms buffer_size f_case beyond in
    let room = covers g (length pattern) pattern (omega arith) is (items-read g pattern ∙ e) in
    match_match-Decides ms pattern string (match_count pattern) buffer_size f_case beyond is e low
      (omega (arith, room, match_count_small pattern short)) big quiet
