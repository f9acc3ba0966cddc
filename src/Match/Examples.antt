-- ===== src/Match/Examples.antt =====
-- match.c: runs on short patterns.
use native.Mathlib.Omega.{arith}
use script_basic.Common.{
  ℕ, ◌+◌, ◌-◌, ◌^◌, ◌≡◌, refl, ap, true, none, some, List, [], ◌∷◌, replicate, length,
}
use script_basic.Match.Sets.{
  Bytes, is_digit, joker_match, multi_joker_set, single_joker_set, match_index,
}
use script_basic.Match.Default.{default_match_sets, full_set, letter_set}
use script_basic.Match.Matcher.{
  matched, fails, buffer_short, Setting, setting, kind, same, accepts, run, match_match,
}
use script_basic.Match.Pattern.{Item, many, one, literal, Decides}
use script_basic.Match.Meaning.{read, Means, is_low, IsLow, AreLow}
use native.Mathlib.Decide.{dec_lt}
use script_basic.Match.Default.{init_sets}
use script_basic.Match.Members.{Plain, adds, AllChars}
use script_basic.Match.Modify.{modify_set}
use script_basic.Match.Asked.{get_or-replicate_within, get_or-replicate_beyond}
use script_basic.Match.Modified.{IsMatchSets, Modified, init_sets-IsMatchSets, modify_set-Modified}
use script_basic.Match.Count.{jokers_in, match_count, match_match-match_count}
use script_basic.Match.Format.{
  Filling, filled, Counter, digits, after_dollar, next_piece, copy, fill_piece, fill_from,
  match_parameter, match_size,
}
use script_basic.Match.Expansion.{pieces_from, pieces, expand, sizes_of}
use script_basic.Match.Words.{Word, plain, dollars, parameter, written, IsFormat, number_of_dollars}
use script_basic.Match.Fitting.{match_parameter-text}
use script_basic.Match.Sizing.{match_parameter-match_size}

-- "*b?" and "abxbc"
abbrev star_b_any : Bytes
star_b_any = b'*' ∷ b'b' ∷ b'?' ∷ []

abbrev subject : Bytes
subject = b'a' ∷ b'b' ∷ b'x' ∷ b'b' ∷ b'c' ∷ []

abbrev zeros : ℕ → ℕ
zeros k = 0

abbrev g : Setting
g = setting default_match_sets 6 true zeros

abbrev star_b_any_items : List Item
star_b_any_items = many full_set ∷ literal b'b' ∷ one full_set ∷ []

star_b_any-items : read default_match_sets star_b_any ≡ some star_b_any_items
unfolding default_match_sets
star_b_any-items = refl

full-IsLow : IsLow full_set
unfolding full_set
full-IsLow k = elim (dec_lt k 32) [
  | yes h ↦ ap is_low (get_or-replicate_within 32 k 0xff 0 h)
  | no h ↦ ap is_low (get_or-replicate_beyond 32 k 0xff 0 (omega arith))
]

star_b_any-AreLow : AreLow star_b_any_items
star_b_any-AreLow = (full-IsLow, (full-IsLow, tt))

-- The star goes on past the first "b", since the string does not end after "bx".
star_b_any_match :
    match_match star_b_any subject 1 6 true (some default_match_sets) zeros
    ≡ matched ((b'a' ∷ b'b' ∷ b'x' ∷ []) ∷ (b'c' ∷ []) ∷ [])
unfolding match_match run kind accepts same multi_joker_set single_joker_set match_index joker_match
    default_match_sets full_set replicate
star_b_any_match = refl

-- A buffer of the length of the string, which the comment calls safe, is too short for "*".
star_short :
    match_match (b'*' ∷ []) subject 1 5 true (some default_match_sets) zeros ≡ fails buffer_short
unfolding match_match run kind accepts same multi_joker_set single_joker_set match_index joker_match
    default_match_sets full_set replicate
star_short = refl

-- The set of letters has no bit for "@", but matches it.
letter_at : joker_match letter_set b'@' ≡ true
unfolding joker_match letter_set replicate
letter_at = refl

-- "b$1$$" with the parameters "x" and "yz" is "byz$".
abbrev template : List Word
template = plain b'b' ∷ parameter 1 [] ∷ dollars ∷ []

abbrev parameters : List Bytes
parameters = (b'x' ∷ []) ∷ (b'y' ∷ b'z' ∷ []) ∷ []

abbrev replacement : Bytes
replacement = b'b' ∷ b'y' ∷ b'z' ∷ b'$' ∷ []

template-written : written template ≡ b'b' ∷ b'$' ∷ b'1' ∷ b'$' ∷ b'$' ∷ []
template-written = refl

template-IsFormat : IsFormat template
unfolding is_digit
template-IsFormat = ((λ e. omega (arith, e)), (((omega arith), tt), omega arith, refl, tt))

match_parameter-text_example :
    (st : Filling) × (match_parameter (written template) (length parameters) parameters 9
      ≡ filled st)
    × (st.buffer ≡ replacement)
    × (st.left + length replacement ≡ 9)
    × (st.result_size + number_of_dollars template ≡ length replacement)
match_parameter-text_example =
    match_parameter-text template parameters 9 replacement template-IsFormat refl (omega arith)
      (omega arith)

match_parameter-match_size_example :
    (k : Counter) × (st : Filling) × (match_size
        (written template)
        (sizes_of parameters)
        (length parameters)
        (λ i. 0)
      ≡ some k)
    × (k.cells 0 ≡ length replacement)
    × (match_parameter (written template) (length parameters) parameters (k.cells 0 + 1)
        ≡ filled st)
    × (st.buffer ≡ replacement)
match_parameter-match_size_example =
    match_parameter-match_size template parameters replacement template-IsFormat tt refl
      (omega arith)

-- With one parameter only, place 1 has none.
template-expand_short : expand 1 parameters (pieces (written template)) ≡ none
unfolding pieces_from next_piece after_dollar digits is_digit
template-expand_short = refl

-- "a$$" in a buffer of one byte: two characters are written, and there seems to be room for more.
overflow :
    match_parameter (b'a' ∷ b'$' ∷ b'$' ∷ []) 0 [] 1
    ≡ filled (record { left = 2 ^ 64 - 1; buffer = b'a' ∷ b'$' ∷ []; result_size = 1 })
unfolding match_parameter fill_from fill_piece copy next_piece after_dollar
overflow = refl

-- '&' becomes a single joker for "a" and "b" only.
abbrev letters : Bytes
letters = b'a' ∷ b'b' ∷ []

abbrev make_single : ℕ
make_single = 0x51

make_single-Plain : Plain make_single true
make_single-Plain = adds refl refl refl

and_sign : match_index b'&' ≡ 6
unfolding match_index
and_sign = refl

letters-AllChars : AllChars letters
letters-AllChars = (omega arith, (omega arith, tt))

default-IsMatchSets : IsMatchSets default_match_sets
unfolding init_sets
default-IsMatchSets = init_sets-IsMatchSets default_match_sets

modify_set-Modified_example :
    Modified default_match_sets
      (modify_set default_match_sets b'&' letters make_single)
      5
      make_single
      letters
      true
modify_set-Modified_example =
    modify_set-Modified default_match_sets b'&' 5 letters make_single true default-IsMatchSets
      and_sign make_single-Plain letters-AllChars

star_b_any-match_count : match_count star_b_any ≡ 2
unfolding match_count jokers_in match_index
star_b_any-match_count = refl

match_match-match_count_example :
    Decides (Means true star_b_any_items subject) (
      match_match star_b_any subject
        (match_count star_b_any)
        6
        true
        (some default_match_sets)
        zeros)
match_match-match_count_example =
    match_match-match_count default_match_sets star_b_any subject 6 true zeros star_b_any_items
      star_b_any-items star_b_any-AreLow (omega arith) (omega arith) (λ k. refl)
