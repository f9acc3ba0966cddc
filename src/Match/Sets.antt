-- ===== src/Match/Sets.antt =====
-- match.c: joker characters, and the sets of characters that they match.
use script_basic.Common.{
  ℕ, ◌+◌, ◌-◌, ◌/◌, ◌%◌, ◌^◌, Bool, not, ◌||◌, Option, none, some, List, [], ◌∷◌, leb, ◌==◌, ◌&&◌,
  if◌then◌else◌, get_or, set,
}

abbrev pub Bytes : Type 0
Bytes = List ℕ

-- "*#$@?&%!+/|<>"
abbrev pub joker_characters : Bytes
joker_characters =
    b'*' ∷ b'#' ∷ b'$' ∷ b'@' ∷ b'?' ∷ b'&' ∷ b'%' ∷ b'!' ∷ b'+' ∷ b'/' ∷ b'|' ∷ b'<' ∷ b'>' ∷ []

abbrev pub escape_character : ℕ
escape_character = b'~'

-- NOJOKER, SINGLEJOKER and MULTIJOKER
abbrev pub no_joker : ℕ
no_joker = 0

abbrev pub single_joker : ℕ
single_joker = 1

abbrev pub multi_joker : ℕ
multi_joker = 3

-- `MatchSets`: of each joker character its type and its set, 32 bytes of 8 characters each.
pub record MatchSets : Type 0 where
  pub set_type : List ℕ
  pub sets : List Bytes

-- The loop of match_index, at place `i`.
index_from : ℕ → ℕ → Bytes → ℕ
index_from ch i [] = 0
index_from ch i (j ∷ js) = let rest = index_from ch (i + 1) js in if j == ch then i + 1 else rest

unfoldable pub match_index : ℕ → ℕ
unfolding index_from
match_index ch = index_from ch 0 joker_characters

-- MultiJokerSet and SingleJokerSet, with `none` for NULL
set_of_type : ℕ → MatchSets → ℕ → Option Bytes
set_of_type type ms ch =
    let i = match_index ch in
    if i == 0
    then none
    else if get_or ms.set_type (i - 1) 0 == type
    then some (get_or ms.sets (i - 1) [])
    else none

unfoldable pub multi_joker_set : MatchSets → ℕ → Option Bytes
unfolding set_of_type
multi_joker_set = set_of_type multi_joker

unfoldable pub single_joker_set : MatchSets → ℕ → Option Bytes
unfolding set_of_type
single_joker_set = set_of_type single_joker

-- JokerMatch: true if the result is not 0. The byte of the set is shifted, and no bit is masked out.
unfoldable pub joker_match : Bytes → ℕ → Bool
joker_match set ch = not (get_or set (ch / 8) 0 / 2 ^ (ch % 8) == 0)

-- `islower`, `toupper`, `isspace` and `isdigit` in the C locale
unfoldable pub upper : ℕ → ℕ
upper c = if leb b'a' c && leb c b'z' then c - 32 else c

unfoldable pub is_space : ℕ → Bool
is_space c = (c == b' ') || leb 9 c && leb c 13

unfoldable pub is_digit : ℕ → Bool
is_digit c = leb b'0' c && leb c b'9'
