-- ===== src/Match/Default.antt =====
-- match.c: DefaultMatchSets and match_InitSets.
use script_basic.Common.{◌++◌, ◌∷◌, replicate}
use script_basic.Match.Sets.{Bytes, MatchSets, no_joker, single_joker, multi_joker}

-- Every character; digits; letters and digits; letters; none. In the source 0xFE stands where the
-- first bit of a byte is to be left out: that of '@' before 'A', and that of '`' before 'a'.
unfoldable pub full_set : Bytes
unfolding replicate
full_set = replicate 32 0xff

unfoldable pub empty_set : Bytes
unfolding replicate
empty_set = replicate 32 0

unfoldable pub digit_set : Bytes
unfolding replicate
digit_set = replicate 6 0 ++ (0xff ∷ 3 ∷ replicate 24 0)

unfoldable pub letter_digit_set : Bytes
unfolding replicate
letter_digit_set =
    replicate 6 0 ++ (0xff ∷ 3 ∷ 0xfe ∷ 0xff ∷ 0xff ∷ 7 ∷ 0xfe ∷ 0xff ∷ 0xff ∷ 7 ∷ replicate 16 0)

unfoldable pub letter_set : Bytes
unfolding replicate
letter_set = replicate 8 0 ++ (0xfe ∷ 0xff ∷ 0xff ∷ 7 ∷ 0xfe ∷ 0xff ∷ 0xff ∷ 7 ∷ replicate 16 0)

unfoldable pub default_match_sets : MatchSets
unfolding full_set empty_set digit_set letter_digit_set letter_set replicate
default_match_sets = record {
  set_type =
      multi_joker ∷ multi_joker ∷ multi_joker ∷ multi_joker ∷ single_joker ∷ replicate 8 no_joker;
  sets = full_set ∷ digit_set ∷ letter_digit_set ∷ letter_set ∷ full_set ∷ replicate 8 empty_set;
}

-- match_InitSets: whatever the structure held, it is a copy of the default.
unfoldable pub init_sets : MatchSets → MatchSets
init_sets ms = default_match_sets
