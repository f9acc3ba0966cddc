-- ===== src/Match/Matcher.antt =====
-- match.c: match_match.
use script_basic.Common.{
  ℕ, zero, suc, ◌+◌, ◌-◌, Bool, true, false, Option, none, some, List, [], ◌∷◌, ◌++◌, ◌*◌, leb,
  ◌==◌, if◌then◌else◌, length,
}
use mathlib.Core.Option.{get_or}
use script_basic.Match.Default.{default_match_sets}
use script_basic.Match.Sets.{
  Bytes, MatchSets, escape_character, multi_joker_set, single_joker_set, joker_match, upper,
  is_space,
}

-- The error codes MATCH_ERROR_ARRAY_SHORT, _BUFFER_SHORT and _SYNTAX_ERROR; `exhausted` is no code
-- of the source: the model's fuel ran out.
pub data MatchError : Type 0 where
  array_short buffer_short syntax_error exhausted : MatchError

-- A call that returns MATCH_ERROR_SUCCESS sets `iResult` to 0, or to 1 with the strings that matched
-- the jokers; any other call returns an error code.
pub data Outcome : Type 0 where
  fails : MatchError → Outcome
  no_match : Outcome
  matched : List Bytes → Outcome

-- Where the pattern is read. The source goes on reading past its end while the string lasts:
-- `past k` is `k` bytes after the end, with `cbPattern` wrapped around below 0, and not 0 again.
pub data Cursor : Type 0 where
  inside : Bytes → Cursor
  past : ℕ → Cursor

abbrev pub next : Cursor → Cursor
next (inside []) = past 1
next (inside (c ∷ p)) = inside p
next (past k) = past (k + 1)

-- `! cbPattern`
abbrev pub at_end : Cursor → Bool
at_end (inside []) = true
at_end (inside (c ∷ p)) = false
at_end (past k) = false

-- One more string in front of the array of what the jokers matched.
abbrev pub add_parameter : Bytes → Outcome → Outcome
add_parameter taken (matched ps) = matched (taken ∷ ps)
add_parameter taken o = o

-- What the loop makes of a character of the pattern.
pub data Kind : Type 0 where
  multi : Bytes → Kind
  escape : Kind
  single : Bytes → Kind
  space : Kind
  plain : Kind

-- The parameters of a whole call: the sets, whether case counts, the size of the buffer, and the
-- bytes that stand in memory after the pattern.
pub record Setting : Type 0 where
  pub sets : MatchSets
  pub f_case : Bool
  pub buffer_size : ℕ
  pub beyond : ℕ → ℕ

module _ (g : Setting) where
  open g use {sets, f_case, buffer_size, beyond}

  abbrev pub current : Cursor → ℕ
  current (inside []) = beyond 0
  current (inside (c ∷ p)) = c
  current (past k) = beyond k

  -- Two characters compared, and a character tried against a set.
  unfoldable pub same : ℕ → ℕ → Bool
  same a b = if f_case then a == b else upper a == upper b

  unfoldable pub accepts : Bytes → ℕ → Bool
  accepts set c = joker_match set (if f_case then c else upper c)

  unfoldable pub skip_spaces : Bytes → Bytes
  skip_spaces [] = []
  skip_spaces (c ∷ s) = let rest = skip_spaces s in if is_space c then rest else c ∷ s

  -- The tests that the loop makes on the pattern's character, in its order.
  unfoldable pub kind : ℕ → Kind
  kind c = elim (multi_joker_set sets c) [
    | some set ↦ multi set
    | none ↦ if c == escape_character then escape else elim (single_joker_set sets c) [
      | some set ↦ single set
      | none ↦ if c == b' ' then space else plain
    ]
  ]

  -- `used` bytes of the buffer are taken, so that `cbBufferSize` is `buffer_size - used`.
  -- `run` is one call of match_match from the head of its loop on, `more` the inner loop of a multiple
  -- joker after the characters `taken`.
  unfoldable mutual
    pub run : ℕ → Cursor → Bytes → ℕ → ℕ → Outcome
    run zero p s arrays used = fails exhausted
    run (suc f) p [] arrays used = if at_end p then matched [] else no_match
    run (suc f) p (c ∷ s) arrays used = elim (kind (current p)) [
      | multi set ↦ elim (arrays == 0) [
        | true ↦ fails array_short
        | false ↦ elim (leb buffer_size used) [
          | true ↦ fails buffer_short
          | false ↦ elim (accepts set c) [
            | true ↦ more f set (next p) s (arrays - 1) (used + 1) (c ∷ [])
            | false ↦ no_match
          ]
        ]
      ]
      | escape ↦ elim (at_end (next p)) [
        | true ↦ fails syntax_error
        | false ↦ elim (same (current (next p)) c) [
          | true ↦ run f (next (next p)) s arrays used
          | false ↦ no_match
        ]
      ]
      | single set ↦ elim (accepts set c) [
        | true ↦ add_parameter (c ∷ []) (run f (next p) s arrays (used + 1))
        | false ↦ no_match
      ]
      | space ↦ elim (is_space c) [
        | true ↦ run f (next p) (skip_spaces s) arrays used
        | false ↦ no_match
      ]
      | plain ↦ elim (same (current p) c) [ true ↦ run f (next p) s arrays used | false ↦ no_match ]
    ]

    -- Any end of the recursive call but "success without a match" ends the loop with `iResult` 1.
    -- After an error the strings of the later jokers are not determined, and are left out.
    pub more : ℕ → Bytes → Cursor → Bytes → ℕ → ℕ → Bytes → Outcome
    more zero set p s arrays used taken = fails exhausted
    more (suc f) set p s arrays used taken = elim (run f p s arrays used) [
      | matched ps ↦ matched (taken ∷ ps)
      | fails e ↦ matched (taken ∷ [])
      | no_match ↦ elim s [
        | [] ↦ no_match
        | c ∷ s' ↦ elim (accepts set c) [
          | true ↦ elim (used + 1 == buffer_size) [
            | true ↦ fails buffer_short
            | false ↦ more f set p s' arrays (used + 1) (taken ++ c ∷ [])
          ]
          | false ↦ no_match
        ]
      ]
    ]

-- Each round of either loop takes a character of the string, so that this fuel is enough.
abbrev pub fuel : Bytes → ℕ
fuel s = 2 * length s + 1

abbrev pub setting : MatchSets → ℕ → Bool → (ℕ → ℕ) → Setting
setting sets size f_case beyond = record {
  sets = sets;
  f_case = f_case;
  buffer_size = size;
  beyond = beyond;
}

-- match_match: a NULL pointer for the sets stands for the default sets.
unfoldable pub match_match : Bytes → Bytes → ℕ → ℕ → Bool → Option MatchSets → (ℕ → ℕ) → Outcome
match_match pattern string array_size buffer_size f_case sets beyond =
    let g = setting (get_or sets default_match_sets) buffer_size f_case beyond in
    run g (fuel string) (inside pattern) string array_size 0
