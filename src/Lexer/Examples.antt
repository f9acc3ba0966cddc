-- ===== src/Lexer/Examples.antt =====
-- lexer.c: small pieces of a program.
use script_basic.Common.{
  ℕ, ◌+◌, ◌-◌, ◌*◌, ◌^◌, ◌≤◌, ◌<◌, ◌≡◌, refl, inl, inr, List, [], ◌∷◌, some, Bool, true, false, not,
  ltb, Bool-cases, check_below, check_below_sound, arith,
}
use script_basic.Lexer.{
  LexemeType, long, a_symbol, n_symbol, character, Lexeme, LexObject, new_line, isinset,
  init_structure,
}
use script_basic.Sym.Name.{to_lower}
use script_basic.Lexer.Symbols.{
  take_symbol, skip_set, give_back, find_symbol, symbol_lexeme, read_symbol, get_characters,
  find_start, unget_all, read_na_symbol,
}
use script_basic.Lexer.Numbers.{Doubles, int_digits, read_fraction, read_exponent, read_decimal}
use script_basic.Lexer.Strings.{replacement}
use script_basic.Lexer.Read.{other_token, read_token, read_from, read_input}
use script_basic.Lexer.Filter.{apostrophe, at_start, remove_comments}
use script_basic.Lexer.Print.{
  Token, name, number, text, print, value_from, lexemes_of, AreTokens, IsBasic,
}
use script_basic.Lexer.Integers.{IsExact}
use script_basic.Lexer.RoundTrip.{read_input-print}

abbrev whole : Doubles
whole = record {
  Double = ℕ;
  of_int = λ n. n;
  tenth = 0;
  add = λ x y. x + y;
  mul = λ x y. x * y;
  inverse = λ x. 0;
  negate = λ x. 0;
  is_less = λ x y. ltb x y;
  to_long = λ x. x;
  bits = λ x. x;
}

abbrev basic : LexObject
basic = record init_structure {
  na_symbols =
      some
        (record { symbol = 60 ∷ 61 ∷ []; code = 1 } ∷ record { symbol = 61 ∷ []; code = 2 } ∷ []);
  a_symbols = some (record { symbol = b'i' ∷ b'f' ∷ []; code = 3 } ∷ []);
}

abbrev token_lexeme : LexemeType → ℕ → Lexeme
token_lexeme t v = record { type = t; value = v; text = []; length = 0 }

-- A byte 255 that is given back after `=` is read as EOF: what follows is lost, with no report.
byte_255_ends :
    read_input whole 9 basic (b'a' ∷ b'=' ∷ 255 ∷ b'b' ∷ [])
    ≡ some (record {
      code = 0;
      lexemes =
          record { type = a_symbol; value = 0; text = b'a' ∷ []; length = 0 }
          ∷ token_lexeme n_symbol 2
          ∷ [];
      reports = [];
    })
unfolding read_input init_structure read_from read_token skip_set read_symbol give_back take_symbol
    other_token read_na_symbol find_start unget_all get_characters symbol_lexeme find_symbol
    to_lower
byte_255_ends = refl

-- Spaces before the end of the input give a character -1.
spaces_before_eof :
    read_input whole 9 basic (b'1' ∷ 32 ∷ [])
    ≡ some (record {
      code = 0;
      lexemes = token_lexeme long 1 ∷ token_lexeme character (2 ^ 64 - 1) ∷ [];
      reports = [];
    })
unfolding read_input init_structure read_from read_token skip_set other_token read_decimal
    int_digits read_exponent read_fraction read_na_symbol find_start unget_all get_characters
spaces_before_eof = refl

refuted : {b : Bool} → not b ≡ true → b ≡ false
refuted {b} e = elim (Bool-cases b) [ inl t ↦ cc | inr f ↦ f ]

-- The symbol `REM`
abbrev comment_text : Lexeme
comment_text = record { type = a_symbol; value = 0; text = b'R' ∷ b'E' ∷ b'M' ∷ []; length = 0 }

abbrev comment : Lexeme
comment = token_lexeme character apostrophe

abbrev line_end : Lexeme
line_end = token_lexeme character new_line

-- After the number 10 a comment is taken away with the end of the line, after 11 it is kept.
comment_after_ten :
    remove_comments at_start (token_lexeme long 10 ∷ comment ∷ line_end ∷ [])
    ≡ token_lexeme long 10 ∷ []
unfolding remove_comments
comment_after_ten = refl

comment_after_eleven :
    remove_comments at_start (token_lexeme long 11 ∷ comment ∷ line_end ∷ [])
    ≡ token_lexeme long 11 ∷ comment ∷ line_end ∷ []
unfolding remove_comments
comment_after_eleven = refl

whole-IsExact : IsExact whole
whole-IsExact = record { digit = λ n d h. refl; integer = λ n h. refl }

no_start : (d : ℕ) → d < 10 → isinset (48 + d) basic.start_symbol ≡ false
unfolding init_structure check_below
no_start d h =
    refuted (check_below_sound 10 (λ k. not (isinset (48 + k) basic.start_symbol)) d refl h)

no_string : (d : ℕ) → d < 10 → isinset (48 + d) basic.start_string ≡ false
unfolding init_structure check_below
no_string d h =
    refuted (check_below_sound 10 (λ k. not (isinset (48 + k) basic.start_string)) d refl h)

no_skip : (d : ℕ) → d < 10 → isinset (48 + d) basic.skipped ≡ false
unfolding init_structure check_below
no_skip d h = refuted (check_below_sound 10 (λ k. not (isinset (48 + k) basic.skipped)) d refl h)

basic-IsBasic : IsBasic basic
unfolding init_structure replacement
basic-IsBasic = record {
  space_skipped = refl;
  space_ends = refl;
  eof_ends = refl;
  quote_starts = refl;
  quote_no_symbol = refl;
  quote_not_skipped = refl;
  digit_no_symbol = no_start;
  digit_no_string = no_string;
  digit_not_skipped = no_skip;
  pairs = 110 ∷ 10 ∷ 116 ∷ 9 ∷ 114 ∷ 13 ∷ 34 ∷ 34 ∷ 39 ∷ 39 ∷ [];
  escapes = refl;
  quote_escaped = refl;
  escape_escaped = refl;
  new_line_escaped = refl;
}

abbrev tokens : List Token
tokens =
    name b'a' (b'1' ∷ [])
    ∷ number 4 (2 ∷ [])
    ∷ text (34 ∷ 10 ∷ b'x' ∷ [])
    ∷ name b'i' (b'f' ∷ [])
    ∷ []

tokens-AreTokens : AreTokens basic tokens
unfolding init_structure value_from
tokens-AreTokens = (
  (refl, refl, refl, (λ e. absurd (omega (arith, e))), (refl, refl), omega arith),
  (
    (omega arith, (omega arith, tt), omega arith),
    (
      (omega arith, (omega arith, (omega arith, tt))),
      ((refl, refl, refl, (λ e. absurd (omega (arith, e))), (refl, refl), omega arith), tt),
    ),
  ),
)

basic_size : 1024 ≤ basic.buffer_size
unfolding init_structure
basic_size = omega arith

read_input-print_example :
    read_input whole 9 basic (print tokens)
    ≡ some (record { code = 0; lexemes = lexemes_of basic tokens; reports = [] })
read_input-print_example =
    read_input-print whole basic tokens 9 whole-IsExact basic-IsBasic tokens-AreTokens basic_size
      (omega arith)

abbrev lines : List (List Lexeme × Lexeme)
lines =
    (comment_text ∷ token_lexeme long 5 ∷ [], line_end)
    ∷ (token_lexeme n_symbol 3 ∷ token_lexeme long 5 ∷ [], line_end)
    ∷ []
