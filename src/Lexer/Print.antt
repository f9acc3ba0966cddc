-- ===== src/Lexer/Print.antt =====
-- lexer.c: tokens as they are written in a program, and what the lexical analyser needs to know of
-- the characters in them.
use script_basic.Common.{
  ℕ, ◌+◌, ◌*◌, ◌^◌, ◌<◌, ◌≡◌, ◌≢◌, ◌⊎◌, List, [], ◌∷◌, ◌++◌, length, true, false, ◌||◌, ◌==◌,
  if◌then◌else◌,
}
use script_basic.Lexer.{Lexeme, LexObject, eof, getc, isinset}
use script_basic.Lexer.Symbols.{symbol_lexeme}
use script_basic.Lexer.Numbers.{long_lexeme}
use script_basic.Lexer.Strings.{replacement, string_lexeme}

-- A name, an integer by its first digit and the others, or a string.
pub data Token : Type 0 where
  name : ℕ → List ℕ → Token
  number : ℕ → List ℕ → Token
  text : List ℕ → Token

-- A character of a string: quotes, escape characters and new lines are escaped.
abbrev pub escaped : ℕ → List ℕ → List ℕ
escaped c rest =
    if c == b'"' || c == 92 then 92 ∷ c ∷ rest else (if c == 10 then 92 ∷ b'n' ∷ rest else c ∷ rest)

-- The string up to its closing quote, and what follows.
unfoldable pub quoted : List ℕ → List ℕ → List ℕ
quoted [] rest = b'"' ∷ rest
quoted (c ∷ s) rest = escaped c (quoted s rest)

unfoldable pub digits : List ℕ → List ℕ → List ℕ
digits [] rest = rest
digits (d ∷ ds) rest = (48 + d) ∷ digits ds rest

-- The token, and what follows.
unfoldable pub show : Token → List ℕ → List ℕ
show (name c w) rest = c ∷ (w ++ rest)
show (number d ds) rest = digits (d ∷ ds) rest
show (text s) rest = b'"' ∷ quoted s rest

-- The tokens with a space between them
unfoldable pub print : List Token → List ℕ
print [] = []
print (t ∷ []) = show t []
print (t ∷ u ∷ ts) = show t (32 ∷ print (u ∷ ts))

-- The number that has these digits after those of `n`.
unfoldable pub value_from : ℕ → List ℕ → ℕ
value_from n [] = n
value_from n (d ∷ ds) = value_from (n * 10 + d) ds

unfoldable pub lexeme_of : LexObject → Token → Lexeme
lexeme_of lex (name c w) = symbol_lexeme lex (c ∷ w)
lexeme_of lex (number d ds) = long_lexeme (value_from d ds)
lexeme_of lex (text s) = string_lexeme s

abbrev pub lexemes_of : LexObject → List Token → List Lexeme
lexemes_of lex [] = []
lexemes_of lex (t ∷ ts) = lexeme_of lex t ∷ lexemes_of lex ts

-- The characters go on with a symbol, and the last one may end it.
abbrev pub IsRest : List ℕ → List ℕ → ℕ → List ℕ → Type 0
IsRest going final c [] = isinset c final ≡ true
IsRest going final c (d ∷ w) = (isinset d going ≡ true) × IsRest going final d w

abbrev pub AreDigits : List ℕ → Type 0
AreDigits [] = Unit
AreDigits (d ∷ ds) = (d < 10) × AreDigits ds

abbrev pub AreCharacters : List ℕ → Type 0
AreCharacters [] = Unit
AreCharacters (c ∷ s) = (c < 256) × AreCharacters s

-- A token that is read as it is written: a name is a symbol of at most 1022 characters, an integer
-- is below 2 ^ 53.
abbrev pub IsToken : LexObject → Token → Type 0
IsToken lex (name c w) =
    (isinset c lex.start_symbol ≡ true)
    × (isinset c lex.continue_symbol ≡ true)
    × (isinset c lex.skipped ≡ false)
    × (c ≢ eof)
    × IsRest lex.continue_symbol lex.final_symbol c w
    × (length w < 1022)
IsToken lex (number d ds) = (d < 10) × AreDigits ds × (value_from d ds < 2 ^ 53)
IsToken lex (text s) = AreCharacters s

abbrev pub AreTokens : LexObject → List Token → Type 0
AreTokens lex [] = Unit
AreTokens lex (t ∷ ts) = IsToken lex t × AreTokens lex ts

-- The settings tell spaces, digits and quotes from the characters of symbols, and read the escapes
-- that `escaped` writes.
pub record IsBasic (lex : LexObject) : Type 0 where
  pub space_skipped : isinset 32 lex.skipped ≡ true
  pub space_ends : isinset 32 lex.continue_symbol ≡ false
  pub eof_ends : isinset eof lex.continue_symbol ≡ false
  pub quote_starts : isinset b'"' lex.start_string ≡ true
  pub quote_no_symbol : isinset b'"' lex.start_symbol ≡ false
  pub quote_not_skipped : isinset b'"' lex.skipped ≡ false
  pub digit_no_symbol : (d : ℕ) → d < 10 → isinset (48 + d) lex.start_symbol ≡ false
  pub digit_no_string : (d : ℕ) → d < 10 → isinset (48 + d) lex.start_string ≡ false
  pub digit_not_skipped : (d : ℕ) → d < 10 → isinset (48 + d) lex.skipped ≡ false
  pub pairs : List ℕ
  pub escapes : lex.escapes ≡ 92 ∷ pairs
  pub quote_escaped : replacement b'"' pairs ≡ b'"'
  pub escape_escaped : replacement 92 pairs ≡ 92
  pub new_line_escaped : replacement b'n' pairs ≡ 10

-- What follows a token: a space, or the end.
abbrev pub IsStop : List ℕ → Type 0
IsStop rest = (getc rest ≡ 32) ⊎ (getc rest ≡ eof)
