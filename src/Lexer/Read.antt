-- ===== src/Lexer/Read.antt =====
-- lexer.c: lex_ReadInput, with enough memory and no preprocessor. `none` is a lack of fuel.
use script_basic.Common.{
  ℕ, zero, suc, List, [], ◌∷◌, ◌++◌, length, Option, none, some, Bool, true, false, ◌&&◌, ◌||◌, leb,
  ◌==◌, if◌then◌else◌,
}
use script_basic.Lexer.{
  Lexeme, LexNaSymbol, LexObject, Step, Outcome, stepped, refused, eof, getc, after, isinset,
  isdigit,
}
use script_basic.Lexer.Symbols.{skip_set, read_symbol, read_na_symbol}
use script_basic.Lexer.Numbers.{Doubles, is_hex_start, read_hex, read_decimal}
use script_basic.Lexer.Strings.{stored, read_character, simple_string, string_step}

-- `while( StringIsBinary && ch == '\n' )ch = GETC();`
unfoldable pub skip_lines : Bool → ℕ → List ℕ → ℕ × List ℕ
skip_lines binary ch input = if binary then skip_set (10 ∷ []) ch input else (ch, input)

-- The loop of a multi-line string.
unfoldable pub multi_string : ℕ → LexObject → Bool → ℕ → ℕ → List ℕ → Option (List ℕ × ℕ × List ℕ)
multi_string zero lex binary quote ch input = none
multi_string (suc fuel) lex binary quote ch input =
    let (ch', input') = skip_lines binary ch input in
    elim (ch' == eof) [
      | true ↦ some ([], ch', input')
      | false ↦ elim (ch' == quote && (getc input' == quote && getc (after input') == quote)) [
        | true ↦ some ([], ch', after (after input'))
        | false ↦
            let (c, next, rest) = read_character lex ch' input' in
            stored c (multi_string fuel lex binary quote next rest)
      ]
    ]

-- PROCESS A STRING, after the character that starts it.
unfoldable pub read_string : LexObject → ℕ → ℕ → List ℕ → Option Outcome
read_string lex size quote input =
    let multi = getc input == quote && getc (after input) == quote in
    let body = after (after input) in
    let binary = getc body == b'&' in
    let first = if binary then after body else body in
    let fuel = suc (length input) in
    let string =
      if multi
      then multi_string fuel lex binary quote (getc first) (after first)
      else simple_string fuel lex quote (getc input) (after input) in
    elim string [
      | none ↦ none
      | some (chars, end, rest) ↦ some (stepped (string_step size chars end rest))
    ]

abbrev pub with_reports : List ℕ → Option Outcome → Option Outcome
with_reports reports none = none
with_reports reports (some (refused code)) = some (refused code)
with_reports reports (some (stepped s)) =
    some (stepped (record s { reports = reports ++ s.reports }))

-- What lex_ReadInput returns, the lexemes in pLexResult and the codes reported, in order.
pub record ReadResult : Type 0 where
  pub code : ℕ
  pub lexemes : List Lexeme
  pub reports : List ℕ

abbrev pub prepended : Option Lexeme → List Lexeme → List Lexeme
prepended none ls = ls
prepended (some l) ls = l ∷ ls

abbrev pub followed : Step → Option ReadResult → Option ReadResult
followed s none = none
followed s (some r) =
    some (record r { lexemes = prepended s.found r.lexemes; reports = s.reports ++ r.reports })

abbrev pub only_code : ℕ → ReadResult
only_code c = record { code = c; lexemes = []; reports = [] }

-- The length of the longest non-alpha symbol
abbrev pub longest : List LexNaSymbol → ℕ
longest [] = 0
longest (n ∷ table) =
    if leb (length n.symbol) (longest table) then longest table else length n.symbol

abbrev pub symbol_length : LexObject → ℕ
symbol_length lex = elim lex.na_symbols [
  | none ↦ 1
  | some table ↦ if lex.na_symbol_length == 0 then longest table else lex.na_symbol_length
]

module _ (f : Doubles) where
  -- What is no symbol of letters.
  unfoldable pub other_token : LexObject → ℕ → ℕ → List ℕ → Option Outcome
  other_token lex size ch input =
      if isinset ch lex.start_string
      then read_string lex size ch input
      else some (
          if is_hex_start ch (getc input)
          then read_hex size input
          else (if isdigit ch || ch == b'.'
              then read_decimal f size ch input
              else stepped (read_na_symbol lex size ch input)))

  unfoldable pub read_token : LexObject → ℕ → ℕ → List ℕ → Option Outcome
  read_token lex size ch input =
      let s = read_symbol lex size ch input in
      if isinset ch lex.start_symbol
      then elim s.found [
        | some l ↦ some (stepped s)
        | none ↦ with_reports s.reports (other_token lex size (getc s.input) (after s.input))
      ]
      else other_token lex size ch input

  unfoldable pub read_from : ℕ → LexObject → ℕ → List ℕ → Option ReadResult
  read_from zero lex size input = none
  read_from (suc fuel) lex size input = elim (getc input == eof) [
    | true ↦ some (only_code 0)
    | false ↦
        let (ch, rest) = skip_set lex.skipped (getc input) (after input) in
        elim (read_token lex size ch rest) [
          | none ↦ none
          | some (refused code) ↦ some (only_code code)
          | some (stepped s) ↦ followed s (read_from fuel lex s.size s.input)
        ]
  ]

  -- The count includes the zero byte from here on.
  unfoldable pub read_input : ℕ → LexObject → List ℕ → Option ReadResult
  read_input fuel lex input =
      read_from fuel (record lex { na_symbol_length = suc (symbol_length lex) }) lex.buffer_size
        input
