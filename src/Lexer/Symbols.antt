-- ===== src/Lexer/Symbols.antt =====
-- lexer.c: what lex_ReadInput makes of a symbol, of letters or of other characters.
use script_basic.Common.{
  ℕ, zero, suc, ◌+◌, ◌-◌, List, [], ◌∷◌, length, take, drop, Option, none, some, Bool, true, false,
  ◌==◌, if◌then◌else◌, ltb, ◌%◌, ◌^◌,
}
use script_basic.Common.Text.{same}
use script_basic.Sym.Name.{to_lower}
use script_basic.Lexer.{
  a_symbol, n_symbol, character, Lexeme, LexNaSymbol, LexObject, Step, eof, from_char, getc, after,
  isinset,
}

abbrev pub error_too_long_symbol : ℕ
error_too_long_symbol = 73

-- The loop that fills the buffer: its characters, the one that is at hand then, and the input.
unfoldable pub take_symbol : ℕ → List ℕ → ℕ → List ℕ → List ℕ × ℕ × List ℕ
take_symbol zero set ch input = ([], ch, input)
take_symbol (suc room) set ch input = elim (isinset ch set) [
  | false ↦ ([], ch, input)
  | true ↦
      let (chars, ch', input') = take_symbol room set (getc input) (after input) in
      (ch ∷ chars, ch', input')
]

-- `while( isinset(ch,set) )ch = GETC();`
unfoldable pub skip_set : List ℕ → ℕ → List ℕ → ℕ × List ℕ
skip_set set ch [] = if isinset ch set then (eof, []) else (ch, [])
skip_set set ch (c ∷ input) =
    let skipped = skip_set set c input in if isinset ch set then skipped else (ch, c ∷ input)

-- A character before those that are kept; one that may not be the last is given back.
abbrev pub kept_back : List ℕ → ℕ → List ℕ × List ℕ → List ℕ × List ℕ
kept_back set c ([], input) = if isinset c set then (c ∷ [], input) else ([], from_char c ∷ input)
kept_back set c (k ∷ ks, input) = (c ∷ k ∷ ks, input)

-- The characters up to the last that may end a symbol; the others are given back.
unfoldable pub give_back : List ℕ → List ℕ → List ℕ → List ℕ × List ℕ
give_back set [] input = ([], input)
give_back set (c ∷ chars) input = kept_back set c (give_back set chars input)

-- `strcmp`, or `stricmp` where the case of letters does not matter
abbrev pub same_symbol : Bool → List ℕ → List ℕ → Bool
same_symbol case s t = if case then same s t else same (to_lower s) (to_lower t)

unfoldable pub find_symbol : Bool → List ℕ → List LexNaSymbol → Option ℕ
find_symbol case s [] = none
find_symbol case s (n ∷ table) =
    let rest = find_symbol case s table in if same_symbol case s n.symbol then some n.code else rest

abbrev pub code_lexeme : ℕ → Lexeme
code_lexeme code = record { type = n_symbol; value = code; text = []; length = 0 }

abbrev pub name_lexeme : List ℕ → Lexeme
name_lexeme s = record { type = a_symbol; value = 0; text = s; length = 0 }

-- The lexeme of a symbol that is in the buffer
unfoldable pub symbol_lexeme : LexObject → List ℕ → Lexeme
symbol_lexeme lex s = elim lex.a_symbols [
  | none ↦ name_lexeme s
  | some table ↦ elim (find_symbol lex.case_sensitive s table) [
    | none ↦ name_lexeme s
    | some code ↦ code_lexeme code
  ]
]

-- PROCESS A SYMBOL, at a character that starts one. Where all is given back there is no lexeme.
unfoldable pub read_symbol : LexObject → ℕ → ℕ → List ℕ → Step
read_symbol lex size ch input =
    let room = size - 1 in
    let (chars, ch', input') = take_symbol room lex.continue_symbol ch input in
    let too_long = length chars == room in
    let (ch'', input'') =
      if too_long then skip_set lex.continue_symbol ch' input' else (ch', input') in
    let (kept, rest) = give_back lex.final_symbol chars (ch'' ∷ input'') in
    record {
      found = elim kept [ [] ↦ none | k ∷ ks ↦ some (symbol_lexeme lex (k ∷ ks)) ];
      input = rest;
      size = size;
      reports = if too_long then error_too_long_symbol ∷ [] else [];
    }

-- So many characters with GETC.
unfoldable pub get_characters : ℕ → List ℕ → List ℕ × List ℕ
get_characters zero input = ([], input)
get_characters (suc k) input =
    let (chars, rest) = get_characters k (after input) in (getc input % 256 ∷ chars, rest)

-- `!strncmp(pLex->buffer,pNA->Symbol,strlen(pNA->Symbol))`, for a symbol with no zero byte
abbrev pub starts_with : List ℕ → List ℕ → Bool
starts_with chars s = same (take (length s) chars) s

unfoldable pub find_start : List ℕ → List LexNaSymbol → Option LexNaSymbol
find_start chars [] = none
find_start chars (n ∷ table) =
    let rest = find_start chars table in if starts_with chars n.symbol then some n else rest

unfoldable pub unget_all : List ℕ → List ℕ → List ℕ
unget_all [] input = input
unget_all (c ∷ chars) input = from_char c ∷ unget_all chars input

-- A `char` that is stored in a `long`
abbrev pub long_of_char : ℕ → ℕ
long_of_char c = if ltb c 128 then c else c + (2 ^ 64 - 256)

abbrev pub character_lexeme : ℕ → Lexeme
character_lexeme c = record { type = character; value = long_of_char c; text = []; length = 0 }

-- PROCESS A NON ALPHA SYMBOL. The length counts the zero byte, and was raised by one.
unfoldable pub read_na_symbol : LexObject → ℕ → ℕ → List ℕ → Step
read_na_symbol lex size ch input = elim lex.na_symbols [
  | none ↦ record { found = none; input = input; size = size; reports = [] }
  | some table ↦
      let (chars, input') = get_characters (lex.na_symbol_length - 2) input in
      let buffer = ch % 256 ∷ chars in
      elim (find_start buffer table) [
        | some n ↦ record {
          found = some (code_lexeme n.code);
          input = unget_all (drop (length n.symbol) buffer) input';
          size = size;
          reports = [];
        }
        | none ↦ record {
          found = some (character_lexeme (ch % 256));
          input = unget_all chars input';
          size = size;
          reports = [];
        }
      ]
]
