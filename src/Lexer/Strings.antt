-- ===== src/Lexer/Strings.antt =====
-- lexer.c: what lex_ReadInput makes of a string, on one line or on more.
use script_basic.Common.{
  ℕ, zero, suc, ◌+◌, ◌-◌, ◌*◌, ◌%◌, List, [], ◌∷◌, length, Option, none, some, Bool, true, false,
  ◌&&◌, ◌||◌, leb, ◌==◌, if◌then◌else◌,
}
use script_basic.Lexer.{string, Lexeme, LexObject, Step, eof, new_line, getc, after, isdigit}
use script_basic.Lexer.Numbers.{digit_value, is_hex_digit}

abbrev pub error_not_terminated : ℕ
error_not_terminated = 74

abbrev pub error_string_new_line : ℕ
error_string_new_line = 75

-- The size of the buffer when a character is stored at this index; it grows until there is room.
unfoldable pub grown : ℕ → ℕ → ℕ → ℕ
grown zero size i = size
grown (suc fuel) size i = elim (leb (size - 1) i) [
  | true ↦ grown fuel (size + 1024) i
  | false ↦ size
]

-- The loop on the digits of a character's number.
unfoldable pub escape_digits : ℕ → ℕ → ℕ → List ℕ → ℕ × ℕ × List ℕ
escape_digits base n ch [] =
    if isdigit ch || base == 16 && is_hex_digit ch
    then (base * n + digit_value ch, eof, [])
    else (n, ch, [])
escape_digits base n ch (c ∷ input) =
    let rest = escape_digits base (base * n + digit_value ch) c input in
    if isdigit ch || base == 16 && is_hex_digit ch then rest else (n, ch, c ∷ input)

-- The replacement of an escaped character: after the escape character, every second one is replaced
-- by the one that follows it.
unfoldable pub replacement : ℕ → List ℕ → ℕ
replacement ch [] = ch
replacement ch (c ∷ []) = if c == ch then 0 else ch
replacement ch (c ∷ r ∷ pairs) = let rest = replacement ch pairs in if c == ch then r else rest

abbrev pub is_escape : LexObject → ℕ → Bool
is_escape lex ch = elim lex.escapes [ [] ↦ ch == 0 | c ∷ pairs ↦ ch == c ]

abbrev pub replacements : LexObject → List ℕ
replacements lex = elim lex.escapes [ [] ↦ [] | c ∷ pairs ↦ pairs ]

-- The character that an escape stands for, the one at hand after it, and the input.
unfoldable pub read_escape : LexObject → ℕ → List ℕ → ℕ × ℕ × List ℕ
read_escape lex ch input =
    let hex = ch == b'x' in
    let base = if hex then 16 else (if lex.process_octal && ch == b'0' then 8 else 10) in
    let first = if hex then getc input else ch in
    let rest = if hex then after input else input in
    if lex.process_number && (isdigit ch || lex.process_hex && hex)
    then escape_digits base 0 first rest
    else (replacement ch (replacements lex), getc input, after input)

-- One character of a string: what is stored, the character at hand then, and the input.
unfoldable pub read_character : LexObject → ℕ → List ℕ → ℕ × ℕ × List ℕ
read_character lex ch input =
    if is_escape lex ch
    then read_escape lex (getc input) (after input)
    else (ch, getc input, after input)

abbrev pub stored : ℕ → Option (List ℕ × ℕ × List ℕ) → Option (List ℕ × ℕ × List ℕ)
stored c none = none
stored c (some (chars, end, rest)) = some (c % 256 ∷ chars, end, rest)

-- The loop of a string on one line: its characters, how it ended, and the input.
unfoldable pub simple_string : ℕ → LexObject → ℕ → ℕ → List ℕ → Option (List ℕ × ℕ × List ℕ)
simple_string zero lex quote ch input = none
simple_string (suc fuel) lex quote ch input = elim (ch == quote || ch == eof || ch == new_line) [
  | true ↦ some ([], ch, input)
  | false ↦
      let (c, ch', input') = read_character lex ch input in
      stored c (simple_string fuel lex quote ch' input')
]

-- The lexeme of a string, the end of which is in the buffer as well.
abbrev pub string_lexeme : List ℕ → Lexeme
string_lexeme chars = record { type = string; value = 0; text = chars; length = length chars }

-- The new line that ends a string is not given back.
abbrev pub string_step : ℕ → List ℕ → ℕ → List ℕ → Step
string_step size chars end rest = record {
  found = some (string_lexeme chars);
  input = rest;
  size = grown (suc (length chars)) size (length chars);
  reports =
      if end == eof
      then error_not_terminated ∷ []
      else (if end == new_line then error_string_new_line ∷ [] else []);
}
