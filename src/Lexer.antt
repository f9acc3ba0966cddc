-- ===== src/Lexer.antt =====
-- lexer.c: the lexical analyser's settings and its input. A character of the input is an `int` of 32
-- bits, so that EOF is 2 ^ 32 - 1; the input and the characters that were given back are one list.
mod Symbols
mod Numbers
mod Strings
mod Read
mod Print
mod Names
mod Texts
mod Integers
mod RoundTrip
mod Filter
mod Comments
mod Iterate
mod Examples
use script_basic.Common.{
  ℕ, zero, suc, ◌+◌, ◌-◌, ◌*◌, ◌%◌, ◌^◌, List, [], ◌∷◌, ◌++◌, length, Option, none, some, Bool,
  true, false, not, ◌&&◌, ◌||◌, ltb, leb, ◌==◌, if◌then◌else◌,
}

-- enum LexemeType
pub data LexemeType : Type 0 where
  double : LexemeType
  long : LexemeType
  string : LexemeType
  a_symbol : LexemeType
  n_symbol : LexemeType
  character : LexemeType
  skip : LexemeType
  skip_symbol : LexemeType

-- Lexeme: the word of the union `value`, the characters of the string it may point to, and sLen.
pub record Lexeme : Type 0 where
  pub type : LexemeType
  pub value : ℕ
  pub text : List ℕ
  pub length : ℕ

-- LexNASymbol; a table of them ends before its NULL symbol.
pub record LexNaSymbol : Type 0 where
  pub symbol : List ℕ
  pub code : ℕ

-- The settings of a LexObject that are read here. A table that is NULL is `none`.
pub record LexObject : Type 0 where
  pub start_symbol : List ℕ
  pub continue_symbol : List ℕ
  pub final_symbol : List ℕ
  pub start_string : List ℕ
  pub skipped : List ℕ
  pub escapes : List ℕ
  pub process_number : Bool
  pub process_octal : Bool
  pub process_hex : Bool
  pub case_sensitive : Bool
  pub buffer_size : ℕ
  pub na_symbols : Option (List LexNaSymbol)
  pub na_symbol_length : ℕ
  pub a_symbols : Option (List LexNaSymbol)
  pub c_symbols : List LexNaSymbol

abbrev pub eof : ℕ
eof = 2 ^ 32 - 1

abbrev pub new_line : ℕ
new_line = 10

-- A `char` of the buffer as an `int`: it is signed.
abbrev pub from_char : ℕ → ℕ
from_char c = let b = c % 256 in if ltb b 128 then b else b + (2 ^ 32 - 256)

-- __GETC, and __UNGETC, whose character is read next.
abbrev pub getc : List ℕ → ℕ
getc [] = eof
getc (c ∷ input) = c

abbrev pub after : List ℕ → List ℕ
after [] = []
after (c ∷ input) = input

-- A string of the settings has no zero byte and no character above 127.
abbrev pub isinset : ℕ → List ℕ → Bool
isinset ch [] = false
isinset ch (c ∷ set) = ch == c || isinset ch set

abbrev pub isdigit : ℕ → Bool
isdigit ch = leb 48 ch && leb ch 57

abbrev pub islower : ℕ → Bool
islower ch = leb 97 ch && leb ch 122

abbrev pub isupper : ℕ → Bool
isupper ch = leb 65 ch && leb ch 90

abbrev pub upper_letters : List ℕ
upper_letters =
    81 ∷ 87 ∷ 69 ∷ 82 ∷ 84 ∷ 90 ∷ 85 ∷ 73 ∷ 79 ∷ 80 ∷ 65 ∷ 83 ∷ 68 ∷ 70 ∷ 71 ∷ 72 ∷ 74 ∷ 75 ∷ 76
    ∷ 89 ∷ 88 ∷ 67 ∷ 86 ∷ 66 ∷ 78 ∷ 77 ∷ []

abbrev pub lower_letters : List ℕ
lower_letters =
    113 ∷ 119 ∷ 101 ∷ 114 ∷ 116 ∷ 122 ∷ 117 ∷ 105 ∷ 111 ∷ 112 ∷ 97 ∷ 115 ∷ 100 ∷ 102 ∷ 103 ∷ 104
    ∷ 106 ∷ 107 ∷ 108 ∷ 121 ∷ 120 ∷ 99 ∷ 118 ∷ 98 ∷ 110 ∷ 109 ∷ []

abbrev pub digit_characters : List ℕ
digit_characters = 49 ∷ 50 ∷ 51 ∷ 52 ∷ 53 ∷ 54 ∷ 55 ∷ 56 ∷ 57 ∷ 48 ∷ []

-- What is made of a piece of the input: a lexeme or none, the input after it, the size of the buffer
-- then, and the codes that were reported.
pub record Step : Type 0 where
  pub found : Option Lexeme
  pub input : List ℕ
  pub size : ℕ
  pub reports : List ℕ

-- The reading goes on, or ends with an error code.
pub data Outcome : Type 0 where
  stepped : Step → Outcome
  refused : ℕ → Outcome

-- lex_InitStructure, where there is memory for the buffer
unfoldable pub init_structure : LexObject
init_structure = record {
  start_symbol = upper_letters ++ lower_letters ++ 95 ∷ 58 ∷ 36 ∷ [];
  continue_symbol = upper_letters ++ lower_letters ++ 95 ∷ digit_characters ++ 58 ∷ 36 ∷ [];
  final_symbol = upper_letters ++ lower_letters ++ 95 ∷ digit_characters ++ 36 ∷ [];
  start_string = 34 ∷ [];
  skipped = 32 ∷ 9 ∷ 13 ∷ [];
  escapes = 92 ∷ 110 ∷ 10 ∷ 116 ∷ 9 ∷ 114 ∷ 13 ∷ 34 ∷ 34 ∷ 39 ∷ 39 ∷ [];
  process_number = true;
  process_octal = true;
  process_hex = true;
  case_sensitive = false;
  buffer_size = 1024;
  na_symbols = none;
  na_symbol_length = 0;
  a_symbols = none;
  c_symbols = [];
}
