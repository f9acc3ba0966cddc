-- ===== src/Lexer/Comments.antt =====
-- lexer.c: lex_RemoveComments takes the lines away that start with a comment sign.
use script_basic.Common.{
  ℕ, ◌-◌, ◌≡◌, List, [], ◌∷◌, ◌++◌, Bool, true, false, ◌&&◌, ◌||◌, ◌==◌, if◌then◌else◌,
}
use script_basic.Lexer.{a_symbol, character, Lexeme}
use script_basic.Lexer.Filter.{is_new_line, ends_line}

-- The lexemes of a line before its end: none is a character, or has the word 10.
abbrev pub IsInside : List Lexeme → Type 0
IsInside [] = Unit
IsInside (l ∷ ls) = (ends_line l ≡ false) × IsInside ls

abbrev pub AreLines : List (List Lexeme × Lexeme) → Type 0
AreLines [] = Unit
AreLines (line ∷ rest) = IsInside line.0 × (is_new_line line.1 ≡ true) × AreLines rest

-- The lexemes of the lines, with the new lines that end them
abbrev pub program : List (List Lexeme × Lexeme) → List Lexeme
program [] = []
program (line ∷ rest) = line.0 ++ line.1 ∷ program rest

-- The same letter, in either case
abbrev is_letter : ℕ → ℕ → Bool
is_letter c ch = (ch == c) || (ch == c - 32)

-- The word `rem` in any case
abbrev is_rem : List ℕ → Bool
is_rem (a ∷ b ∷ c ∷ []) = is_letter b'r' a && is_letter b'e' b && is_letter b'm' c
is_rem t = false

abbrev is_apostrophe : List ℕ → Bool
is_apostrophe (c ∷ []) = c == 39
is_apostrophe t = false

-- A symbol `rem`, or an apostrophe, as a character or as a symbol
abbrev pub is_remark : Lexeme → Bool
is_remark l = elim l.type [
  | a_symbol ↦ is_rem l.text || is_apostrophe l.text
  | character ↦ l.value == 39
  | _ ↦ false
]

abbrev pub is_comment_line : List Lexeme → Bool
is_comment_line [] = false
is_comment_line (l ∷ ls) = is_remark l

abbrev pub without_comments : List (List Lexeme × Lexeme) → List (List Lexeme × Lexeme)
without_comments [] = []
without_comments (line ∷ rest) =
    if is_comment_line line.0 then without_comments rest else line ∷ without_comments rest
