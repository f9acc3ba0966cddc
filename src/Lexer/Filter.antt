-- ===== src/Lexer/Filter.antt =====
-- lexer.c: the passes over the list of lexemes: comments, skipped symbols, continuation lines.
use script_basic.Common.{
  ℕ, List, [], ◌∷◌, Option, none, some, Bool, true, false, ◌&&◌, ◌||◌, ◌==◌, if◌then◌else◌,
}
use script_basic.Common.Text.{same}
use script_basic.Sym.Name.{to_lower}
use script_basic.Lexer.{a_symbol, character, skip, skip_symbol, Lexeme, new_line}

abbrev pub is_character : Lexeme → Bool
is_character l = elim l.type [ character ↦ true | _ ↦ false ]

abbrev pub is_symbol : Lexeme → Bool
is_symbol l = elim l.type [ a_symbol ↦ true | _ ↦ false ]

abbrev pub is_skipped : Lexeme → Bool
is_skipped l = elim l.type [ skip ↦ true | skip_symbol ↦ true | _ ↦ false ]

abbrev pub is_new_line : Lexeme → Bool
is_new_line l = is_character l && l.value == new_line

-- The lexeme `_` or `'`, as a character or as a symbol
abbrev pub is_sign : ℕ → Lexeme → Bool
is_sign c l = is_character l && l.value == c || is_symbol l && same l.text (c ∷ [])

-- lex_HandleContinuationLines
unfoldable pub handle_continuation_lines : List Lexeme → List Lexeme
handle_continuation_lines [] = []
handle_continuation_lines (l ∷ []) = l ∷ []
handle_continuation_lines (l ∷ n ∷ ls) = elim (is_sign b'_' l && is_new_line n) [
  | true ↦ handle_continuation_lines ls
  | false ↦ l ∷ handle_continuation_lines (n ∷ ls)
]

-- lex_RemoveSkipSymbols. It reads the lexeme after the one that it removes: `none` where there is
-- none.
unfoldable pub remove_skip_symbols : List Lexeme → Option (List Lexeme)
remove_skip_symbols [] = some []
remove_skip_symbols (l ∷ ls) =
    let rest = remove_skip_symbols ls in
    if is_skipped l
    then elim ls [ [] ↦ none | n ∷ ns ↦ rest ]
    else elim rest [ none ↦ none | some ks ↦ some (l ∷ ks) ]

abbrev pub rem : List ℕ
rem = b'r' ∷ b'e' ∷ b'm' ∷ []

-- An apostrophe
abbrev pub apostrophe : ℕ
apostrophe = 39

abbrev pub starts_comment : Lexeme → Bool
starts_comment l = is_symbol l && same (to_lower l.text) rem || is_sign apostrophe l

-- Where the loop of lex_RemoveComments is: before a lexeme that may start a comment, in a comment, or
-- on its way to the next place where there may be one.
pub data Place : Type 0 where
  at_start : Place
  in_comment : Place
  in_line : Place

-- The end of that way, as the code tests it. A string's pointer is no 10, and its word is 0 here.
abbrev pub ends_line : Lexeme → Bool
ends_line l = is_character l || l.value == new_line

-- lex_RemoveComments. A comment goes with the new line that ends it.
unfoldable pub remove_comments : Place → List Lexeme → List Lexeme
remove_comments place [] = []
remove_comments in_comment (l ∷ ls) = elim (is_new_line l) [
  | true ↦ remove_comments at_start ls
  | false ↦ remove_comments in_comment ls
]
remove_comments in_line (l ∷ ls) = elim (ends_line l) [
  | true ↦ l ∷ remove_comments at_start ls
  | false ↦ l ∷ remove_comments in_line ls
]
remove_comments at_start (l ∷ ls) = elim (starts_comment l) [
  | true ↦ remove_comments in_comment ls
  | false ↦ elim (ends_line l) [
    | true ↦ l ∷ remove_comments at_start ls
    | false ↦ l ∷ remove_comments in_line ls
  ]
]
