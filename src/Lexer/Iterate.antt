-- ===== src/Lexer/Iterate.antt =====
-- lexer.c: the iteration over the list of lexemes, and the names of the codes.
use script_basic.Common.{
  ℕ, List, [], ◌∷◌, Option, none, some, Bool, true, false, ◌==◌, if◌then◌else◌,
}
use script_basic.Lexer.{Lexeme, LexNaSymbol, LexObject}

-- pLexResult and pLexCurrentLexeme: a pointer into the list is the list from there on.
pub record Iteration : Type 0 where
  pub result : List Lexeme
  pub current : List Lexeme

unfoldable pub next_lexeme : Iteration → Iteration
next_lexeme m = elim m.current [ [] ↦ m | l ∷ ls ↦ record m { current = ls } ]

unfoldable pub save_position : Iteration → List Lexeme
save_position m = m.current

unfoldable pub restore_position : List Lexeme → Iteration → Iteration
restore_position position m = record m { current = position }

unfoldable pub start_iteration : Iteration → Iteration
start_iteration m = record m { current = m.result }

unfoldable pub at_eof : Iteration → Bool
at_eof m = elim m.current [ [] ↦ true | l ∷ ls ↦ false ]

-- lex_Type, lex_Long and lex_Double, lex_String, lex_StrLen; `none` is a NULL that is followed.
unfoldable pub current_lexeme : Iteration → Option Lexeme
current_lexeme m = elim m.current [ [] ↦ none | l ∷ ls ↦ some l ]

unfoldable pub find_code : ℕ → List LexNaSymbol → Option (List ℕ)
find_code code [] = none
find_code code (n ∷ table) =
    let rest = find_code code table in if n.code == code then some n.symbol else rest

-- lex_SymbolicName, where the tables are there; `none` is the text of an internal error.
unfoldable pub symbolic_name : LexObject → ℕ → Option (Option (List ℕ))
symbolic_name lex code = elim lex.na_symbols [
  | none ↦ none
  | some na ↦ elim lex.a_symbols [
    | none ↦ none
    | some a ↦ some (elim (find_code code na) [
      | some s ↦ some s
      | none ↦ elim (find_code code a) [ some s ↦ some s | none ↦ find_code code lex.c_symbols ]
    ])
  ]
]
