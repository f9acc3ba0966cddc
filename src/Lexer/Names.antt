-- ===== src/Lexer/Names.antt =====
-- lexer.c: a name is read as the symbol that it is.
use script_basic.Common.{
  ℕ, zero, suc, ◌+◌, ◌-◌, ◌<◌, ◌≡◌, refl, inl, inr, ap, List, [], ◌∷◌, ◌++◌, length, some, true,
  false, ◌==◌, arith,
}
use script_basic.Lexer.{LexObject, getc, after, isinset}
use script_basic.Lexer.Symbols.{take_symbol, kept_back, give_back, symbol_lexeme, read_symbol}
use script_basic.Lexer.Print.{IsRest, IsBasic, IsStop}

module _ (lex : LexObject) where
  pub stop_ends :
      (rest : List ℕ) → IsBasic lex → IsStop rest → isinset (getc rest) lex.continue_symbol ≡ false
  stop_ends rest b (inl e) = rw e b.space_ends
  stop_ends rest b (inr e) = rw e b.eof_ends

  take_symbol_stop :
      (room ch : ℕ) (input : List ℕ)
      → isinset ch lex.continue_symbol ≡ false
      → take_symbol room lex.continue_symbol ch input ≡ ([], ch, input)
  unfolding take_symbol
  take_symbol_stop zero ch input e = refl
  take_symbol_stop (suc room) ch input e = rw (e, take_symbol) refl

  take_symbol-rest :
      (room c : ℕ) (w rest : List ℕ)
      → isinset c lex.continue_symbol ≡ true
      → IsRest lex.continue_symbol lex.final_symbol c w
      → isinset (getc rest) lex.continue_symbol ≡ false
      → length w < room
      → take_symbol room lex.continue_symbol c (w ++ rest) ≡ (c ∷ w, getc rest, after rest)
  unfolding take_symbol
  take_symbol-rest zero c w rest e h s lt = absurd (omega arith)
  take_symbol-rest (suc room) c [] rest e h s lt =
      rw (e, take_symbol) (rw (take_symbol_stop room (getc rest) (after rest) s) refl)
  take_symbol-rest (suc room) c (d ∷ w) rest e h s lt =
      rw (e, take_symbol) (rw (take_symbol-rest room d w rest h.0 h.1 s (omega arith)) refl)

  give_back-rest :
      (c : ℕ) (w input : List ℕ)
      → IsRest lex.continue_symbol lex.final_symbol c w
      → give_back lex.final_symbol (c ∷ w) input ≡ (c ∷ w, input)
  unfolding give_back
  give_back-rest c [] input h = rw h refl
  give_back-rest c (d ∷ w) input h =
      ap (kept_back lex.final_symbol c) (give_back-rest d w input h.1)

  pub read_symbol-name :
      (size c : ℕ) (w rest : List ℕ)
      → IsBasic lex
      → isinset c lex.continue_symbol ≡ true
      → IsRest lex.continue_symbol lex.final_symbol c w
      → IsStop rest
      → length w + 2 < size
      → read_symbol lex size c (w ++ rest) ≡ record {
        found = some (symbol_lexeme lex (c ∷ w));
        input = getc rest ∷ after rest;
        size = size;
        reports = [];
      }
  unfolding read_symbol
  read_symbol-name size c w rest b e h s lt =
      let short : (length (c ∷ w) == size - 1) ≡ false = ground arith in
      rw (take_symbol-rest (size - 1) c w rest e h (stop_ends rest b s) (omega arith))
        (rw short (rw (give_back-rest c w (getc rest ∷ after rest) h) refl))
