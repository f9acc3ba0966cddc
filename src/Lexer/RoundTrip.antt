-- ===== src/Lexer/RoundTrip.antt =====
-- lexer.c: lex_ReadInput reads the tokens that a program is written with.
use script_basic.Common.{
  ℕ, zero, suc, ◌+◌, ◌≤◌, ◌<◌, ◌≡◌, ◌≢◌, ◌⊎◌, refl, inl, inr, ap, ◌∙◌, List, [], ◌∷◌, ◌++◌, length,
  Option, none, some, true, false, ◌||◌, ◌==◌, arith,
}
use script_basic.Lexer.{LexObject, Step, stepped, eof, getc, after, isinset, isdigit}
use script_basic.Lexer.Symbols.{skip_set, symbol_lexeme}
use script_basic.Lexer.Numbers.{Doubles, is_hex_start}
use script_basic.Lexer.Strings.{grown}
use script_basic.Lexer.Read.{
  other_token, read_token, ReadResult, followed, only_code, read_from, read_input, symbol_length,
}
use script_basic.Lexer.Print.{
  Token, name, number, text, quoted, digits, show, print, AreDigits, lexeme_of, lexemes_of, IsToken,
  AreTokens, IsBasic, IsStop,
}
use script_basic.Lexer.Names.{read_symbol-name}
use script_basic.Lexer.Texts.{quote, read_string-quoted, grown-above}
use script_basic.Lexer.Integers.{IsExact, read_decimal-digits}

-- After the token's lexeme the reading goes on with what follows, or with the stop put back.
record Reads (f : Doubles) (lex : LexObject) (size : ℕ) (t : Token) (rest : List ℕ) : Type 0 where
  size_after : ℕ
  enough : size ≤ size_after
  input : List ℕ
  goes_on : (input ≡ rest) ⊎ (input ≡ getc rest ∷ after rest)
  reads :
      read_token f lex size (getc (show t rest)) (after (show t rest))
      ≡ some (
          stepped (record {
            found = some (lexeme_of lex t);
            input = input;
            size = size_after;
            reports = [];
          }))

digit_or_stop :
    (ds rest : List ℕ)
    → AreDigits ds
    → IsStop rest
    → (getc (digits ds rest) < 58) ⊎ (getc (digits ds rest) ≡ eof)
unfolding digits
digit_or_stop [] rest h s = ground arith
digit_or_stop (d ∷ ds) rest h s = inl (omega (arith, h.0))

no_hex_start : (d c : ℕ) → d < 10 → (c < 58) ⊎ (c ≡ eof) → is_hex_start (48 + d) c ≡ false
no_hex_start d c lt h = ground arith

read_token-Reads :
    (f : Doubles) (x : IsExact f) (lex : LexObject) (b : IsBasic lex) (size : ℕ) (t : Token)
    (rest : List ℕ)
    → IsToken lex t
    → IsStop rest
    → 1024 ≤ size
    → Reads f lex size t rest
unfolding read_token other_token show lexeme_of digits
read_token-Reads f x lex b size (name c w) rest (st, co, sk, ne, ir, lt) stop ls = record {
  size_after = size;
  enough = omega arith;
  input = getc rest ∷ after rest;
  goes_on = inr refl;
  reads =
      let symbol = read_symbol-name lex size c w rest b co ir stop (omega arith) in
      rw st (rw symbol (ap (λ s. some (stepped s)) symbol));
}
read_token-Reads f x lex b size (number d ds) rest (hd, hs, lt) stop ls =
    let no_hex : is_hex_start (48 + d) (getc (digits ds rest)) ≡ false =
      no_hex_start d (getc (digits ds rest)) hd (digit_or_stop ds rest hs stop) in
    let is_digit : (isdigit (48 + d) || 48 + d == b'.') ≡ true = ground arith in
    record {
      size_after = size;
      enough = omega arith;
      input = getc rest ∷ after rest;
      goes_on = inr refl;
      reads = rw (b.digit_no_symbol d hd) (
          rw (b.digit_no_string d hd) (
            rw no_hex
              (rw is_digit (rw (read_decimal-digits f x size d ds rest hd hs stop lt) refl))));
    }
read_token-Reads f x lex b size (text s) rest h stop ls = record {
  size_after = grown (suc (length s)) size (length s);
  enough = grown-above (suc (length s)) size (length s);
  input = rest;
  goes_on = inl refl;
  reads =
      rw b.quote_no_symbol
        (rw b.quote_starts (rw (read_string-quoted lex size s rest b h stop) refl));
}

skip_stop :
    (set : List ℕ) (ch : ℕ) (input : List ℕ)
    → isinset ch set ≡ false
    → skip_set set ch input ≡ (ch, input)
unfolding skip_set
skip_stop set ch [] e = rw e refl
skip_stop set ch (c ∷ input) e = rw e refl

module _ (f : Doubles) (lex : LexObject) where
  -- A stop that was given back is read as if it had not been read.
  put_back :
      (fuel size : ℕ) (input rest : List ℕ)
      → (input ≡ rest) ⊎ (input ≡ getc rest ∷ after rest)
      → read_from f (suc fuel) lex size input ≡ read_from f (suc fuel) lex size rest
  unfolding read_from
  put_back fuel size input rest (inl e) = rw e refl
  put_back fuel size input [] (inr e) = rw e refl
  put_back fuel size input (c ∷ rest) (inr e) = rw e refl

  read_space :
      (fuel size c : ℕ) (input : List ℕ)
      → IsBasic lex
      → isinset c lex.skipped ≡ false
      → c ≢ eof
      → read_from f (suc fuel) lex size (32 ∷ c ∷ input)
        ≡ read_from f (suc fuel) lex size (c ∷ input)
  unfolding read_from skip_set
  read_space fuel size c input b s n =
      let some_c : (c == eof) ≡ false = ground arith in
      rw (b.space_skipped, read_from)
        (rw (some_c, read_from) (rw (skip_stop lex.skipped c input s) refl))

  -- The first character of a token
  first_character :
      (t : Token) (rest : List ℕ)
      → IsBasic lex
      → IsToken lex t
      → (isinset (getc (show t rest)) lex.skipped ≡ false) × (getc (show t rest) ≢ eof)
  unfolding show digits
  first_character (name c w) rest b (st, co, sk, ne, ir, lt) = (sk, ne)
  first_character (number d ds) rest b (hd, hs, lt) =
      (b.digit_not_skipped d hd, λ e. absurd (omega (arith, e, hd)))
  first_character (text s) rest b h = (b.quote_not_skipped, λ e. absurd (omega (arith, e)))

  read_space_show :
      (fuel size : ℕ) (t : Token) (rest : List ℕ)
      → IsBasic lex
      → IsToken lex t
      → read_from f (suc fuel) lex size (32 ∷ show t rest)
        ≡ read_from f (suc fuel) lex size (show t rest)
  unfolding show digits
  read_space_show fuel size (name c w) rest b h = read_space fuel size c (w ++ rest) b h.2 h.3
  read_space_show fuel size (number d ds) rest b h =
      let first = first_character (number d ds) rest b h in
      read_space fuel size (48 + d) (digits ds rest) b first.0 first.1
  read_space_show fuel size (text s) rest b h =
      read_space fuel size quote (quoted s rest) b b.quote_not_skipped
        (λ e. absurd (omega (arith, e)))

  abbrev token_before : Token → Option ReadResult → Option ReadResult
  token_before t none = none
  token_before t (some r) = some (record r { lexemes = lexeme_of lex t ∷ r.lexemes })

  abbrev token_step : Token → ℕ → List ℕ → Step
  token_step t size input = record {
    found = some (lexeme_of lex t);
    input = input;
    size = size;
    reports = [];
  }

  followed-token_before :
      (t : Token) (size : ℕ) (input : List ℕ) (o : Option ReadResult)
      → followed (token_step t size input) o ≡ token_before t o
  followed-token_before t size input none = refl
  followed-token_before t size input (some r) = refl

  read_next :
      (fuel size : ℕ) (input : List ℕ) (s : Step)
      → (getc input == eof) ≡ false
      → isinset (getc input) lex.skipped ≡ false
      → read_token f lex size (getc input) (after input) ≡ some (stepped s)
      → read_from f (suc fuel) lex size input ≡ followed s (read_from f fuel lex s.size s.input)
  unfolding read_from
  read_next fuel size input s e k t =
      rw (e, read_from) (rw (skip_stop lex.skipped (getc input) (after input) k) (rw t refl))

  read_end : (fuel size : ℕ) → read_from f (suc fuel) lex size [] ≡ some (only_code 0)
  unfolding read_from
  read_end fuel size = refl

  read_space_print :
      (fuel size : ℕ) (t : Token) (ts : List Token)
      → IsBasic lex
      → IsToken lex t
      → read_from f (suc fuel) lex size (32 ∷ print (t ∷ ts))
        ≡ read_from f (suc fuel) lex size (print (t ∷ ts))
  unfolding print
  read_space_print fuel size t [] b h = read_space_show fuel size t [] b h
  read_space_print fuel size t (u ∷ ts) b h = read_space_show fuel size t (32 ∷ print (u ∷ ts)) b h

  read_from_token :
      (x : IsExact f) (b : IsBasic lex) (fuel size : ℕ) (t : Token) (rest : List ℕ)
      → IsToken lex t
      → IsStop rest
      → 1024 ≤ size
      → (size' : ℕ) × (size ≤ size')
        × (read_from f (suc (suc fuel)) lex size (show t rest)
            ≡ token_before t (read_from f (suc fuel) lex size' rest))
  read_from_token x b fuel size t rest h stop ls =
      let token = read_token-Reads f x lex b size t rest h stop ls in
      let first = first_character t rest b h in
      let some_c : (getc (show t rest) == eof) ≡ false = ground (arith, first.1) in
      (
        token.size_after,
        token.enough,
        read_next (suc fuel) size (show t rest) _ some_c first.0 token.reads
            ∙ ap (followed (token_step t token.size_after token.input))
                (put_back fuel token.size_after token.input rest token.goes_on)
            ∙ followed-token_before t token.size_after token.input _,
      )

  read_tokens :
      (x : IsExact f) (b : IsBasic lex) (fuel size : ℕ) (ts : List Token)
      → AreTokens lex ts
      → 1024 ≤ size
      → length ts < fuel
      → read_from f fuel lex size (print ts)
        ≡ some (record { code = 0; lexemes = lexemes_of lex ts; reports = [] })
  unfolding print
  read_tokens x b zero size ts h ls lt = absurd (omega arith)
  read_tokens x b (suc fuel) size [] h ls lt = read_end fuel size
  read_tokens x b (suc zero) size (t ∷ ts) h ls lt = absurd (omega arith)
  read_tokens x b (suc (suc fuel)) size (t ∷ []) h ls lt =
      let token = read_from_token x b fuel size t [] h.0 (inr refl) ls in
      token.2 ∙ ap (token_before t) (read_end fuel token.0)
  read_tokens x b (suc (suc fuel)) size (t ∷ u ∷ ts) h ls lt =
      let token = read_from_token x b fuel size t (32 ∷ print (u ∷ ts)) h.0 (inl refl) ls in
      let space = read_space_print fuel token.0 u ts b h.1.0 in
      let rest =
        read_tokens x b (suc fuel) token.0 (u ∷ ts) h.1 (omega (arith, ls, token.1))
          (omega (arith, lt)) in
      token.2 ∙ ap (token_before t) (space ∙ rest)

-- The settings with the count that lex_ReadInput raises first
abbrev counted : LexObject → LexObject
counted lex = record lex { na_symbol_length = suc (symbol_length lex) }

IsBasic-counted : (lex : LexObject) → IsBasic lex → IsBasic (counted lex)
IsBasic-counted lex b = record {
  space_skipped = b.space_skipped;
  space_ends = b.space_ends;
  eof_ends = b.eof_ends;
  quote_starts = b.quote_starts;
  quote_no_symbol = b.quote_no_symbol;
  quote_not_skipped = b.quote_not_skipped;
  digit_no_symbol = b.digit_no_symbol;
  digit_no_string = b.digit_no_string;
  digit_not_skipped = b.digit_not_skipped;
  pairs = b.pairs;
  escapes = b.escapes;
  quote_escaped = b.quote_escaped;
  escape_escaped = b.escape_escaped;
  new_line_escaped = b.new_line_escaped;
}

IsToken-counted : (lex : LexObject) (t : Token) → IsToken lex t → IsToken (counted lex) t
IsToken-counted lex (name c w) h = h
IsToken-counted lex (number d ds) h = h
IsToken-counted lex (text s) h = h

AreTokens-counted :
    (lex : LexObject) (ts : List Token) → AreTokens lex ts → AreTokens (counted lex) ts
AreTokens-counted lex [] h = tt
AreTokens-counted lex (t ∷ ts) h = (IsToken-counted lex t h.0, AreTokens-counted lex ts h.1)

lexeme_of-counted : (lex : LexObject) (t : Token) → lexeme_of (counted lex) t ≡ lexeme_of lex t
unfolding lexeme_of symbol_lexeme
lexeme_of-counted lex (name c w) = refl
lexeme_of-counted lex (number d ds) = refl
lexeme_of-counted lex (text s) = refl

lexemes_of-counted :
    (lex : LexObject) (ts : List Token) → lexemes_of (counted lex) ts ≡ lexemes_of lex ts
lexemes_of-counted lex [] = refl
lexemes_of-counted lex (t ∷ ts) = rw (lexeme_of-counted lex t) (rw (lexemes_of-counted lex ts) refl)

-- With `double` arithmetic that is exact on integers below 2 ^ 53, with settings that tell spaces,
-- digits and quotes from the characters of symbols, and with a buffer of at least 1024 bytes,
-- lex_ReadInput reads the text of any list of tokens (names of at most 1022 characters, integers
-- below 2 ^ 53, strings of any bytes, written with escapes), with a space between them, as the
-- lexemes of these tokens, returns 0 and reports no error; fuel above the number of the tokens is
-- enough.
pub read_input-print :
    (f : Doubles) (lex : LexObject) (ts : List Token) (fuel : ℕ)
    → IsExact f
    → IsBasic lex
    → AreTokens lex ts
    → 1024 ≤ lex.buffer_size
    → length ts < fuel
    → read_input f fuel lex (print ts)
      ≡ some (record { code = 0; lexemes = lexemes_of lex ts; reports = [] })
unfolding read_input
read_input-print f lex ts fuel x b h ls lt =
    read_tokens f (counted lex) x (IsBasic-counted lex b) fuel lex.buffer_size ts
      (AreTokens-counted lex ts h) ls lt
    ∙ ap (λ ls. some (record { code = 0; lexemes = ls; reports = [] })) (lexemes_of-counted lex ts)
