-- ===== src/Lexer/Texts.antt =====
-- lexer.c: a string that is written with its escapes is read back.
use script_basic.Common.{
  ℕ, zero, suc, ◌+◌, ◌-◌, ◌%◌, ◌≤◌, ◌<◌, ◌≡◌, ◌≢◌, ◌⊎◌, refl, inl, inr, ◌∙◌, List, [], ◌∷◌, length,
  some, Bool, true, false, ◌&&◌, ◌||◌, leb, ◌==◌, Bool-cases, arith,
}
use script_basic.Lexer.{LexObject, stepped, eof, new_line, getc, after, isdigit}
use script_basic.Lexer.Strings.{
  grown, stored, replacement, is_escape, read_escape, read_character, simple_string, string_step,
}
use script_basic.Lexer.Read.{read_string}
use script_basic.Lexer.Print.{escaped, quoted, AreCharacters, IsBasic, IsStop}

abbrev pub quote : ℕ
quote = b'"'

no_number : (p h : Bool) → (p && (h && false)) ≡ false
no_number true true = refl
no_number true false = refl
no_number false h = refl

module _ (lex : LexObject) (b : IsBasic lex) where
  escape_here : is_escape lex 92 ≡ true
  escape_here = rw b.escapes refl

  escape_not : (c : ℕ) → c ≢ 92 → is_escape lex c ≡ false
  escape_not c n = rw b.escapes (ground arith)

  -- An escaped character that begins no number
  escape_plain :
      (c : ℕ) (input : List ℕ)
      → isdigit c ≡ false
      → (c == b'x') ≡ false
      → read_escape lex c input ≡ (replacement c b.pairs, getc input, after input)
  unfolding read_escape
  escape_plain c input d x =
      rw d (rw x (rw (no_number lex.process_number lex.process_hex) (rw b.escapes refl)))

  -- The characters that are written, read as what they stand for
  read_plain :
      (c : ℕ) (input : List ℕ) → c ≢ 92 → read_character lex c input ≡ (c, getc input, after input)
  unfolding read_character
  read_plain c input n = rw (escape_not c n) refl

  read_escaped :
      (c r : ℕ) (input : List ℕ)
      → isdigit c ≡ false
      → (c == b'x') ≡ false
      → replacement c b.pairs ≡ r
      → read_character lex 92 (c ∷ input) ≡ (r, getc input, after input)
  unfolding read_character
  read_escaped c r input d x e = rw escape_here (rw (escape_plain c input d x) (rw e refl))

  loop_end :
      (fuel : ℕ) (input : List ℕ)
      → simple_string (suc fuel) lex quote quote input ≡ some ([], quote, input)
  unfolding simple_string
  loop_end fuel input = refl

  loop_next :
      (fuel ch : ℕ) (input : List ℕ)
      → ch ≢ quote
      → ch ≢ eof
      → ch ≢ new_line
      → simple_string (suc fuel) lex quote ch input
        ≡ stored (read_character lex ch input).0 (
            simple_string fuel lex quote
              (read_character lex ch input).1
              (read_character lex ch input).2)
  unfolding simple_string
  loop_next fuel ch input q e n =
      let goes_on : (ch == quote || ch == eof || ch == new_line) ≡ false = ground arith in
      rw (goes_on, simple_string) refl

  -- One written character is read, and the loop goes on after it.
  loop_escaped :
      (fuel c r : ℕ) (next : List ℕ)
      → isdigit c ≡ false
      → (c == b'x') ≡ false
      → replacement c b.pairs ≡ r
      → simple_string (suc fuel) lex quote 92 (c ∷ next)
        ≡ stored r (simple_string fuel lex quote (getc next) (after next))
  loop_escaped fuel c r next d x e =
      loop_next fuel 92 (c ∷ next) (omega arith) (omega arith) (omega arith)
      ∙ rw (read_escaped c r next d x e) refl

  same_again : (c : ℕ) → (c == quote || c == 92) ≡ true → replacement c b.pairs ≡ c
  same_again c e =
      let is_sign : (c ≡ quote) ⊎ (c ≡ 92) = ground (arith, e) in
      elim is_sign [ inl q ↦ rw q b.quote_escaped | inr q ↦ rw q b.escape_escaped ]

  loop_character :
      (fuel c : ℕ) (next : List ℕ)
      → c < 256
      → simple_string (suc fuel) lex quote (getc (escaped c next)) (after (escaped c next))
        ≡ stored c (simple_string fuel lex quote (getc next) (after next))
  loop_character fuel c next lt = elim (Bool-cases (c == quote || c == 92)) [
    | inl e ↦
        rw e (loop_escaped fuel c c next (ground (arith, e)) (ground (arith, e)) (same_again c e))
    | inr e ↦ rw e (elim (Bool-cases (c == 10)) [
      | inl n ↦
          let is_line : c ≡ 10 = ground (arith, n) in
          rw n (rw is_line (loop_escaped fuel b'n' 10 next refl refl b.new_line_escaped))
      | inr n ↦ rw n (
          loop_next fuel c next (ground (arith, e)) (omega (arith, lt)) (ground (arith, n))
          ∙ rw (read_plain c next (ground (arith, e))) refl)
    ])
  ]

  simple_string-quoted :
      (fuel : ℕ) (s rest : List ℕ)
      → AreCharacters s
      → length s < fuel
      → simple_string fuel lex quote (getc (quoted s rest)) (after (quoted s rest))
        ≡ some (s, quote, rest)
  unfolding quoted
  simple_string-quoted zero s rest h lt = absurd (omega arith)
  simple_string-quoted (suc fuel) [] rest h lt = loop_end fuel rest
  simple_string-quoted (suc fuel) (c ∷ s) rest (hc, hs) lt =
      let byte : c % 256 ≡ c = omega arith in
      loop_character fuel c (quoted s rest) hc
      ∙ rw (simple_string-quoted fuel s rest hs (omega arith)) (rw byte refl)

length-quoted : (s rest : List ℕ) → length s < length (quoted s rest)
unfolding quoted
length-quoted [] rest = omega arith
length-quoted (c ∷ s) rest = ground (arith, length-quoted s rest)

-- The string is on one line.
one_line :
    (s rest : List ℕ)
    → IsStop rest
    → (getc (quoted s rest) == quote && getc (after (quoted s rest)) == quote) ≡ false
unfolding quoted
one_line [] rest s = ground arith
one_line (c ∷ s) rest h = ground arith

pub read_string-quoted :
    (lex : LexObject) (size : ℕ) (s rest : List ℕ)
    → IsBasic lex
    → AreCharacters s
    → IsStop rest
    → read_string lex size quote (quoted s rest) ≡ some (stepped (string_step size s quote rest))
unfolding read_string
read_string-quoted lex size s rest b h st =
    rw (one_line s rest st, read_string)
      (rw
        (simple_string-quoted lex b (suc (length (quoted s rest))) s rest h
          (omega (arith, length-quoted s rest)))
        refl)

-- The buffer does not get smaller.
pub grown-above : (fuel size i : ℕ) → size ≤ grown fuel size i
unfolding grown
grown-above zero size i = omega arith
grown-above (suc fuel) size i = elim (Bool-cases (leb (size - 1) i)) [
  | inl e ↦ rw (e, grown) (omega (arith, grown-above fuel (size + 1024) i))
  | inr e ↦ rw (e, grown) (omega arith)
]
