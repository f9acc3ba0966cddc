-- ===== src/Lexer/Numbers.antt =====
-- lexer.c: what lex_ReadInput makes of a number. `double` arithmetic is a parameter.
use script_basic.Common.{
  ℕ, zero, suc, ◌+◌, ◌-◌, ◌*◌, ◌/◌, ◌%◌, List, [], ◌∷◌, some, Bool, true, false, ◌&&◌, ◌||◌, leb,
  ltb, ◌==◌, if◌then◌else◌, long_mod,
}
use script_basic.Lexer.{
  double, long, Lexeme, Outcome, stepped, refused, eof, getc, after, isdigit, islower, isupper,
}

-- The operations on `double` that the code uses; `to_long` cuts the fraction off, and `bits` is the
-- word that stores the number.
pub record Doubles : Type 1 where
  pub Double : Type 0
  pub of_int : ℕ → Double
  pub tenth : Double
  pub add : Double → Double → Double
  pub mul : Double → Double → Double
  pub inverse : Double → Double
  pub negate : Double → Double
  pub is_less : Double → Double → Bool
  pub to_long : Double → ℕ
  pub bits : Double → ℕ

abbrev pub error_bad_radix : ℕ
error_bad_radix = 76

abbrev pub error_invalid_number : ℕ
error_invalid_number = 77

abbrev pub is_hex_digit : ℕ → Bool
is_hex_digit ch = isdigit ch || (leb 65 ch && leb ch 70) || (leb 97 ch && leb ch 102)

abbrev pub is_letter_digit : ℕ → Bool
is_letter_digit ch = isdigit ch || isupper ch || islower ch

-- What a digit or a letter stands for
abbrev pub digit_value : ℕ → ℕ
digit_value ch = if isdigit ch then ch - 48 else (if islower ch then ch - 87 else ch - 55)

-- The loop on hexadecimal digits: the number, the character at hand then, and the input.
unfoldable pub hex_digits : ℕ → ℕ → List ℕ → ℕ × ℕ × List ℕ
hex_digits n ch [] =
    if is_hex_digit ch then ((16 * n + digit_value ch) % long_mod, eof, []) else (n, ch, [])
hex_digits n ch (c ∷ input) =
    let rest = hex_digits ((16 * n + digit_value ch) % long_mod) c input in
    if is_hex_digit ch then rest else (n, ch, c ∷ input)

-- The loop on the digits of a number with a base.
unfoldable pub radix_digits : ℕ → ℕ → ℕ → List ℕ → ℕ × ℕ × List ℕ
radix_digits base n ch [] =
    if is_letter_digit ch && ltb (digit_value ch) base
    then ((base * n + digit_value ch) % long_mod, eof, [])
    else (n, ch, [])
radix_digits base n ch (c ∷ input) =
    let rest = radix_digits base ((base * n + digit_value ch) % long_mod) c input in
    if is_letter_digit ch && ltb (digit_value ch) base then rest else (n, ch, c ∷ input)

abbrev pub long_lexeme : ℕ → Lexeme
long_lexeme n = record { type = long; value = n; text = []; length = 0 }

-- The lexeme is made, and the character at hand given back.
abbrev pub lexeme_before : Lexeme → ℕ → ℕ → List ℕ → Outcome
lexeme_before l size ch input =
    stepped (record { found = some l; input = ch ∷ input; size = size; reports = [] })

abbrev pub is_hex_start : ℕ → ℕ → Bool
is_hex_start ch nch =
    ch == b'0' && (nch == b'x' || nch == b'X') || ch == b'&' && (nch == b'h' || nch == b'H')

-- This is 0x... or &H... hexadecimal number; the input starts with the letter.
unfoldable pub read_hex : ℕ → List ℕ → Outcome
read_hex size input =
    let (n, ch, rest) = hex_digits 0 (getc (after input)) (after (after input)) in
    lexeme_before (long_lexeme n) size ch rest

module _ (f : Doubles) where
  open f use {Double, of_int, tenth, add, mul, inverse, negate, is_less, to_long, bits}

  -- `intpart *= 10; intpart += ch-'0';` for each digit
  unfoldable pub int_digits : Double → ℕ → List ℕ → Double × ℕ × List ℕ
  int_digits x ch [] =
      if isdigit ch then (add (mul x (of_int 10)) (of_int (ch - 48)), eof, []) else (x, ch, [])
  int_digits x ch (c ∷ input) =
      let rest = int_digits (add (mul x (of_int 10)) (of_int (ch - 48))) c input in
      if isdigit ch then rest else (x, ch, c ∷ input)

  -- `fracpart += (man *= 0.1) * (ch-'0')`
  unfoldable pub fraction_digits : Double → Double → ℕ → List ℕ → Double × ℕ × List ℕ
  fraction_digits x man ch [] =
      if isdigit ch then (add x (mul (mul man tenth) (of_int (ch - 48))), eof, []) else (x, ch, [])
  fraction_digits x man ch (c ∷ input) =
      let rest =
        fraction_digits (add x (mul (mul man tenth) (of_int (ch - 48)))) (mul man tenth) c input in
      if isdigit ch then rest else (x, ch, c ∷ input)

  -- `exppart = 10*exppart + ch-'0'`, where the digit's code is added before 48 is taken away
  unfoldable pub exponent_digits : Double → ℕ → List ℕ → Double × ℕ × List ℕ
  exponent_digits x ch [] =
      if isdigit ch
      then (add (add (mul (of_int 10) x) (of_int ch)) (negate (of_int 48)), eof, [])
      else (x, ch, [])
  exponent_digits x ch (c ∷ input) =
      let rest =
        exponent_digits (add (add (mul (of_int 10) x) (of_int ch)) (negate (of_int 48))) c input in
      if isdigit ch then rest else (x, ch, c ∷ input)

  -- The loop of pow10; an `int` is 0 after 31 halvings.
  unfoldable pub pow10_loop : ℕ → ℕ → Double → Double → Double
  pow10_loop zero j pro k = pro
  pow10_loop (suc fuel) j pro k = elim (j == 0) [
    | true ↦ pro
    | false ↦ pow10_loop fuel (j / 2) (if j % 2 == 0 then pro else mul pro k) (mul k k)
  ]

  unfoldable pub pow10 : Double → Double
  pow10 a =
      let below = is_less a (of_int 0) in
      let j = to_long (if below then negate a else a) in
      let pro = pow10_loop 31 j (of_int 1) (of_int 10) in if below then inverse pro else pro

  -- The fraction after a point: there is one, it, the character at hand, and the input.
  unfoldable pub read_fraction : ℕ → List ℕ → Bool × Double × ℕ × List ℕ
  read_fraction ch input =
      let (x, ch', input') = fraction_digits (of_int 0) (of_int 1) (getc input) (after input) in
      if ch == b'.' then (true, x, ch', input') else (false, of_int 0, ch, input)

  -- The exponent with its sign.
  unfoldable pub read_exponent : ℕ → List ℕ → Bool × Double × ℕ × List ℕ
  read_exponent ch input =
      let sign = getc input in
      let minus = sign == b'-' in
      let signed_input = minus || sign == b'+' in
      let first = if signed_input then getc (after input) else sign in
      let rest = if signed_input then after (after input) else after input in
      let (x, ch', input') = exponent_digits (of_int 0) first rest in
      if ch == b'E' || ch == b'e'
      then (true, if minus then negate x else x, ch', input')
      else (false, of_int 0, ch, input)

  abbrev pub double_lexeme : Double → Lexeme
  double_lexeme x = record { type = double; value = bits x; text = []; length = 0 }

  -- The number after its base and `#`.
  unfoldable pub read_radix : Double → ℕ → List ℕ → Outcome
  read_radix x size input =
      let (n, ch, rest) = radix_digits (to_long x) 0 (getc input) (after input) in
      if is_less x (of_int 2) || is_less (of_int 36) x
      then refused error_bad_radix
      else (if is_letter_digit (getc input)
          then lexeme_before (long_lexeme n) size ch rest
          else refused error_invalid_number)

  -- A number that starts with a digit or a point.
  unfoldable pub read_decimal : ℕ → ℕ → List ℕ → Outcome
  read_decimal size ch input =
      let (x, ch1, input1) = int_digits (of_int 0) ch input in
      let (point, fraction, ch2, input2) = read_fraction ch1 input1 in
      let (power, exponent, ch3, input3) = read_exponent ch2 input2 in
      let lexeme =
        if point || power
        then double_lexeme (mul (add x fraction) (pow10 exponent))
        else long_lexeme (to_long x) in
      if ch1 == b'#' then read_radix x size input1 else lexeme_before lexeme size ch3 input3
