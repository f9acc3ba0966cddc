-- ===== src/Lexer/Integers.antt =====
-- lexer.c: an integer below 2 ^ 53 is read as the number that its digits write.
use script_basic.Common.{
  ℕ, ◌+◌, ◌-◌, ◌*◌, ◌^◌, ◌≤◌, ◌<◌, ◌≡◌, refl, ap, ◌∙◌, List, [], ◌∷◌, true, false, ◌||◌, ◌==◌,
  arith,
}
use script_basic.Lexer.{getc, after, isdigit}
use script_basic.Lexer.Numbers.{
  Doubles, long_lexeme, lexeme_before, int_digits, read_fraction, read_exponent, read_decimal,
}
use script_basic.Lexer.Print.{digits, value_from, AreDigits, IsStop}

-- `double` holds the integers below 2 ^ 53 exactly, and the sums and products of them.
pub record IsExact (f : Doubles) : Type 0 where
  pub digit :
      (n d : ℕ)
      → n * 10 + d < 2 ^ 53
      → f.add (f.mul (f.of_int n) (f.of_int 10)) (f.of_int d) ≡ f.of_int (n * 10 + d)
  pub integer : (n : ℕ) → n < 2 ^ 53 → f.to_long (f.of_int n) ≡ n

value_from-above : (n : ℕ) (ds : List ℕ) → n ≤ value_from n ds
unfolding value_from
value_from-above n [] = omega arith
value_from-above n (d ∷ ds) = omega (arith, value_from-above (n * 10 + d) ds)

stop_no_digit : (rest : List ℕ) → IsStop rest → isdigit (getc rest) ≡ false
stop_no_digit rest s = ground arith

module _ (f : Doubles) where
  int_digits_stop :
      (x : f.Double) (ch : ℕ) (input : List ℕ)
      → isdigit ch ≡ false
      → int_digits f x ch input ≡ (x, ch, input)
  unfolding int_digits
  int_digits_stop x ch [] e = rw e refl
  int_digits_stop x ch (c ∷ input) e = rw e refl

  int_digits_next :
      (x : f.Double) (ch : ℕ) (input : List ℕ)
      → isdigit ch ≡ true
      → int_digits f x ch input
        ≡ int_digits f
            (f.add (f.mul x (f.of_int 10)) (f.of_int (ch - 48)))
            (getc input)
            (after input)
  unfolding int_digits
  int_digits_next x ch [] e = rw e refl
  int_digits_next x ch (c ∷ input) e = rw e refl

  int_digits-digits :
      (x : IsExact f) (n : ℕ) (ds rest : List ℕ)
      → AreDigits ds
      → IsStop rest
      → value_from n ds < 2 ^ 53
      → int_digits f (f.of_int n) (getc (digits ds rest)) (after (digits ds rest))
        ≡ (f.of_int (value_from n ds), getc rest, after rest)
  unfolding digits value_from
  int_digits-digits x n [] rest h s lt =
      int_digits_stop (f.of_int n) (getc rest) (after rest) (stop_no_digit rest s)
  int_digits-digits x n (d ∷ ds) rest (hd, hs) s lt =
      let is_digit : isdigit (48 + d) ≡ true = ground arith in
      let value : 48 + d - 48 ≡ d = omega arith in
      let exact = x.digit n d (omega (arith, lt, value_from-above (n * 10 + d) ds)) in
      int_digits_next (f.of_int n) (48 + d) (digits ds rest) is_digit
      ∙ rw value (rw exact (int_digits-digits x (n * 10 + d) ds rest hs s lt))

  pub read_decimal-digits :
      (x : IsExact f) (size d : ℕ) (ds rest : List ℕ)
      → d < 10
      → AreDigits ds
      → IsStop rest
      → value_from d ds < 2 ^ 53
      → read_decimal f size (48 + d) (digits ds rest)
        ≡ lexeme_before (long_lexeme (value_from d ds)) size (getc rest) (after rest)
  unfolding read_decimal read_fraction read_exponent value_from digits
  read_decimal-digits x size d ds rest hd hs s lt =
      let zero_d : value_from 0 (d ∷ ds) ≡ value_from d ds =
        ap (λ n. value_from n ds) (omega arith) in
      let read = int_digits-digits x 0 (d ∷ ds) rest (hd, hs) s (rw zero_d lt) in
      let hash : (getc rest == b'#') ≡ false = ground arith in
      let point : (getc rest == b'.') ≡ false = ground arith in
      let power : (getc rest == b'E' || getc rest == b'e') ≡ false = ground arith in
      rw read (rw hash (rw point (rw power (rw zero_d (rw (x.integer (value_from d ds) lt) refl)))))
