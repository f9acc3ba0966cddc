-- ===== src/Match/Words.antt =====
-- match.c: what a format string means, by how it is written: the words that it is made of, and the
-- text that they stand for.
use script_basic.Common.{
  ℕ, zero, suc, ◌+◌, ◌-◌, ◌*◌, ◌%◌, ◌^◌, ◌≤◌, ◌<◌, ◌≡◌, ◌≢◌, refl, ap, ◌∙◌, true, false, Option,
  none, some, List, [], ◌∷◌, ltb, ◌==◌, if◌then◌else◌, get_or, length, arith,
}
use script_basic.Match.Sets.{Bytes, is_digit}
use script_basic.Match.Format.{Piece, letter, double, place, lone, digits, after_dollar, next_piece}
use script_basic.Match.Expansion.{pieces_from, pieces, text, join, expand, doubles, has_lone}

-- A character; `$$`; `$` and a number by its first digit and the others; `$` alone.
pub data Word : Type 0 where
  plain : ℕ → Word
  dollars : Word
  parameter : ℕ → List ℕ → Word
  sign : Word

abbrev pub write_digits : List ℕ → Bytes → Bytes
write_digits [] rest = rest
write_digits (d ∷ ds) rest = (48 + d) ∷ write_digits ds rest

abbrev pub written : List Word → Bytes
written [] = []
written (plain c ∷ ws) = c ∷ written ws
written (dollars ∷ ws) = b'$' ∷ b'$' ∷ written ws
written (parameter d ds ∷ ws) = b'$' ∷ write_digits (d ∷ ds) (written ws)
written (sign ∷ ws) = b'$' ∷ written ws

-- The number with these digits after those of `n`
abbrev pub number : ℕ → List ℕ → ℕ
number n [] = n
number n (d ∷ ds) = number (n * 10 + d) ds

abbrev pub AreDigits : List ℕ → Type 0
AreDigits [] = Unit
AreDigits (d ∷ ds) = (d < 10) × AreDigits ds

abbrev pub NoDigit : Bytes → Type 0
NoDigit [] = Unit
NoDigit (c ∷ s) = is_digit c ≡ false

abbrev pub NoDollar : Bytes → Type 0
NoDollar [] = Unit
NoDollar (c ∷ s) = c ≢ b'$'

-- A plain character is no `$`; a number is an `int` and ends where no digit follows; after a `$`
-- alone there is neither a `$` nor a digit.
abbrev pub IsFormat : List Word → Type 0
IsFormat [] = Unit
IsFormat (plain c ∷ ws) = (c ≢ b'$') × IsFormat ws
IsFormat (dollars ∷ ws) = IsFormat ws
IsFormat (parameter d ds ∷ ws) =
    AreDigits (d ∷ ds) × (number 0 (d ∷ ds) < 2 ^ 31) × NoDigit (written ws) × IsFormat ws
IsFormat (sign ∷ ws) = NoDollar (written ws) × NoDigit (written ws) × IsFormat ws

-- The text of the words; `$0` is the first parameter. `none` where a parameter is missing.
abbrev pub meant : List Bytes → List Word → Option Bytes
meant ps [] = some []
meant ps (plain c ∷ ws) = join (some (c ∷ [])) (meant ps ws)
meant ps (dollars ∷ ws) = join (some (b'$' ∷ [])) (meant ps ws)
meant ps (parameter d ds ∷ ws) =
    join
      (if ltb (number 0 (d ∷ ds)) (length ps)
        then some (get_or ps (number 0 (d ∷ ds)) [])
        else none)
      (meant ps ws)
meant ps (sign ∷ ws) = join (some (b'$' ∷ [])) (meant ps ws)

abbrev pub number_of_dollars : List Word → ℕ
number_of_dollars [] = 0
number_of_dollars (dollars ∷ ws) = suc (number_of_dollars ws)
number_of_dollars (plain c ∷ ws) = number_of_dollars ws
number_of_dollars (parameter d ds ∷ ws) = number_of_dollars ws
number_of_dollars (sign ∷ ws) = number_of_dollars ws

abbrev pub NoSign : List Word → Type 0
NoSign [] = Unit
NoSign (plain c ∷ ws) = NoSign ws
NoSign (dollars ∷ ws) = NoSign ws
NoSign (parameter d ds ∷ ws) = NoSign ws
NoSign (sign ∷ ws) = ⊥

abbrev piece_of : Word → Piece
piece_of (plain c) = letter c
piece_of dollars = double
piece_of (parameter d ds) = place (number 0 (d ∷ ds))
piece_of sign = lone

abbrev pieces_of : List Word → List Piece
pieces_of [] = []
pieces_of (w ∷ ws) = piece_of w ∷ pieces_of ws

number-above : (n : ℕ) (ds : List ℕ) → n ≤ number n ds
number-above n [] = omega arith
number-above n (d ∷ ds) = omega (arith, number-above (n * 10 + d) ds)

digits-stop : (n : ℕ) (rest : Bytes) → NoDigit rest → digits rest n ≡ (n, rest)
unfolding digits
digits-stop n [] h = refl
digits-stop n (c ∷ s) h = rw h refl

digits-write_digits :
    (n : ℕ) (ds : List ℕ) (rest : Bytes)
    → AreDigits ds
    → NoDigit rest
    → number n ds < 2 ^ 31
    → digits (write_digits ds rest) n ≡ (number n ds, rest)
unfolding digits is_digit
digits-write_digits n [] rest h s lt = digits-stop n rest s
digits-write_digits n (d ∷ ds) rest (hd, hs) s lt =
    let is_one : is_digit (48 + d) ≡ true = ground arith in
    let small = number-above (n * 10 + d) ds in
    let next : (10 * n + (48 + d) - b'0') % 2 ^ 32 ≡ n * 10 + d = omega (arith, small, lt) in
    rw is_one (rw next (digits-write_digits (n * 10 + d) ds rest hs s lt))

sign_step : (rest : Bytes) → NoDollar rest → NoDigit rest → after_dollar rest ≡ (lone, rest)
unfolding after_dollar
sign_step [] h k = refl
sign_step (c ∷ s) h k = let other : (c == b'$') ≡ false = ground arith in rw other (rw k refl)

number_step :
    (d : ℕ) (ds : List ℕ) (rest : Bytes)
    → AreDigits (d ∷ ds)
    → NoDigit rest
    → number 0 (d ∷ ds) < 2 ^ 31
    → after_dollar (write_digits (d ∷ ds) rest) ≡ (place (number 0 (d ∷ ds)), rest)
unfolding after_dollar is_digit
number_step d ds rest h s lt =
    let other : (48 + d == b'$') ≡ false = ground arith in
    let is_one : is_digit (48 + d) ≡ true = ground (arith, h.0) in
    rw other (rw is_one (ap (λ r. (place r.0, r.1)) (digits-write_digits 0 (d ∷ ds) rest h s lt)))

length-write_digits : (ds : List ℕ) (rest : Bytes) → length rest ≤ length (write_digits ds rest)
length-write_digits [] rest = omega arith
length-write_digits (d ∷ ds) rest = omega (arith, length-write_digits ds rest)

-- One round, on what a word has written.
round :
    (rounds c : ℕ) (s rest : Bytes) (q : Piece)
    → next_piece c s ≡ (q, rest)
    → pieces_from (suc rounds) (c ∷ s) ≡ q ∷ pieces_from rounds rest
unfolding pieces_from
round rounds c s rest q e = λ i. (e i).0 ∷ pieces_from rounds (e i).1

pieces_from-written :
    (rounds : ℕ) (ws : List Word)
    → IsFormat ws
    → length (written ws) ≤ rounds
    → pieces_from rounds (written ws) ≡ pieces_of ws
unfolding pieces_from next_piece after_dollar
pieces_from-written zero [] h l = refl
pieces_from-written (suc rounds) [] h l = refl
pieces_from-written zero (plain c ∷ ws) h l = absurd (omega arith)
pieces_from-written zero (dollars ∷ ws) h l = absurd (omega arith)
pieces_from-written zero (parameter d ds ∷ ws) h l = absurd (omega arith)
pieces_from-written zero (sign ∷ ws) h l = absurd (omega arith)
pieces_from-written (suc rounds) (plain c ∷ ws) (n, h) l =
    let other : (c == b'$') ≡ false = ground arith in
    round rounds c (written ws) (written ws) (letter c) (rw other refl)
    ∙ ap (λ r. letter c ∷ r) (pieces_from-written rounds ws h (omega arith))
pieces_from-written (suc rounds) (dollars ∷ ws) h l =
    round rounds b'$' (b'$' ∷ written ws) (written ws) double refl
    ∙ ap (λ r. double ∷ r) (pieces_from-written rounds ws h (omega arith))
pieces_from-written (suc rounds) (parameter d ds ∷ ws) (hd, lt, s, h) l =
    round rounds b'$' (write_digits (d ∷ ds) (written ws)) (written ws) (place (number 0 (d ∷ ds)))
      (number_step d ds (written ws) hd s lt)
    ∙ ap (λ r. place (number 0 (d ∷ ds)) ∷ r)
        (pieces_from-written rounds ws h (omega (arith, length-write_digits (d ∷ ds) (written ws))))
pieces_from-written (suc rounds) (sign ∷ ws) (a, b, h) l =
    round rounds b'$' (written ws) (written ws) lone (sign_step (written ws) a b)
    ∙ ap (λ r. lone ∷ r) (pieces_from-written rounds ws h (omega arith))

expand-pieces_of :
    (ps : List Bytes) (ws : List Word) → expand (length ps) ps (pieces_of ws) ≡ meant ps ws
expand-pieces_of ps [] = refl
expand-pieces_of ps (plain c ∷ ws) = ap (join (some (c ∷ []))) (expand-pieces_of ps ws)
expand-pieces_of ps (dollars ∷ ws) = ap (join (some (b'$' ∷ []))) (expand-pieces_of ps ws)
expand-pieces_of ps (parameter d ds ∷ ws) = λ i. join (place_text i) (expand-pieces_of ps ws i)
  where
    place_text : text (length ps) ps (place (number 0 (d ∷ ds))) ≡ (
        if ltb (number 0 (d ∷ ds)) (length ps)
        then some (get_or ps (number 0 (d ∷ ds)) [])
        else none)
    place_text = ground arith
expand-pieces_of ps (sign ∷ ws) = ap (join (some (b'$' ∷ []))) (expand-pieces_of ps ws)

doubles-pieces_of : (ws : List Word) → doubles (pieces_of ws) ≡ number_of_dollars ws
doubles-pieces_of [] = refl
doubles-pieces_of (plain c ∷ ws) = doubles-pieces_of ws
doubles-pieces_of (dollars ∷ ws) = ap suc (doubles-pieces_of ws)
doubles-pieces_of (parameter d ds ∷ ws) = doubles-pieces_of ws
doubles-pieces_of (sign ∷ ws) = doubles-pieces_of ws

has_lone-pieces_of : (ws : List Word) → NoSign ws → has_lone (pieces_of ws) ≡ false
has_lone-pieces_of [] h = refl
has_lone-pieces_of (plain c ∷ ws) h = has_lone-pieces_of ws h
has_lone-pieces_of (dollars ∷ ws) h = has_lone-pieces_of ws h
has_lone-pieces_of (parameter d ds ∷ ws) h = has_lone-pieces_of ws h
has_lone-pieces_of (sign ∷ ws) h = absurd h

module _ (ws : List Word) (f : IsFormat ws) where
  pub pieces-written : pieces (written ws) ≡ pieces_of ws
  pieces-written = pieces_from-written (length (written ws)) ws f (omega arith)

  pub expand-written : (ps : List Bytes) → expand (length ps) ps (pieces (written ws)) ≡ meant ps ws
  expand-written ps = ap (expand (length ps) ps) pieces-written ∙ expand-pieces_of ps ws

  pub doubles-written : doubles (pieces (written ws)) ≡ number_of_dollars ws
  doubles-written = ap doubles pieces-written ∙ doubles-pieces_of ws

  pub has_lone-written : NoSign ws → has_lone (pieces (written ws)) ≡ false
  has_lone-written h = ap has_lone pieces-written ∙ has_lone-pieces_of ws h
