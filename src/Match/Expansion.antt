-- ===== src/Match/Expansion.antt =====
-- match.c: match_parameter and match_size against the text that a format string stands for.
use script_basic.Common.{
  ℕ, zero, suc, ◌+◌, ◌-◌, ◌*◌, ◌%◌, ◌^◌, ◌≤◌, ◌≡◌, refl, Bool, true, false, Option, none, some,
  List, [], ◌∷◌, ◌++◌, leb, if◌then◌else◌, get_or, length, arith,
}
use script_basic.Match.Sets.{Bytes}
use script_basic.Match.Format.{
  Piece, letter, double, place, lone, digits, after_dollar, next_piece, Filling, Filled, failed,
  filled, then_fill, then_count, fill_piece, fill_from, Counter, count_piece, count_from,
}

-- The pieces of a format, one for each round.
unfoldable pub pieces_from : ℕ → Bytes → List Piece
pieces_from rounds [] = []
pieces_from zero (c ∷ s) = []
pieces_from (suc rounds) (c ∷ s) = (next_piece c s).0 ∷ pieces_from rounds (next_piece c s).1

abbrev pub pieces : Bytes → List Piece
pieces format = pieces_from (length format) format

-- The text of one piece; `none` for a place that has no parameter.
abbrev pub text : ℕ → List Bytes → Piece → Option Bytes
text n ps (letter c) = some (c ∷ [])
text n ps double = some (b'$' ∷ [])
text n ps (place i) = if leb n i then none else some (get_or ps i [])
text n ps lone = some (b'$' ∷ [])

abbrev pub join : Option Bytes → Option Bytes → Option Bytes
join none r = none
join (some t) none = none
join (some t) (some u) = some (t ++ u)

-- The text that the pieces stand for, with `n` parameters.
abbrev pub expand : ℕ → List Bytes → List Piece → Option Bytes
expand n ps [] = some []
expand n ps (q ∷ qs) = join (text n ps q) (expand n ps qs)

abbrev pub doubles : List Piece → ℕ
doubles [] = 0
doubles (double ∷ qs) = suc (doubles qs)
doubles (q ∷ qs) = doubles qs

abbrev pub has_lone : List Piece → Bool
has_lone [] = false
has_lone (lone ∷ qs) = true
has_lone (q ∷ qs) = has_lone qs

abbrev pub sizes_of : List Bytes → List ℕ
sizes_of [] = []
sizes_of (t ∷ ts) = length t ∷ sizes_of ts

length-digits : (s : Bytes) (i : ℕ) → length (digits s i).1 ≤ length s
unfolding digits
length-digits [] i = omega arith
length-digits (c ∷ s) i = ground (arith, length-digits s ((10 * i + c - b'0') % 2 ^ 32))

length-next_piece : (c : ℕ) (s : Bytes) → length (next_piece c s).1 ≤ length s
unfolding next_piece after_dollar
length-next_piece c [] = ground arith
length-next_piece c (d ∷ s) = ground (arith, length-digits (d ∷ s) 0)

then_fill-ext :
    (r : Filled) {f g : Filling → Filled}
    → ((st : Filling) → f st ≡ g st)
    → then_fill r f ≡ then_fill r g
then_fill-ext (failed e) h = refl
then_fill-ext (filled st) h = h st

then_count-ext :
    (r : Option Counter) {f g : Counter → Option Counter}
    → ((k : Counter) → f k ≡ g k)
    → then_count r f ≡ then_count r g
then_count-ext none h = refl
then_count-ext (some k) h = h k

module _ (n : ℕ) (ps : List Bytes) where
  -- The rounds as a walk along the pieces.
  unfoldable pub fill : List Piece → Filling → Filled
  fill [] st = filled st
  fill (q ∷ qs) st = then_fill (fill_piece n ps q st) (fill qs)

  pub fill_from_lem :
      (rounds : ℕ) (s : Bytes) (st : Filling)
      → length s ≤ rounds
      → fill_from n ps rounds s st ≡ fill (pieces_from rounds s) st
  unfolding fill_from fill pieces_from
  fill_from_lem zero [] st h = refl
  fill_from_lem (suc rounds) [] st h = refl
  fill_from_lem zero (c ∷ s) st h = absurd (omega arith)
  fill_from_lem (suc rounds) (c ∷ s) st h =
      then_fill-ext (fill_piece n ps (next_piece c s).0 st)
        (λ st'. fill_from_lem rounds (next_piece c s).1 st' (omega (arith, length-next_piece c s)))

  unfoldable pub count : List Piece → Counter → Option Counter
  count [] k = some k
  count (q ∷ qs) k = then_count (count_piece n (sizes_of ps) q k) (count qs)

  pub count_from_lem :
      (rounds : ℕ) (s : Bytes) (k : Counter)
      → length s ≤ rounds
      → count_from n (sizes_of ps) rounds s k ≡ count (pieces_from rounds s) k
  unfolding count_from count pieces_from
  count_from_lem zero [] k h = refl
  count_from_lem (suc rounds) [] k h = refl
  count_from_lem zero (c ∷ s) k h = absurd (omega arith)
  count_from_lem (suc rounds) (c ∷ s) k h =
      then_count-ext (count_piece n (sizes_of ps) (next_piece c s).0 k)
        (λ k'. count_from_lem rounds (next_piece c s).1 k' (omega (arith, length-next_piece c s)))
