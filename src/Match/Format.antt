-- ===== src/Match/Format.antt =====
-- match.c: match_parameter and match_size, which fill the strings of the jokers into a format string,
-- and say how much room that takes. An `unsigned long` has 64 bits and an `int` 32 bits, and they wrap
-- around; an `int` stands here as its bits. Where an index becomes negative the source reads before
-- the array, which is not modelled.
use script_basic.Common.{
  long_mod, ℕ, zero, suc, ◌+◌, ◌-◌, ◌*◌, ◌%◌, ◌^◌, Option, none, some, List, [], ◌∷◌, ◌++◌, ltb,
  leb, ◌==◌, if◌then◌else◌, get_or, length,
}
use script_basic.Match.Sets.{Bytes, is_digit}

-- What a round of the outer loop reads: a character as it stands, `$$`, `$` with a number, a lone `$`.
pub data Piece : Type 0 where
  letter : ℕ → Piece
  double : Piece
  place : ℕ → Piece
  lone : Piece

-- The loop on digits: the index, and the rest of the format.
unfoldable pub digits : Bytes → ℕ → ℕ × Bytes
digits [] index = (index, [])
digits (c ∷ s) index =
    let rest = digits s ((10 * index + c - b'0') % 2 ^ 32) in
    if is_digit c then rest else (index, c ∷ s)

unfoldable pub after_dollar : Bytes → Piece × Bytes
after_dollar [] = (lone, [])
after_dollar (c ∷ s) =
    if c == b'$'
    then (double, s)
    else if is_digit c
    then (place (digits (c ∷ s) 0).0, (digits (c ∷ s) 0).1)
    else (lone, c ∷ s)

unfoldable pub next_piece : ℕ → Bytes → Piece × Bytes
next_piece c s = if c == b'$' then after_dollar s else (letter c, s)

-- The errors of the two functions; `out_of_rounds` is the model's own.
pub data FormatError : Type 0 where
  buffer_full index_out_of_range out_of_rounds : FormatError

-- `*pcbBufferSize`, what the buffer holds, and `ulResultSize`
pub record Filling : Type 0 where
  pub left : ℕ
  pub buffer : Bytes
  pub result_size : ℕ

abbrev pub put : ℕ → ℕ → Filling → Filling
put c counted st = record {
  left = (st.left + long_mod - 1) % long_mod;
  buffer = st.buffer ++ c ∷ [];
  result_size = (st.result_size + counted) % long_mod;
}

pub data Filled : Type 0 where
  failed : FormatError → Filled
  filled : Filling → Filled

-- What is done after a round, which fails or goes on.
abbrev pub then_fill : Filled → (Filling → Filled) → Filled
then_fill (failed e) go_on = failed e
then_fill (filled st) go_on = go_on st

-- The room is tested after the character is written.
abbrev pub put_first : ℕ → ℕ → Filling → Filled
put_first c counted st =
    let st' = put c counted st in if ltb st'.left 1 then failed buffer_full else filled st'

-- The loop that copies a parameter tests the room first, as does the copying of a character.
unfoldable pub copy : Bytes → Filling → Filled
copy [] st = filled st
copy (c ∷ cs) st =
    let rest = copy cs (put c 1 st) in if ltb st.left 1 then failed buffer_full else rest

module _ (array_size : ℕ) (parameters : List Bytes) where
  -- A `$$` is not counted: the statement that would do it is `ulResultSize;`.
  unfoldable pub fill_piece : Piece → Filling → Filled
  fill_piece (letter c) st = copy (c ∷ []) st
  fill_piece double st = put_first b'$' 0 st
  fill_piece (place i) st =
      if leb array_size i then failed index_out_of_range else copy (get_or parameters i []) st
  fill_piece lone st = put_first b'$' 1 st

  unfoldable pub fill_from : ℕ → Bytes → Filling → Filled
  fill_from rounds [] st = filled st
  fill_from zero (c ∷ s) st = failed out_of_rounds
  fill_from (suc rounds) (c ∷ s) st =
      then_fill (fill_piece (next_piece c s).0 st) (fill_from rounds (next_piece c s).1)

-- match_parameter: every round takes a character of the format. The caller finds `result_size` in
-- `*pcbBufferSize`.
unfoldable pub match_parameter : Bytes → ℕ → List Bytes → ℕ → Filled
match_parameter format array_size parameters buffer_size =
    fill_from array_size parameters (length format) format
      (record { left = buffer_size; buffer = []; result_size = 0 })

-- The numbers from `*cbBufferSize` on, as they stand in memory, and which of them the pointer
-- `cbBufferSize` has come to: at a lone `$` the pointer is moved on.
pub record Counter : Type 0 where
  pub at : ℕ
  pub cells : ℕ → ℕ

abbrev pub count_more : ℕ → Counter → Counter
count_more n k = record k { cells = λ i. if i == k.at then (k.cells i + n) % 2 ^ 32 else k.cells i }

abbrev pub then_count : Option Counter → (Counter → Option Counter) → Option Counter
then_count none go_on = none
then_count (some k) go_on = go_on k

module _ (array_size : ℕ) (sizes : List ℕ) where
  unfoldable pub count_piece : Piece → Counter → Option Counter
  count_piece (letter c) k = some (count_more 1 k)
  count_piece double k = some (count_more 1 k)
  count_piece (place i) k =
      if leb array_size i then none else some (count_more (get_or sizes i 0) k)
  count_piece lone k = some (record k { at = k.at + 1 })

  unfoldable pub count_from : ℕ → Bytes → Counter → Option Counter
  count_from rounds [] k = some k
  count_from zero (c ∷ s) k = none
  count_from (suc rounds) (c ∷ s) k =
      then_count (count_piece (next_piece c s).0 k) (count_from rounds (next_piece c s).1)

-- match_size: `none` is MATCH_ERROR_INDEX_OUT_OF_RANGE.
unfoldable pub match_size : Bytes → List ℕ → ℕ → (ℕ → ℕ) → Option Counter
match_size format sizes array_size cells =
    count_from array_size sizes (length format) format (record { at = 0; cells = cells })
