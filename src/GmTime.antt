-- ===== src/GmTime.antt =====
-- mygmtime.c: seconds since 1970 as a broken-down time, and back. `long` and `time_t` have 64 bits,
-- and a sum of `int` fields is far below their range, so both are integers here; the tests for
-- overflow stand where the code has them. The (int) casts of mygmtime keep 32 bits. Where a sum of
-- two `int` then overflows, or the months of the table are passed, the source has no meaning.
pub mod Calendar
pub mod Unique
pub mod Range
pub mod Breakdown
pub mod RoundTrip
pub mod Normal
mod Examples
use script_basic.Common.{
  ℕ, zero, suc, ◌+◌, ◌-◌, ◌*◌, ◌/◌, ◌%◌, ◌^◌, Bool, true, false, not, ◌&&◌, ◌||◌, Option, none,
  some, List, [], ◌∷◌, ltb, leb, ◌==◌, if◌then◌else◌, get_or,
}
use script_basic.Common.Int.{ℤ, pos, negsuc, pos_part, sub_ℕ, ◌+ℤ◌, ◌-ℤ◌, ◌*ℤ◌, ltb_ℤ}

-- `struct tm`
pub record Tm : Type 0 where
  pub sec : ℤ
  pub min : ℤ
  pub hour : ℤ
  pub mday : ℤ
  pub mon : ℤ
  pub year : ℤ
  pub wday : ℤ
  pub yday : ℤ
  pub isdst : ℤ

abbrev pub day_sec : ℕ
day_sec = 86_400

abbrev pub year_sec : ℕ
year_sec = 365 * day_sec

abbrev pub four_year_sec : ℕ
four_year_sec = 1461 * day_sec

-- `_lpdays` and `_days`
abbrev lpdays : List ℤ
lpdays =
    negsuc 0
    ∷ pos 30
    ∷ pos 59
    ∷ pos 90
    ∷ pos 120
    ∷ pos 151
    ∷ pos 181
    ∷ pos 212
    ∷ pos 243
    ∷ pos 273
    ∷ pos 304
    ∷ pos 334
    ∷ pos 365
    ∷ []

abbrev days : List ℤ
days =
    negsuc 0
    ∷ pos 30
    ∷ pos 58
    ∷ pos 89
    ∷ pos 119
    ∷ pos 150
    ∷ pos 180
    ∷ pos 211
    ∷ pos 242
    ∷ pos 272
    ∷ pos 303
    ∷ pos 333
    ∷ pos 364
    ∷ []

unfoldable pub month_table : Bool → ℕ → ℤ
month_table leap m = get_or (if leap then lpdays else days) m (pos 0)

-- `(int)`, of a number that is not negative: the low 32 bits, as the compilers take them.
unfoldable pub int_of : ℕ → ℤ
int_of n = if ltb (n % 2 ^ 32) (2 ^ 31) then pos (n % 2 ^ 32) else negsuc (2 ^ 32 - 1 - n % 2 ^ 32)

-- The year, the seconds since its start, and whether it is a leap year.
pub record YearSplit : Type 0 where
  pub year : ℤ
  pub rest : ℕ
  pub leap : Bool

abbrev split_at : ℤ → ℕ → Bool → YearSplit
split_at y c l = record { year = y; rest = c; leap = l }

-- Which year it is of the four-year interval that starts with `y`: the third is the leap year.
unfoldable pub year_within : ℤ → ℕ → YearSplit
year_within y c =
    if leb year_sec c
    then (let c1 : ℕ = c - year_sec in
        if leb year_sec c1
        then (let c2 : ℕ = c1 - year_sec in
            if leb (year_sec + day_sec) c2
            then split_at (y +ℤ pos 3) (c2 - (year_sec + day_sec)) false
            else split_at (y +ℤ pos 2) c2 true)
        else split_at (y +ℤ pos 1) c1 false)
    else split_at y c false

-- No cast makes a number greater, so that the seconds that are left are not negative.
unfoldable pub year_split : ℕ → YearSplit
year_split t =
    let q = int_of (t / four_year_sec) in
    year_within (q *ℤ pos 4 +ℤ pos 70) (pos_part (pos t -ℤ q *ℤ pos four_year_sec))

-- `for( m = 1 ; mdays[m] < yday ; m++ )`; the table has 12 places after the first.
find_month : Bool → ℤ → ℕ → ℕ → ℕ
unfolding month_table
find_month leap yday zero m = m
find_month leap yday (suc rounds) m =
    let next = find_month leap yday rounds (m + 1) in
    if ltb_ℤ (month_table leap m) yday then next else m

-- The month, counted from 0.
unfoldable pub month_of : Bool → ℤ → ℕ
unfolding find_month
month_of leap yday = find_month leap yday 12 1 - 1

-- `% 7` of C rounds towards 0.
unfoldable pub mod_seven : ℤ → ℤ
mod_seven (pos n) = pos (n % 7)
mod_seven (negsuc n) = sub_ℕ 0 ((n + 1) % 7)

-- The multiples that are taken off are not greater than what they are taken from.
unfoldable pub breakdown : ℕ → Tm
breakdown t =
    let split = year_split t in
    let yday = int_of (split.rest / day_sec) in
    let mon : ℕ = month_of split.leap yday in
    let c : ℕ = pos_part (pos split.rest -ℤ yday *ℤ pos day_sec) in
    let hour = int_of (c / 3600) in
    let c' : ℕ = pos_part (pos c -ℤ hour *ℤ pos 3600) in
    let min = int_of (c' / 60) in
    record {
      sec = int_of (pos_part (pos c' -ℤ min *ℤ pos 60));
      min = min;
      hour = hour;
      mday = yday -ℤ month_table split.leap mon;
      mon = pos mon;
      year = split.year;
      wday = mod_seven (int_of (t / day_sec) +ℤ pos 4);
      yday = yday;
      isdst = pos 0;
    }

unfoldable pub mygmtime : ℤ → Option Tm
mygmtime (pos t) = some (breakdown t)
mygmtime (negsuc t) = none

-- `/` and `%` of C by 12 round towards 0.
div_twelve : ℤ → ℤ
div_twelve (pos n) = pos (n / 12)
div_twelve (negsuc n) = sub_ℕ 0 ((n + 1) / 12)

mod_twelve : ℤ → ℤ
mod_twelve (pos n) = pos (n % 12)
mod_twelve (negsuc n) = sub_ℕ 0 ((n + 1) % 12)

unfoldable pub year_out : ℤ → Bool
year_out y = ltb_ℤ y (pos 69) || ltb_ℤ (pos 139) y

-- The year and the month with the month brought into 0 to 11.
unfoldable pub adjust : ℤ → ℤ → ℤ × ℤ
unfolding div_twelve mod_twelve
adjust y m =
    if ltb_ℤ m (pos 0) || ltb_ℤ (pos 11) m
    then (let y' = y +ℤ div_twelve m in
        let m' = mod_twelve m in if ltb_ℤ m' (pos 0) then (y' -ℤ pos 1, m' +ℤ pos 12) else (y', m'))
    else (y, m)

-- ChkAdd and ChkMul
unfoldable pub chk_add : ℤ → ℤ → ℤ → Bool
chk_add dest a b =
    not (ltb_ℤ a (pos 0)) && not (ltb_ℤ b (pos 0)) && ltb_ℤ dest (pos 0)
    || ltb_ℤ a (pos 0) && ltb_ℤ b (pos 0) && not (ltb_ℤ dest (pos 0))

eqb_ℤ : ℤ → ℤ → Bool
eqb_ℤ a b = not (ltb_ℤ a b) && not (ltb_ℤ b a)

div_ℤ : ℤ → ℤ → ℤ
div_ℤ (pos a) (pos b) = pos (a / b)
div_ℤ (pos a) (negsuc b) = sub_ℕ 0 (a / (b + 1))
div_ℤ (negsuc a) (pos b) = sub_ℕ 0 ((a + 1) / b)
div_ℤ (negsuc a) (negsuc b) = pos ((a + 1) / (b + 1))

chk_mul : ℤ → ℤ → ℤ → Bool
unfolding div_ℤ eqb_ℤ
chk_mul dest a b = not (eqb_ℤ a (pos 0)) && not (eqb_ℤ (div_ℤ dest a) b)

-- The days since the base date, for a year from 69 to 139 and a month from 0 to 11.
unfoldable pub elapsed_days : ℤ → ℤ → ℤ → ℤ
elapsed_days y m mday =
    let extra = if (pos_part y % 4 == 0) && ltb_ℤ (pos 1) m then pos 1 else pos 0 in
    let before = month_table false (pos_part m) +ℤ extra in
    (y -ℤ pos 70) *ℤ pos 365 +ℤ pos ((pos_part y - 1) / 4) -ℤ pos 17 +ℤ before +ℤ mday

-- One of the three rounds `t * k + more`, with its two tests.
unfoldable pub scale : ℤ → ℤ → ℤ → Option ℤ
unfolding chk_mul chk_add
scale t k more =
    let product = t *ℤ k in
    let total = product +ℤ more in
    if chk_mul product t k || chk_add total product more then none else some total

unfoldable pub seconds : ℤ → Tm → Option ℤ
seconds day tb = elim (scale day (pos 24) tb.hour) [
  | none ↦ none
  | some hours ↦ elim (scale hours (pos 60) tb.min) [
    | none ↦ none
    | some minutes ↦ scale minutes (pos 60) tb.sec
  ]
]

-- The returned value, and the broken-down time as the call leaves it.
unfoldable pub mygmktime : Tm → ℤ × Tm
mygmktime tb =
    let (y, m) = adjust tb.year tb.mon in
    let tb' : Tm = record tb { mon = m } in
    let day = elapsed_days y m tb.mday in
    let before = elapsed_days y m (pos 0) in
    if year_out tb.year
    then (negsuc 0, tb)
    else if year_out y
    then (negsuc 0, tb')
    else if chk_add day before tb.mday
    then (negsuc 0, tb')
    else elim (seconds day tb) [
      | none ↦ (negsuc 0, tb')
      | some t ↦ elim (mygmtime t) [ none ↦ (negsuc 0, tb') | some tm ↦ (t, tm) ]
    ]
