-- ===== src/GmTime/Calendar.antt =====
-- The calendar that mygmtime.c stands for, counted by days: years from 1970 of which every fourth
-- (1972, 1976, ...) is a leap year, months from 0 and days from 1.
use script_basic.Common.{
  ℕ, zero, suc, ◌+◌, ◌-◌, ◌*◌, ◌/◌, ◌%◌, ◌≤◌, ◌<◌, ◌≡◌, refl, Bool, [], ◌∷◌, ◌==◌, if◌then◌else◌,
  get_or, arith,
}
use script_basic.Common.Int.{pos}
use script_basic.GmTime.{Tm}

-- `y` is the number of years since 1970.
abbrev pub is_leap : ℕ → Bool
is_leap y = y % 4 == 2

abbrev pub year_length : ℕ → ℕ
year_length y = if is_leap y then 366 else 365

pub days_before_year : ℕ → ℕ
days_before_year zero = 0
days_before_year (suc y) = days_before_year y + year_length y

pub days_before_year_lem : (y : ℕ) → days_before_year y ≡ y * 365 + (y + 1) / 4
unfolding days_before_year
days_before_year_lem zero = refl
days_before_year_lem (suc y) = ground (arith, days_before_year_lem y)

abbrev pub month_length : Bool → ℕ → ℕ
month_length leap m =
    get_or (31 ∷ (if leap then 29 else 28) ∷ 31 ∷ 30 ∷ 31 ∷ 30 ∷ 31 ∷ 31 ∷ 30 ∷ 31 ∷ 30 ∷ 31 ∷ []) m
      0

unfoldable pub days_before_month : Bool → ℕ → ℕ
days_before_month leap zero = 0
days_before_month leap (suc m) = days_before_month leap m + month_length leap m

pub record Date : Type 0 where
  pub year : ℕ
  pub month : ℕ
  pub day : ℕ
  pub hour : ℕ
  pub minute : ℕ
  pub second : ℕ

pub record IsValid (d : Date) : Type 0 where
  pub month_in : d.month < 12
  pub day_from : 1 ≤ d.day
  pub day_to : d.day ≤ month_length (is_leap d.year) d.month
  pub hour_in : d.hour < 24
  pub minute_in : d.minute < 60
  pub second_in : d.second < 60

abbrev pub year_day : Date → ℕ
year_day d = days_before_month (is_leap d.year) d.month + d.day - 1

abbrev pub day_number : Date → ℕ
day_number d = days_before_year d.year + year_day d

abbrev pub to_seconds : Date → ℕ
to_seconds d = ((day_number d * 24 + d.hour) * 60 + d.minute) * 60 + d.second

-- The broken-down time of a date. 1970-01-01 was a Thursday.
abbrev pub tm_of : Date → Tm
tm_of d = record {
  sec = pos d.second;
  min = pos d.minute;
  hour = pos d.hour;
  mday = pos d.day;
  mon = pos d.month;
  year = pos (d.year + 70);
  wday = pos ((day_number d + 4) % 7);
  yday = pos (year_day d);
  isdst = pos 0;
}
