-- ===== src/GmTime/Breakdown.antt =====
-- mygmtime gives every time from 1970 on its date.
use script_basic.Common.{
  ℕ, ◌+◌, ◌-◌, ◌*◌, ◌/◌, ◌%◌, ◌≤◌, ◌<◌, ◌≡◌, refl, sym, ◌∙◌, Bool, not, ◌||◌, true, false, ◌&&◌,
  ltb, leb, ◌==◌, if◌then◌else◌, check_below, check_below_sound, arith,
}
use script_basic.Common.Int.{ℤ, pos, pos_part, neg_part, ◌-ℤ◌}
use script_basic.GmTime.{day_sec, month_table, month_of, breakdown}
use script_basic.GmTime.Range.{int_seconds, Split, split, fields, breakdown-fields}
use script_basic.GmTime.Calendar.{
  is_leap, year_length, days_before_year, days_before_year_lem, month_length, days_before_month,
  Date, IsValid, year_day, day_number, to_seconds, tm_of,
}

record IsSplit (t y : ℕ) (r : Split) : Type 0 where
  year_is : r.year ≡ y + 70
  leap_is : r.leap ≡ is_leap y
  before : days_before_year y * day_sec + r.rest ≡ t
  rest_in : r.rest < year_length y * day_sec

year-IsSplit : (t : ℕ) → IsSplit t ((split t).year - 70) (split t)
unfolding split
year-IsSplit t = ground (arith, days_before_year_lem ((split t).year - 70))

-- The day of the month, as mygmtime computes it.
day_of : Bool → ℕ → ℤ
day_of leap yday = pos yday -ℤ month_table leap (month_of leap (pos yday))

is_month_day : Bool → ℕ → Bool
is_month_day leap yday =
    let m : ℕ = month_of leap (pos yday) in
    let d = day_of leap yday in
    ltb m 12
    && leb 1 (pos_part d)
    && (neg_part d == 0)
    && leb (pos_part d) (month_length leap m)
    && (days_before_month leap m + pos_part d - 1 == yday)

common_days : check_below 365 (is_month_day false) ≡ true
unfolding check_below is_month_day month_of day_of days_before_month ◌-ℤ◌
common_days = refl

leap_days : check_below 366 (is_month_day true) ≡ true
unfolding check_below is_month_day month_of day_of days_before_month ◌-ℤ◌
leap_days = refl

-- What the month and the day of a day of the year are.
record IsDay (leap : Bool) (yday : ℕ) : Type 0 where
  month_in : month_of leap (pos yday) < 12
  day_from : 1 ≤ pos_part (day_of leap yday)
  day_to : pos_part (day_of leap yday) ≤ month_length leap (month_of leap (pos yday))
  natural : neg_part (day_of leap yday) ≡ 0
  same : days_before_month leap (month_of leap (pos yday)) + pos_part (day_of leap yday) - 1 ≡ yday

is_month_day-IsDay : (leap : Bool) (yday : ℕ) → is_month_day leap yday ≡ true → IsDay leap yday
unfolding is_month_day
is_month_day-IsDay leap yday h = ground arith

every-IsDay : (leap : Bool) (yday : ℕ) → yday < (if leap then 366 else 365) → IsDay leap yday
every-IsDay true yday h =
    is_month_day-IsDay true yday (check_below_sound 366 (is_month_day true) yday leap_days h)
every-IsDay false yday h =
    is_month_day-IsDay false yday (check_below_sound 365 (is_month_day false) yday common_days h)

-- The date of a time.
unfoldable pub date_of : ℕ → Date
unfolding day_of
date_of t =
    let r = split t in
    let yday : ℕ = r.rest / day_sec in
    let c : ℕ = r.rest % day_sec in
    record {
      year = r.year - 70;
      month = month_of r.leap (pos yday);
      day = pos_part (day_of r.leap yday);
      hour = c / 3600;
      minute = c / 60 % 60;
      second = c % 60;
    }

pos_of_natural : (z : ℤ) → neg_part z ≡ 0 → z ≡ pos (pos_part z)
pos_of_natural z h = ground arith

-- mygmtime gives every time not before 1970 the broken-down time of the one date with so many seconds.
pub record IsDateOf (t : ℕ) (d : Date) : Type 0 where
  pub valid : IsValid d
  pub same_time : to_seconds d ≡ t
  pub broken_down : breakdown t ≡ tm_of d

-- Without a cast that loses something, the fields of mygmtime are those of a date.
pub breakdown-IsDateOf : (t : ℕ) → t < int_seconds → IsDateOf t (date_of t)
unfolding date_of fields
breakdown-IsDateOf t small = record {
  valid = record {
    month_in = d.month_in;
    day_from = d.day_from;
    day_to = rw (← part.leap_is) d.day_to;
    hour_in = omega arith;
    minute_in = omega arith;
    second_in = omega arith;
  };
  same_time = omega (arith, same_year, part.before);
  broken_down = breakdown-fields t small ∙ (λ i. record {
    sec = pos (same_second i);
    min = pos (same_minute i);
    hour = pos (same_hour i);
    mday = pos_of_natural (day_of (split t).leap yday) d.natural i;
    mon = pos (month_of (split t).leap (pos yday));
    year = pos (same_start i);
    wday = pos ((same_days i + 4) % 7);
    yday = pos (sym same_year i);
    isdst = pos 0;
  });
}
  where
    part : IsSplit t ((split t).year - 70) (split t)
    part = year-IsSplit t

    yday : ℕ
    yday = (split t).rest / day_sec

    d : IsDay (split t).leap yday
    d = every-IsDay (split t).leap yday (ground (arith, part.rest_in, part.leap_is))

    same_year : year_day (date_of t) ≡ yday
    same_year = rw (← part.leap_is) d.same

    same_start : (split t).year ≡ (date_of t).year + 70
    same_start = omega (arith, part.year_is)

    same_days : t / day_sec ≡ day_number (date_of t)
    same_days = omega (arith, same_year, part.before, part.rest_in, part.year_is)

    c : ℕ
    c = (split t).rest - yday * day_sec

    same_hour : c / 3600 ≡ (date_of t).hour
    same_hour = omega arith

    same_minute : (c - c / 3600 * 3600) / 60 ≡ (date_of t).minute
    same_minute = omega arith

    same_second : c - c / 3600 * 3600 - (c - c / 3600 * 3600) / 60 * 60 ≡ (date_of t).second
    same_second = omega arith

-- The leap years of the calendar in use
abbrev pub is_gregorian_leap : ℕ → Bool
is_gregorian_leap y = (y % 4 == 0) && (not (y % 100 == 0) || (y % 400 == 0))

abbrev is_same : Bool → Bool → Bool
is_same true b = b
is_same false b = not b

is_same-eq : (a b : Bool) → is_same a b ≡ true → a ≡ b
is_same-eq true true e = refl
is_same-eq true false e = cc
is_same-eq false true e = cc
is_same-eq false false e = refl

gregorian_years : check_below 130 (λ y. is_same (is_leap y) (is_gregorian_leap (1970 + y))) ≡ true
unfolding check_below
gregorian_years = refl

-- The end of 2099, in seconds
abbrev pub end_of_2099 : ℕ
end_of_2099 = 4_102_444_800

-- For every number of seconds from 0 up to the end of 2099 there is a valid date that lies that many
-- seconds after the start of 1970, in a calendar that has the Gregorian leap years up to the year of
-- the date; and mygmtime's fields are those of that date, with the weekday and the day of the year.
pub date_of-IsDateOf :
    (t : ℕ)
    → t < end_of_2099
    → IsDateOf t (date_of t)
      × (((y : ℕ) → y ≤ (date_of t).year → is_leap y ≡ is_gregorian_leap (1970 + y)))
date_of-IsDateOf t h =
    let r = breakdown-IsDateOf t (omega arith) in
    let early : (date_of t).year < 130 =
      omega (arith, h, r.same_time, days_before_year_lem (date_of t).year) in
    (
      r,
      λ y le. is_same-eq _ _ (
          check_below_sound 130 (λ y. is_same (is_leap y) (is_gregorian_leap (1970 + y))) y
            gregorian_years (omega (arith, early, le))),
    )
