-- ===== src/GmTime/Examples.antt =====
-- mygmtime.c: runs at single dates.
use native.Mathlib.Omega.{arith}
use script_basic.Common.{ℕ, ◌+◌, ◌≡◌, refl, ◌<◌, ◌≤◌}
use script_basic.Common.Int.{pos, negsuc, ◌-ℤ◌, ◌+ℤ◌, ◌*ℤ◌}
use script_basic.GmTime.{
  Tm, int_of, year_within, year_split, mod_seven, breakdown, month_of, mygmtime, mygmktime,
}
use script_basic.GmTime.Calendar.{is_leap, Date, IsValid, to_seconds, tm_of}
use script_basic.GmTime.Breakdown.{IsDateOf, date_of, is_gregorian_leap, date_of-IsDateOf}
use script_basic.GmTime.RoundTrip.{last_second, mygmktime-mygmtime}
use script_basic.GmTime.Normal.{months_later, mygmktime-months_later}

-- 2000-02-29 12:30:59
abbrev leap_day : Date
leap_day = record { year = 30; month = 1; day = 29; hour = 12; minute = 30; second = 59 }

leap_day-IsValid : IsValid leap_day
leap_day-IsValid = record {
  month_in = omega arith;
  day_from = omega arith;
  day_to = omega arith;
  hour_in = omega arith;
  minute_in = omega arith;
  second_in = omega arith;
}

date_of-IsDateOf_example :
    IsDateOf 951_827_459 (date_of 951_827_459)
    × ((y : ℕ) → y ≤ (date_of 951_827_459).year → is_leap y ≡ is_gregorian_leap (1970 + y))
date_of-IsDateOf_example = date_of-IsDateOf 951_827_459 (omega arith)

-- What that time is broken down to; it was a Tuesday.
abbrev leap_time : Tm
leap_time = record {
  sec = pos 59;
  min = pos 30;
  hour = pos 12;
  mday = pos 29;
  mon = pos 1;
  year = pos 100;
  wday = pos 2;
  yday = pos 59;
  isdst = pos 0;
}

mygmktime-mygmtime_example :
    (951_827_459 < last_second → mygmktime leap_time ≡ (pos 951_827_459, leap_time))
    × (last_second ≤ 951_827_459 → mygmktime leap_time ≡ (negsuc 0, leap_time))
unfolding mygmtime breakdown year_split year_within int_of mod_seven month_of ◌-ℤ◌ ◌+ℤ◌ ◌*ℤ◌
mygmktime-mygmtime_example = mygmktime-mygmtime 951_827_459 leap_time (omega arith) refl

mygmktime-months_later_example :
    mygmktime (months_later 2 leap_day) ≡ (pos (to_seconds leap_day), tm_of leap_day)
mygmktime-months_later_example =
    mygmktime-months_later leap_day 2 leap_day-IsValid (omega arith) (omega arith)
