-- ===== src/GmTime/Normal.antt =====
-- mygmktime on a month outside 0 to 11, which moves the year.
use script_basic.Common.{ℕ, suc, ◌+◌, ◌-◌, ◌*◌, ◌≤◌, ◌<◌, ◌≡◌, refl, arith}
use script_basic.Common.Int.{pos, negsuc, ◌+ℤ◌, ◌-ℤ◌}
use script_basic.GmTime.{Tm, adjust, year_out, mygmktime}
use script_basic.GmTime.Calendar.{Date, IsValid, to_seconds, tm_of}
use script_basic.GmTime.RoundTrip.{mygmktime-Means}

-- The same date told with a month that is `months` later, in a year that makes up for it.
abbrev pub months_later : ℕ → Date → Tm
months_later k d = record (tm_of d) { mon = pos (d.month + k * 12); year = pos (d.year + 70 - k) }

abbrev pub months_earlier : ℕ → Date → Tm
months_earlier k d = record (tm_of d) {
  mon = negsuc (k * 12 + 11 - d.month);
  year = pos (d.year + 70 + suc k);
}

adjust_later :
    (y m k : ℕ) → m < 12 → k ≤ y → adjust (pos (y - k)) (pos (m + k * 12)) ≡ (pos y, pos m)
unfolding adjust ◌+ℤ◌ ◌-ℤ◌
adjust_later y m k h le = ground arith

adjust_earlier :
    (y m k : ℕ) → m < 12 → adjust (pos (y + suc k)) (negsuc (k * 12 + 11 - m)) ≡ (pos y, pos m)
unfolding adjust ◌+ℤ◌ ◌-ℤ◌
adjust_earlier y m k h = ground arith

-- A month of 12 or more counts on into later years: a valid date up to 2039, told with its month `12
-- k` higher in the year `k` earlier, that year from 1969 on, comes out of mygmktime as the date.
pub mygmktime-months_later :
    (d : Date) (k : ℕ)
    → IsValid d
    → d.year ≤ 69
    → k ≤ d.year + 1
    → mygmktime (months_later k d) ≡ (pos (to_seconds d), tm_of d)
unfolding year_out
mygmktime-months_later d k v h le =
    mygmktime-Means (months_later k d) d
      (record {
        near = ground arith;
        adjusted = adjust_later (d.year + 70) d.month k v.month_in (omega arith);
        day_is = refl;
        hour_is = refl;
        minute_is = refl;
        second_is = refl;
      })
      v h

-- A negative month counts back into earlier years: a valid date, told with its month `12 (k + 1)`
-- lower in the year `k + 1` later, that year not after 2039, comes out of mygmktime as the date.
pub mygmktime-months_earlier :
    (d : Date) (k : ℕ)
    → IsValid d
    → d.year + suc k ≤ 69
    → mygmktime (months_earlier k d) ≡ (pos (to_seconds d), tm_of d)
unfolding year_out
mygmktime-months_earlier d k v h =
    mygmktime-Means (months_earlier k d) d
      (record {
        near = ground arith;
        adjusted = adjust_earlier (d.year + 70) d.month k v.month_in;
        day_is = refl;
        hour_is = refl;
        minute_is = refl;
        second_is = refl;
      })
      v (omega arith)
