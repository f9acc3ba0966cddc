-- ===== src/GmTime/RoundTrip.antt =====
-- mygmktime gives the date of every broken-down time back its seconds.
use native.Mathlib.Nat.{mul-div_cancel_left}
use native.Mathlib.Decide.{dec_lt}
use mathlib.Core.Path.{subst}
use script_basic.Common.{
  ℕ, zero, suc, ◌+◌, ◌*◌, ◌%◌, ◌≤◌, ◌<◌, ◌≡◌, refl, sym, ap, ◌∙◌, Bool, true, false, ◌&&◌, ◌↔◌,
  some, ltb, ◌==◌, ==_iff, if◌then◌else◌, check_below, check_below_sound, arith,
}
use script_basic.Common.Int.{ℤ, pos, negsuc, pos_part, neg_part, ◌+ℤ◌, ◌-ℤ◌, ◌*ℤ◌, ltb_ℤ, int_laws}
use script_basic.GmTime.{
  Tm, month_table, breakdown, mygmtime, adjust, year_out, chk_add, elapsed_days, scale, seconds,
  mygmktime,
}
use script_basic.GmTime.Calendar.{
  is_leap, days_before_year, days_before_year_lem, days_before_month, Date, IsValid, day_number,
  to_seconds, tm_of,
}
use script_basic.GmTime.Unique.{year_day_lt, to_seconds-injective}
use script_basic.GmTime.Breakdown.{date_of, IsDateOf, breakdown-IsDateOf}
use script_basic.GmTime.Range.{int_seconds}

scale_pos : (a k b : ℕ) → scale (pos a) (pos k) (pos b) ≡ some (pos (a * k + b))
unfolding scale ◌+ℤ◌ ◌*ℤ◌
scale_pos zero k b = ground arith
scale_pos (suc a) k b = ground (arith, mul-div_cancel_left k {n = suc a} (omega arith))

seconds_pos :
    (day : ℕ) (tb : Tm) (d : Date)
    → tb.hour ≡ pos d.hour
    → tb.min ≡ pos d.minute
    → tb.sec ≡ pos d.second
    → seconds (pos day) tb ≡ some (pos (((day * 24 + d.hour) * 60 + d.minute) * 60 + d.second))
unfolding seconds
seconds_pos day tb d h m s = ground (
  arith,
  scale_pos day 24 d.hour,
  scale_pos (day * 24 + d.hour) 60 d.minute,
  scale_pos ((day * 24 + d.hour) * 60 + d.minute) 60 d.second,
)

-- The table of a common year, with a day more in a leap year's months after February.
abbrev is_month : Bool → ℕ → Bool
is_month leap m =
    let extra : ℕ = if leap && ltb 1 m then 1 else 0 in
    pos_part (month_table false m) + extra + 1
    == neg_part (month_table false m) + days_before_month leap m

months : (leap : Bool) → check_below 12 (is_month leap) ≡ true
unfolding check_below month_table days_before_month
months true = refl
months false = refl

years : (y : ℕ) → (pos (y + 70) -ℤ pos 70) *ℤ pos 365 ≡ pos (y * 365)
unfolding ◌-ℤ◌ ◌*ℤ◌
years y = ground arith

abbrev extra_day : ℕ → ℕ → ℤ
extra_day y m = if ((y + 70) % 4 == 0) && ltb_ℤ (pos 1) (pos m) then pos 1 else pos 0

extra_day_lem : (y m : ℕ) → extra_day y m ≡ pos (if is_leap y && ltb 1 m then 1 else 0)
extra_day_lem y m = ground arith

month_before :
    (y m : ℕ)
    → m < 12
    → month_table false m +ℤ extra_day y m ≡ pos (days_before_month (is_leap y) m) -ℤ pos 1
month_before y m h = omega (
  int_laws,
  ap pos_part (extra_day_lem y m),
  ap neg_part (extra_day_lem y m),
  (==_iff _ _).0 (check_below_sound 12 (is_month (is_leap y)) m (months (is_leap y)) h),
)

-- The days since 1970 of a date not after 2039.
elapsed_days_lem :
    (y m d : ℕ)
    → m < 12
    → elapsed_days (pos (y + 70)) (pos m) (pos d)
      ≡ pos (days_before_year y + days_before_month (is_leap y) m + d) -ℤ pos 1
unfolding elapsed_days
elapsed_days_lem y m d h =
    rw (years y, month_before y m h) (omega (int_laws, days_before_year_lem y))

elapsed_date :
    (d : Date)
    → IsValid d
    → elapsed_days (pos (d.year + 70)) (pos d.month) (pos d.day) ≡ pos (day_number d)
unfolding ◌-ℤ◌
elapsed_date d v = elapsed_days_lem d.year d.month d.day v.month_in ∙ ground (arith, v.day_from)

-- The date of the seconds of a date is the date.
date_of-to_seconds :
    (d : Date) → IsValid d → to_seconds d < int_seconds → date_of (to_seconds d) ≡ d
date_of-to_seconds d v small =
    let r = breakdown-IsDateOf (to_seconds d) small in
    to_seconds-injective (date_of (to_seconds d)) d r.valid v r.same_time

breakdown-to_seconds :
    (d : Date) → IsValid d → to_seconds d < int_seconds → breakdown (to_seconds d) ≡ tm_of d
breakdown-to_seconds d v small =
    (breakdown-IsDateOf (to_seconds d) small).broken_down ∙ ap tm_of (date_of-to_seconds d v small)

chk_add_pos : (n k : ℕ) (b : ℤ) → chk_add (pos n) b (pos k) ≡ false
unfolding chk_add
chk_add_pos n k b = ground arith

year_in : (y : ℕ) → y ≤ 69 → year_out (pos (y + 70)) ≡ false
unfolding year_out
year_in y h = ground arith

-- The end of 2039, in seconds.
abbrev pub last_second : ℕ
last_second = 2_208_988_800

before_end : (d : Date) → IsValid d → (to_seconds d < last_second) ↔ (d.year ≤ 69)
before_end d v = (forward, backward)
  where
    forward : to_seconds d < last_second → d.year ≤ 69
    forward h = omega (arith, days_before_year_lem d.year)

    backward : d.year ≤ 69 → to_seconds d < last_second
    backward h =
        ground
          (arith, days_before_year_lem d.year, year_day_lt d v, v.hour_in, v.minute_in, v.second_in)

-- Where the month and the year come out right, mygmktime gives the seconds and writes the whole
-- broken-down time.
pub record Means (tb : Tm) (d : Date) : Type 0 where
  pub near : year_out tb.year ≡ false
  pub adjusted : adjust tb.year tb.mon ≡ (pos (d.year + 70), pos d.month)
  pub day_is : tb.mday ≡ pos d.day
  pub hour_is : tb.hour ≡ pos d.hour
  pub minute_is : tb.min ≡ pos d.minute
  pub second_is : tb.sec ≡ pos d.second

pub mygmktime-Means :
    (tb : Tm) (d : Date)
    → Means tb d
    → IsValid d
    → d.year ≤ 69
    → mygmktime tb ≡ (pos (to_seconds d), tm_of d)
unfolding mygmktime mygmtime
mygmktime-Means tb d e v h = ground (
  arith,
  year_in d.year h,
  elapsed_date d v,
  chk_add_pos (day_number d) d.day (elapsed_days (pos (d.year + 70)) (pos d.month) (pos 0)),
  seconds_pos (day_number d) tb d e.hour_is e.minute_is e.second_is,
  breakdown-to_seconds d v (omega (arith, (before_end d v).1 h)),
)

-- A date after 2039 is refused.
mygmktime_late : (d : Date) → 69 < d.year → mygmktime (tm_of d) ≡ (negsuc 0, tm_of d)
unfolding mygmktime year_out
mygmktime_late d h = ground arith

tm_of-Means : (d : Date) → IsValid d → d.year ≤ 69 → Means (tm_of d) d
unfolding adjust
tm_of-Means d v h = record {
  near = year_in d.year h;
  adjusted = ground (arith, v.month_in);
  day_is = refl;
  hour_is = refl;
  minute_is = refl;
  second_is = refl;
}

module _ (t : ℕ) (small : t < int_seconds) where
  d : Date
  d = date_of t

  r : IsDateOf t d
  unfolding d
  r = breakdown-IsDateOf t small

  early : t < last_second → mygmktime (breakdown t) ≡ (pos t, breakdown t)
  early h =
      let near : d.year ≤ 69 = (before_end d r.valid).0 (omega (arith, h, r.same_time)) in
      ap mygmktime r.broken_down
      ∙ mygmktime-Means (tm_of d) d (tm_of-Means d r.valid near) r.valid near
      ∙ (λ i. (pos (r.same_time i), sym r.broken_down i))

  is_far : last_second ≤ t → 69 < d.year
  is_far h = elim (dec_lt 69 d.year) [
    | yes q ↦ q
    | no q ↦ absurd (omega (arith, r.same_time, (before_end d r.valid).1 (omega arith)))
  ]

  late : last_second ≤ t → mygmktime (breakdown t) ≡ (negsuc 0, breakdown t)
  late h =
      ap mygmktime r.broken_down
      ∙ mygmktime_late d (is_far h)
      ∙ (λ i. (negsuc 0, sym r.broken_down i))

-- The broken-down time that mygmtime gives for a number of seconds from 0 on that is below 86400 (2
-- ^ 31 - 4), so that no cast to `int` loses anything, is taken back by mygmktime to that number, and
-- left as it is, up to the end of 2039; from 2040 on mygmktime returns -1.
pub mygmktime-mygmtime :
    (t : ℕ) (tm : Tm)
    → t < int_seconds
    → mygmtime (pos t) ≡ some tm
    → (t < last_second → mygmktime tm ≡ (pos t, tm))
      × (last_second ≤ t → mygmktime tm ≡ (negsuc 0, tm))
unfolding mygmtime
mygmktime-mygmtime t tm small e =
    let same : breakdown t ≡ tm = cc in
    (
      λ h. subst (λ x. mygmktime x ≡ (pos t, x)) same (early t small h),
      λ h. subst (λ x. mygmktime x ≡ (negsuc 0, x)) same (late t small h),
    )
