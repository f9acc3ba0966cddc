-- ===== src/GmTime/Unique.antt =====
-- Two valid dates of the calendar of mygmtime.c at the same second are one date.
use native.Mathlib.Decide.{le_ind, dec_lt}
use native.Mathlib.Nat.{le_refl}
use mathlib.Core.Path.{subst}
use script_basic.Common.{
  ℕ, suc, ◌+◌, ◌-◌, ◌≤◌, ◌<◌, ◌≡◌, refl, ap, Bool, true, false, if◌then◌else◌, arith,
}
use script_basic.GmTime.Calendar.{
  is_leap, year_length, days_before_year, days_before_year_lem, month_length, days_before_month,
  Date, IsValid, year_day, day_number, to_seconds,
}

days_before_month_mono :
    (leap : Bool) (m n : ℕ) → m ≤ n → days_before_month leap m ≤ days_before_month leap n
unfolding days_before_month
days_before_month_mono leap m n h =
    le_ind (λ k. days_before_month leap m ≤ days_before_month leap k) (le_refl _)
      (λ k le ih. omega arith) n h

-- A day of an earlier month comes before each day of a later one.
month_lt :
    (leap : Bool) (m n a b : ℕ)
    → m < n
    → a ≤ month_length leap m
    → 1 ≤ b
    → days_before_month leap m + a < days_before_month leap n + b
unfolding days_before_month
month_lt leap m n a b h ha hb = omega (arith, days_before_month_mono leap (suc m) n h)

twelve_months : (leap : Bool) → days_before_month leap 12 ≡ (if leap then 366 else 365)
unfolding days_before_month
twelve_months true = refl
twelve_months false = refl

pub year_day_lt : (d : Date) → IsValid d → year_day d < year_length d.year
year_day_lt d v = omega (
  arith,
  v.day_from,
  twelve_months (is_leap d.year),
  month_lt (is_leap d.year) d.month 12 d.day 1 v.month_in v.day_to,
)

same_month_day :
    (leap : Bool) (m n a b : ℕ)
    → a ≤ month_length leap m
    → b ≤ month_length leap n
    → 1 ≤ a
    → 1 ≤ b
    → days_before_month leap m + a - 1 ≡ days_before_month leap n + b - 1
    → (m ≡ n) × (a ≡ b)
same_month_day leap m n a b ha hb pa pb e = elim (dec_lt m n) [
  | yes h ↦ absurd (omega (arith, month_lt leap m n a b h ha pb))
  | no h ↦ elim (dec_lt n m) [
    | yes k ↦ absurd (omega (arith, month_lt leap n m b a k hb pa))
    | no k ↦
        let same : m ≡ n = omega arith in (same, omega (arith, ap (days_before_month leap) same))
  ]
]

same_year : (d e : Date) → IsValid d → IsValid e → day_number d ≡ day_number e → d.year ≡ e.year
same_year d e v w h = ground (
  arith,
  days_before_year_lem d.year,
  days_before_year_lem e.year,
  year_day_lt d v,
  year_day_lt e w,
)

pub to_seconds-injective :
    (d e : Date) → IsValid d → IsValid e → to_seconds d ≡ to_seconds e → d ≡ e
to_seconds-injective d e v w h = λ i. record {
  year = year i;
  month = month_day.0 i;
  day = month_day.1 i;
  hour = hour i;
  minute = minute i;
  second = second i;
}
  where
    days : day_number d ≡ day_number e
    days =
        omega (arith, h, v.hour_in, w.hour_in, v.minute_in, w.minute_in, v.second_in, w.second_in)

    hour : d.hour ≡ e.hour
    hour =
        omega (arith, h, v.hour_in, w.hour_in, v.minute_in, w.minute_in, v.second_in, w.second_in)

    minute : d.minute ≡ e.minute
    minute =
        omega (arith, h, v.hour_in, w.hour_in, v.minute_in, w.minute_in, v.second_in, w.second_in)

    second : d.second ≡ e.second
    second =
        omega (arith, h, v.hour_in, w.hour_in, v.minute_in, w.minute_in, v.second_in, w.second_in)

    year : d.year ≡ e.year
    year = same_year d e v w days

    same_day : days_before_month (is_leap e.year) d.month + d.day - 1 ≡ year_day e
    same_day = omega (
      arith,
      days,
      ap days_before_year year,
      v.day_from,
      w.day_from,
      ap (λ y. days_before_month (is_leap y) d.month) year,
    )

    month_day : (d.month ≡ e.month) × (d.day ≡ e.day)
    month_day =
        same_month_day (is_leap e.year) d.month e.month d.day e.day
          (subst (λ y. d.day ≤ month_length (is_leap y) d.month) year v.day_to) w.day_to v.day_from
          w.day_from same_day
