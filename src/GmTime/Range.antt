-- ===== src/GmTime/Range.antt =====
-- mygmtime where all its numbers are in the range of `int`: what it computes without the casts.
use script_basic.Common.{
  ℕ, ◌+◌, ◌-◌, ◌*◌, ◌/◌, ◌%◌, ◌^◌, ◌<◌, ◌≡◌, refl, Bool, true, false, leb, inl, inr, Bool-cases,
  if◌then◌else◌, arith,
}
use script_basic.Common.Int.{pos, pos_part, ◌+ℤ◌, ◌-ℤ◌, ◌*ℤ◌}
use script_basic.GmTime.{
  Tm, day_sec, year_sec, four_year_sec, YearSplit, int_of, year_within, year_split, month_table,
  month_of, mod_seven, breakdown,
}

-- The number of days and 4, the number of the base's weekday, is an `int` up to here.
abbrev pub int_seconds : ℕ
int_seconds = (2 ^ 31 - 4) * day_sec

pub record Split : Type 0 where
  pub year : ℕ
  pub rest : ℕ
  pub leap : Bool

abbrev split_at : ℕ → ℕ → Bool → Split
split_at y c l = record { year = y; rest = c; leap = l }

unfoldable pub within : ℕ → ℕ → Split
within y c =
    if leb year_sec c
    then (let c1 : ℕ = c - year_sec in
        if leb year_sec c1
        then (let c2 : ℕ = c1 - year_sec in
            if leb (year_sec + day_sec) c2
            then split_at (y + 3) (c2 - (year_sec + day_sec)) false
            else split_at (y + 2) c2 true)
        else split_at (y + 1) c1 false)
    else split_at y c false

unfoldable pub split : ℕ → Split
unfolding within
split t = let q : ℕ = t / four_year_sec in within (q * 4 + 70) (t - q * four_year_sec)

abbrev pub widened : Split → YearSplit
widened r = record { year = pos r.year; rest = r.rest; leap = r.leap }

pub split_rest : (t : ℕ) → (split t).rest < 366 * day_sec
unfolding split within
split_rest t = ground arith

int_of_small : (n : ℕ) → n < 2 ^ 31 → int_of n ≡ pos n
unfolding int_of
int_of_small n h = ground arith

less : (a q k : ℕ) → pos_part (pos a -ℤ pos q *ℤ pos k) ≡ a - q * k
unfolding ◌-ℤ◌ ◌*ℤ◌
less a q k = ground arith

year_from : (q : ℕ) → pos q *ℤ pos 4 +ℤ pos 70 ≡ pos (q * 4 + 70)
unfolding ◌+ℤ◌ ◌*ℤ◌
year_from q = ground arith

plus : (a b : ℕ) → pos a +ℤ pos b ≡ pos (a + b)
unfolding ◌+ℤ◌
plus a b = ground arith

year_within-within : (y c : ℕ) → year_within (pos y) c ≡ widened (within y c)
unfolding year_within within
year_within-within y c = elim (Bool-cases (leb year_sec c)) [
  | inr e ↦ rw e refl
  | inl e ↦ rw e (elim (Bool-cases (leb year_sec (c - year_sec))) [
    | inr f ↦ rw f (rw (plus y 1) refl)
    | inl f ↦ rw f (elim (Bool-cases (leb (year_sec + day_sec) (c - year_sec - year_sec))) [
      | inr g ↦ rw g (rw (plus y 2) refl)
      | inl g ↦ rw g (rw (plus y 3) refl)
    ])
  ])
]

year_split-split : (t : ℕ) → t < int_seconds → year_split t ≡ widened (split t)
unfolding year_split split
year_split-split t h =
    let q : ℕ = t / four_year_sec in
    let y = year_from q in
    let c = less t q four_year_sec in
    rw (int_of_small q (omega arith))
      (rw c (rw y (year_within-within (q * 4 + 70) (t - q * four_year_sec))))

-- The fields, from the year, the seconds since its start and whether it is a leap year.
unfoldable pub fields : ℕ → Split → Tm
fields t r =
    let yday : ℕ = r.rest / day_sec in
    let mon : ℕ = month_of r.leap (pos yday) in
    let c : ℕ = r.rest - yday * day_sec in
    let c' : ℕ = c - c / 3600 * 3600 in
    record {
      sec = pos (c' - c' / 60 * 60);
      min = pos (c' / 60);
      hour = pos (c / 3600);
      mday = pos yday -ℤ month_table r.leap mon;
      mon = pos mon;
      year = pos r.year;
      wday = pos ((t / day_sec + 4) % 7);
      yday = pos yday;
      isdst = pos 0;
    }

weekday : (n : ℕ) → mod_seven (pos n +ℤ pos 4) ≡ pos ((n + 4) % 7)
unfolding mod_seven ◌+ℤ◌
weekday n = ground arith

pub breakdown-fields : (t : ℕ) → t < int_seconds → breakdown t ≡ fields t (split t)
unfolding breakdown fields
breakdown-fields t h =
    let r = split t in
    let yday : ℕ = r.rest / day_sec in
    let c : ℕ = r.rest - yday * day_sec in
    let c' : ℕ = c - c / 3600 * 3600 in
    let rest = split_rest t in
    rw (year_split-split t h) (
      rw
        (
          int_of_small yday (omega (arith, rest)),
          int_of_small (t / day_sec) (omega arith),
          weekday (t / day_sec),
        )
        (rw (less r.rest yday day_sec) (
          rw (int_of_small (c / 3600) (omega (arith, rest))) (
            rw (less c (c / 3600) 3600) (
              rw (int_of_small (c' / 60) (omega (arith, rest))) (
                rw (less c' (c' / 60) 60)
                  (rw (int_of_small (c' - c' / 60 * 60) (omega (arith, rest))) refl)))))))
