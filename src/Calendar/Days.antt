-- ===== src/Calendar/Days.antt =====
-- The calendar counts days without gaps.
use native.Mathlib.Nat.{add-zero}
use lecrm.Common.{ℕ, zero, suc, ◌+◌, ◌-◌, ◌≤◌, ◌<◌, ◌≡◌, refl, sym, ◌∙◌, arith, if◌then◌else◌}
use lecrm.Calendar.{
  Time, IsTime, nanos_per_day, is_leap, days_in_month, days_before_year, days_before_month,
  day_number, instant, next_day, start_of_month, start_of_next_month,
}

add_suc_one : (m k : ℕ) → m + suc k ≡ m + k + 1
add_suc_one m k = omega arith

year_length : ℕ → ℕ
year_length y = if is_leap y then 366 else 365

days_before_year-suc : (y : ℕ) → days_before_year (y + 1) ≡ days_before_year y + year_length y
unfolding days_before_year year_length is_leap
days_before_year-suc y = ground arith

days_before_month_13 : (y : ℕ) → days_before_month y 13 ≡ year_length y
unfolding days_before_month days_in_month year_length
days_before_month_13 y = ground arith

pub days_in_month-pos : (y m : ℕ) → 28 ≤ days_in_month y m
unfolding days_in_month
days_in_month-pos y m = ground arith

pub days_in_month-le : (y m : ℕ) → days_in_month y m ≤ 31
unfolding days_in_month
days_in_month-le y m = ground arith

days_before_month-suc :
    (y m : ℕ) → 1 ≤ m → days_before_month y (m + 1) ≡ days_before_month y m + days_in_month y m
unfolding days_before_month
days_before_month-suc y zero h = absurd (omega arith)
days_before_month-suc y (suc m) h = ground arith

days_before_month-first : (y : ℕ) → days_before_month y 1 ≡ 0
unfolding days_before_month
days_before_month-first y = refl

days_before_month_end :
    (y m : ℕ) → m ≡ 12 → days_before_month y m + days_in_month y m ≡ year_length y
days_before_month_end y m e =
    rw e (sym (days_before_month-suc y 12 (omega arith)) ∙ days_before_month_13 y)

days_before_month_mono : (y m k : ℕ) → 1 ≤ m → days_before_month y m ≤ days_before_month y (m + k)
days_before_month_mono y m zero h = rw add-zero (omega arith)
days_before_month_mono y m (suc k) h =
    rw (add_suc_one m k)
      (omega (arith, days_before_month_mono y m k h, days_before_month-suc y (m + k) (omega arith)))

-- What has gone of the year when month `m` ends.
before_month_bound :
    (y m : ℕ) → 1 ≤ m → m ≤ 12 → days_before_month y m + days_in_month y m ≤ year_length y
before_month_bound y m h k =
    let rest : m + 1 + (12 - m) ≡ 13 = omega arith in
    let grown : days_before_month y (m + 1) ≤ days_before_month y 13 =
      rw rest at (days_before_month_mono y (m + 1) (12 - m) (omega arith)) in
    omega (arith, grown, days_before_month-suc y m h, days_before_month_13 y)

-- The day after a date is numbered one more.
pub day_number-next_day : (t : Time) → IsTime t → day_number (next_day t) ≡ day_number t + 1
unfolding day_number next_day
day_number-next_day t v = ground (
  arith,
  days_before_month-suc t.year t.month,
  days_before_month-first (t.year + 1),
  days_before_month_end t.year t.month,
  days_before_year-suc t.year,
)

pub next_day-IsTime : (t : Time) → IsTime t → IsTime (next_day t)
unfolding next_day
next_day-IsTime t v =
    ground (arith, days_in_month-pos t.year (t.month + 1), days_in_month-pos (t.year + 1) 1)

-- A date of year `y` is numbered within that year.
pub day_number-lt : (t : Time) → IsTime t → day_number t < days_before_year (t.year + 1)
unfolding day_number
day_number-lt t v =
    omega (
      arith,
      days_before_year-suc t.year,
      before_month_bound t.year t.month v.month_low v.month_high,
    )

-- A later day is a later moment.
pub instant-lt :
    (s t : Time) → day_number s < day_number t → s.nanos < nanos_per_day → instant s < instant t
unfolding instant
instant-lt s t h k = omega arith

day_number-lt-next_month : (t : Time) → IsTime t → day_number t < day_number (start_of_next_month t)
unfolding day_number start_of_next_month
day_number-lt-next_month t v = ground (
  arith,
  days_before_month-suc t.year t.month,
  days_before_month-first (t.year + 1),
  days_before_month_end t.year t.month,
  days_before_year-suc t.year,
)

-- The next month begins after every moment of this one.
pub start_of_next_month-lt : (t : Time) → IsTime t → instant t < instant (start_of_next_month t)
start_of_next_month-lt t v =
    instant-lt t (start_of_next_month t) (day_number-lt-next_month t v) v.within_day

-- This month has begun.
pub start_of_month-le : (t : Time) → instant (start_of_month t) ≤ instant t
unfolding instant day_number start_of_month
start_of_month-le t = omega arith
