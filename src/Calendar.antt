-- ===== src/Calendar.antt =====
-- Civil times in UTC: the parts of Go's `time` that the engine uses.
-- The engine's servers and databases are taken to run in UTC.
pub mod Days
use lecrm.Common.{
  ℕ, zero, suc, ◌+◌, ◌-◌, ◌*◌, ◌/◌, ◌%◌, ◌≤◌, ◌<◌, Bool, true, false, ◌&&◌, ◌||◌, not, eqb, ltb,
  leb, if◌then◌else◌,
}

pub record Time : Type 0 where
  pub year : ℕ
  pub month : ℕ
  pub day : ℕ
  -- since midnight
  pub nanos : ℕ

abbrev pub hour : ℕ
hour = 3600000000000

abbrev pub nanos_per_day : ℕ
nanos_per_day = 86400000000000

unfoldable pub is_leap : ℕ → Bool
is_leap y = eqb (y % 4) 0 && (not (eqb (y % 100) 0) || eqb (y % 400) 0)

unfoldable pub days_in_month : ℕ → ℕ → ℕ
unfolding is_leap
days_in_month y m =
    if eqb m 2
    then (if is_leap y then 29 else 28)
    else if eqb m 4 || eqb m 6 || eqb m 9 || eqb m 11
    then 30
    else 31

-- Days of the years before `y`, counted from year 0, which is a leap year.
unfoldable pub days_before_year : ℕ → ℕ
days_before_year y = 365 * y + (y + 3) / 4 + (y + 399) / 400 - (y + 99) / 100

unfoldable pub days_before_month : ℕ → ℕ → ℕ
days_before_month y zero = 0
days_before_month y (suc m) =
    let earlier = days_before_month y m in if eqb m 0 then 0 else earlier + days_in_month y m

unfoldable pub day_number : Time → ℕ
day_number t = days_before_year t.year + days_before_month t.year t.month + (t.day - 1)

-- `t.UnixNano()`, from year 0 on.
unfoldable pub instant : Time → ℕ
instant t = day_number t * nanos_per_day + t.nanos

-- `t.Weekday()`, Sunday being 0.
unfoldable pub weekday : Time → ℕ
weekday t = (day_number t + 6) % 7

pub record IsTime (t : Time) : Type 0 where
  pub month_low : 1 ≤ t.month
  pub month_high : t.month ≤ 12
  pub day_low : 1 ≤ t.day
  pub day_high : t.day ≤ days_in_month t.year t.month
  pub within_day : t.nanos < nanos_per_day

-- `t.AddDate(0, 0, 1)`
unfoldable pub next_day : Time → Time
next_day t =
    if ltb t.day (days_in_month t.year t.month)
    then record t { day = t.day + 1 }
    else if ltb t.month 12
    then record t { month = t.month + 1; day = 1 }
    else record t { year = t.year + 1; month = 1; day = 1 }

-- `time.Date` for a month in range and a day of at most 31: a day past the month's end rolls over.
unfoldable pub date : ℕ → ℕ → ℕ → ℕ → Time
date y m d nanos =
    if leb d (days_in_month y m)
    then record { year = y; month = m; day = d; nanos = nanos }
    else if eqb m 12
    then record { year = y + 1; month = 1; day = d - days_in_month y m; nanos = nanos }
    else record { year = y; month = m + 1; day = d - days_in_month y m; nanos = nanos }

-- `date_trunc('month', t)`
unfoldable pub start_of_month : Time → Time
start_of_month t = record t { day = 1; nanos = 0 }

-- `startOfNextMonth`: month 13 is January of the next year.
unfoldable pub start_of_next_month : Time → Time
start_of_next_month t =
    if eqb t.month 12
    then record { year = t.year + 1; month = 1; day = 1; nanos = 0 }
    else record { year = t.year; month = t.month + 1; day = 1; nanos = 0 }
