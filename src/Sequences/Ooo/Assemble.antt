-- ===== src/Sequences/Ooo/Assemble.antt =====
-- What a written day and month come to.
use lecrm.Common.{refl, ℕ, ◌+◌, ◌≤◌, ◌<◌, none, some, ◌≡◌, ◌⊎◌, ap, arith, eqb, if◌then◌else◌}
use lecrm.Calendar.{
  Time, IsTime, nanos_per_day, days_in_month, days_before_year, day_number, instant, date,
}
use lecrm.Calendar.Days.{days_in_month-pos, days_in_month-le, day_number-lt}
use lecrm.Sequences.Ooo.Dates.{resume_time, next_year, infer_year, assemble}

-- The year that a date without one is read in.
abbrev pub year_or_now : ℕ → Time → ℕ
year_or_now year now = if eqb year 0 then now.year else year

-- The calendar has the day.
abbrev pub IsDate : ℕ → ℕ → ℕ → Type 0
IsDate y mo day = (1 ≤ mo) × (mo ≤ 12) × (1 ≤ day) × (day ≤ days_in_month y mo)

abbrev pub IsOn : Time → ℕ → ℕ → ℕ → Type 0
IsOn r y mo day = (r.year ≡ y) × (r.month ≡ mo) × (r.day ≡ day) × (r.nanos ≡ resume_time)

-- The day at 09:00 is over by more than a day.
abbrev pub IsOver : ℕ → ℕ → ℕ → Time → Type 0
IsOver y mo day now =
    instant (record { year = y; month = mo; day = day; nanos = 32400000000000 }) + nanos_per_day
    < instant now

-- The day itself at 09:00, if it is in another year or not over by more than a day; a year later, if it
-- is in the current year and over by more than a day, and 29 February is 1 March then.
abbrev pub IsReturn : ℕ → ℕ → ℕ → Time → Time → Type 0
IsReturn y mo day now r =
    (((y ≡ now.year → ¬ IsOver y mo day now)) × IsOn r y mo day)
    ⊎ ((y ≡ now.year)
        × IsOver y mo day now
        × (IsOn r (y + 1) mo day ⊎ ((mo ≡ 2) × (day ≡ 29) × IsOn r (y + 1) 3 1)))

date-IsTime :
    (y mo day : ℕ)
    → IsDate y mo day
    → IsTime (date y mo day resume_time) × IsOn (date y mo day resume_time) y mo day
unfolding date
date-IsTime y mo day h = ground arith

date-IsLost :
    (y mo day : ℕ)
    → (1 ≤ mo) × (mo ≤ 12) × (1 ≤ day) × (day ≤ 31)
    → days_in_month y mo < day
    → (date y mo day resume_time).day < day
unfolding date
date-IsLost y mo day h k = ground (arith, days_in_month-pos y mo)

next_year_cases :
    (t : Time)
    → IsTime t
    → t.nanos ≡ resume_time
    → IsTime (next_year t)
      × (IsOn (next_year t) (t.year + 1) t.month t.day
          ⊎ ((t.month ≡ 2) × (t.day ≡ 29) × IsOn (next_year t) (t.year + 1) 3 1))
unfolding next_year date days_in_month
next_year_cases t v e = ground arith

-- The instant of a day at 09:00.
instant-IsOn :
    (y mo day : ℕ) (t : Time)
    → IsOn t y mo day
    → instant t ≡ instant (record { year = y; month = mo; day = day; nanos = 32400000000000 })
unfolding instant day_number
instant-IsOn y mo day t h = rw (h.0, h.1, h.2, h.3) refl

infer_year-IsReturn :
    (y mo day : ℕ) (now t : Time)
    → IsTime t
    → IsOn t y mo day
    → IsTime (infer_year y t now) × IsReturn y mo day now (infer_year y t now)
infer_year-IsReturn y mo day now t v h =
    ground (arith, next_year_cases t v h.3, instant-IsOn y mo day t h)

-- A year on, the date is past this year.
next_year_later :
    (now r : Time) → IsTime now → IsTime r → r.year ≡ now.year + 1 → instant now < instant r
unfolding instant day_number
next_year_later now r v w e =
    ground (arith, day_number-lt now v, v.within_day, ap days_before_year e)

infer_year-recent :
    (y mo day : ℕ) (now t : Time)
    → IsTime now
    → IsTime t
    → IsOn t y mo day
    → y ≡ now.year
    → instant now ≤ instant (infer_year y t now) + nanos_per_day
infer_year-recent y mo day now t u v h e =
    ground (arith, next_year_cases t v h.3, next_year_later now (next_year t) u)

-- A year, month and day that a reply gives come to a return date exactly when the calendar has that
-- day (in the current year, when the year is missing). If the year is the current one and the day at
-- 09:00 is over by more than a day, it is a year later, with 1 March in the place of 29 February, and
-- otherwise the day itself at 09:00. A date in the current year is never over by more than a day.
pub assemble_cases :
    (year mo day : ℕ) (now : Time)
    → IsTime now
    → ((assemble year mo day now ≡ none) × ¬ (IsDate (year_or_now year now) mo day))
      ⊎ (IsDate (year_or_now year now) mo day
          × ((r : Time) × (assemble year mo day now ≡ some r)
              × IsTime r
              × IsReturn (year_or_now year now) mo day now r
              × (year_or_now year now ≡ now.year → instant now ≤ instant r + nanos_per_day)))
unfolding assemble
assemble_cases year mo day now u =
    let y = year_or_now year now in
    let t = date y mo day resume_time in
    ground (
      arith,
      date-IsTime y mo day,
      date-IsLost y mo day,
      days_in_month-le y mo,
      infer_year-IsReturn y mo day now t,
      infer_year-recent y mo day now t u,
    )
