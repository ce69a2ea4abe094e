-- ===== src/Sequences/Ooo/Business.antt =====
-- The default of `AddBusinessDays` is reached, and is the weekday that was asked for.
use lecrm.Common.{
  ℕ, zero, suc, ◌+◌, ◌*◌, ◌%◌, ◌≤◌, Bool, true, false, not, ◌||◌, some, ◌≡◌, ◌⊎◌, inl, inr, refl,
  ap, ◌∙◌, arith, eqb, if◌then◌else◌, Bool-cases,
}
use lecrm.Common.Int.{ℤ, pos_part}
use lecrm.Calendar.{Time, IsTime, day_number, weekday, next_day, date}
use lecrm.Calendar.Days.{day_number-next_day, next_day-IsTime}
use lecrm.Sequences.Ooo.Dates.{is_weekend, pass_weekdays, add_business_days, resume_time}

-- Whether the day with a number is a weekday; day 0 is a Saturday.
abbrev pub is_weekday : ℕ → Bool
is_weekday d = not (eqb ((d + 6) % 7) 6 || eqb ((d + 6) % 7) 0)

-- How many of the `k` days after day `d` are weekdays.
unfoldable pub weekdays_after : ℕ → ℕ → ℕ
weekdays_after d zero = 0
weekdays_after d (suc k) =
    let rest = weekdays_after (d + 1) k in if is_weekday (d + 1) then suc rest else rest

-- The days that a weekend under way saves.
abbrev slack : ℕ → ℕ
slack d = if eqb (d % 7) 0 then 1 else if eqb (d % 7) 1 then 2 else 0

-- `r` is `k` days after day `d`, and the day on which the `n`th weekday since is reached.
abbrev pub Reaches : ℕ → ℕ → ℕ → Time → Type 0
Reaches d n k r =
    IsTime r
    × (day_number r ≡ d + k)
    × (weekdays_after d k ≡ n)
    × ((k ≡ 0) ⊎ (is_weekday (day_number r) ≡ true))

is_weekend-weekday : (d : Time) → is_weekend d ≡ not (is_weekday (day_number d))
unfolding weekday
is_weekend-weekday d = ground arith

Reaches-weekday :
    (d e n k : ℕ) (r : Time)
    → e ≡ d + 1
    → is_weekday e ≡ true
    → Reaches e n k r
    → Reaches d (suc n) (suc k) r
unfolding weekdays_after
Reaches-weekday d e n k r p w h = ground (arith, ap (λ x. weekdays_after x k) p)

Reaches-weekend :
    (d e n k : ℕ) (r : Time)
    → e ≡ d + 1
    → is_weekday e ≡ false
    → Reaches e (suc n) k r
    → Reaches d (suc n) (suc k) r
unfolding weekdays_after
Reaches-weekend d e n zero r p w h = absurd (ground arith)
Reaches-weekend d e n (suc k) r p w h = ground (arith, ap (λ x. weekdays_after x (suc k)) p)

pass_weekdays_next :
    (fuel n : ℕ) (d : Time)
    → pass_weekdays (suc fuel) d (suc n)
      ≡ pass_weekdays fuel (next_day d) (if is_weekday (day_number (next_day d)) then n else suc n)
unfolding pass_weekdays weekday day_number
pass_weekdays_next fuel n d = rw (is_weekend-weekday (next_day d)) (ground arith)

pass_weekdays-Reaches :
    (fuel n : ℕ) (d : Time)
    → IsTime d
    → 3 * n ≤ fuel + slack (day_number d)
    → (r : Time) × (k : ℕ) × (pass_weekdays fuel d n ≡ some r) × Reaches (day_number d) n k r
unfolding weekdays_after
pass_weekdays-Reaches fuel zero d v h =
    (d, 0, unfold pass_weekdays in refl, (v, omega arith, refl, inl refl))
pass_weekdays-Reaches zero (suc n) d v h = absurd (unfold pass_weekdays in ground arith)
pass_weekdays-Reaches (suc fuel) (suc n) d v h =
    let e = day_number-next_day d v in
    let v' = next_day-IsTime d v in
    let step = pass_weekdays_next fuel n d in
    elim (Bool-cases (is_weekday (day_number (next_day d)))) [
      | inl w ↦
          let (r, k, done, reached) =
            pass_weekdays-Reaches fuel n (next_day d) v' (ground (arith, e)) in
          (
            r,
            suc k,
            step ∙ rw w done,
            Reaches-weekday (day_number d) (day_number (next_day d)) n k r e w reached,
          )
      | inr w ↦
          let (r, k, done, reached) =
            pass_weekdays-Reaches fuel (suc n) (next_day d) v' (ground (arith, e)) in
          (
            r,
            suc k,
            step ∙ rw w done,
            Reaches-weekend (day_number d) (day_number (next_day d)) n k r e w reached,
          )
    ]

Reaches-date :
    (d n k : ℕ) (r : Time)
    → Reaches d n k r
    → Reaches d n k (date r.year r.month r.day resume_time)
      × ((date r.year r.month r.day resume_time).nanos ≡ resume_time)
unfolding date day_number
Reaches-date d n k r h = ground arith

-- For every moment and count, the search for a business day ends on the fuel that it is given: at 09:00
-- on a day with exactly that many weekdays after the start up to and with it (none for a negative
-- count), which is a weekday itself unless it is the start's own day.
pub add_business_days-Reaches :
    (t : Time) (n : ℤ)
    → IsTime t
    → (r : Time) × (k : ℕ) × (add_business_days t n ≡ some r)
      × (r.nanos ≡ resume_time)
      × Reaches (day_number t) (pos_part n) k r
unfolding add_business_days
add_business_days-Reaches t n v =
    let (r, k, done, reached) =
      pass_weekdays-Reaches (3 * pos_part n) (pos_part n) t v (omega arith) in
    let (at_date, at_time) = Reaches-date (day_number t) (pos_part n) k r reached in
    (date r.year r.month r.day resume_time, k, rw done refl, at_time, at_date)
