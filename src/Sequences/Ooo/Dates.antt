-- ===== src/Sequences/Ooo/Dates.antt =====
-- Return dates (dateparse.go). A text is a list of code points. The matches of the compiled patterns
-- are parameters: `Patterns` holds the submatches of each; a group that takes no part is empty.
use lecrm.Common.{
  ℕ, zero, suc, ◌+◌, ◌*◌, Bool, ◌&&◌, ◌||◌, not, Option, none, some, List, [], ◌∷◌, codes_eq, eqb,
  ltb, is_empty, lookup, if◌then◌else◌, or_else,
}
use lecrm.Common.Int.{ℤ, pos_part}
use lecrm.Common.Text.{codes, trim_suffix}
use lecrm.Calendar.{Time, hour, nanos_per_day, instant, weekday, next_day, date}
use lecrm.Encoding.Decimal.{parse_int}

pub record Patterns : Type 0 where
  -- `FindStringSubmatch`
  pub iso : List ℕ → Option (List ℕ × List ℕ × List ℕ)
  -- `FindAllStringSubmatch`
  pub day_month : List ℕ → List (List ℕ × List ℕ × List ℕ)
  pub month_day : List ℕ → List (List ℕ × List ℕ × List ℕ)
  pub numeric : List ℕ → List (List ℕ × List ℕ × List ℕ)
  -- `hasReturnKeyword`
  pub return_keyword : List ℕ → Bool

-- `resumeHourUTC`, in nanoseconds.
abbrev pub resume_time : ℕ
resume_time = 9 * hour

abbrev atoi_value : Option ℤ → ℕ
atoi_value none = 0
atoi_value (some n) = pos_part n

-- `strconv.Atoi` with its error ignored, on the one to four digits that a pattern lets through.
unfoldable pub atoi : List ℕ → ℕ
atoi s = atoi_value (parse_int s)

-- `t.AddDate(1, 0, 0)`: 29 February becomes 1 March.
unfoldable pub next_year : Time → Time
unfolding date
next_year t = date (t.year + 1) t.month t.day t.nanos

-- A date that is over by more than a day and stands in the current year is taken for the next one.
abbrev pub infer_year : ℕ → Time → Time → Time
infer_year year t now =
    if eqb year now.year && ltb (instant t + nanos_per_day) (instant now) then next_year t else t

abbrev pub assemble_in : ℕ → ℕ → ℕ → Time → Option Time
assemble_in year mo day now =
    let t = date year mo day resume_time in
    if not (eqb t.day day) || not (eqb t.month mo) then none else some (infer_year year t now)

-- `assemble`
unfoldable pub assemble : ℕ → ℕ → ℕ → Time → Option Time
assemble year mo day now =
    if ltb mo 1 || ltb 12 mo || ltb day 1 || ltb 31 day
    then none
    else assemble_in (if eqb year 0 then now.year else year) mo day now

-- `months`
abbrev pub months : List (List ℕ × ℕ)
months =
    (codes "janvier", 1)
    ∷ (codes "janv", 1)
    ∷ (codes "fevrier", 2)
    ∷ (codes "fevr", 2)
    ∷ (codes "fev", 2)
    ∷ (codes "mars", 3)
    ∷ (codes "avril", 4)
    ∷ (codes "avr", 4)
    ∷ (codes "mai", 5)
    ∷ (codes "juin", 6)
    ∷ (codes "juillet", 7)
    ∷ (codes "juil", 7)
    ∷ (codes "juill", 7)
    ∷ (codes "aout", 8)
    ∷ (codes "septembre", 9)
    ∷ (codes "octobre", 10)
    ∷ (codes "novembre", 11)
    ∷ (codes "decembre", 12)
    ∷ (codes "january", 1)
    ∷ (codes "jan", 1)
    ∷ (codes "february", 2)
    ∷ (codes "feb", 2)
    ∷ (codes "march", 3)
    ∷ (codes "mar", 3)
    ∷ (codes "may", 5)
    ∷ (codes "july", 7)
    ∷ (codes "jul", 7)
    ∷ (codes "august", 8)
    ∷ (codes "aug", 8)
    ∷ (codes "september", 9)
    ∷ (codes "sept", 9)
    ∷ (codes "sep", 9)
    ∷ (codes "october", 10)
    ∷ (codes "oct", 10)
    ∷ (codes "november", 11)
    ∷ (codes "nov", 11)
    ∷ (codes "december", 12)
    ∷ (codes "dec", 12)
    ∷ (codes "april", 4)
    ∷ (codes "june", 6)
    ∷ []

-- `lookupMonth`
unfoldable pub lookup_month : List ℕ → Option ℕ
lookup_month word = lookup (trim_suffix b'.' word) months

-- `parseISO`
unfoldable pub parse_iso : Patterns → List ℕ → Time → Option Time
parse_iso patterns text now = elim (patterns.iso text) [
  | none ↦ none
  | some m ↦ assemble (atoi m.0) (atoi m.1) (atoi m.2) now
]

-- The year of a match, 0 where it has none.
abbrev pub written_year : List ℕ → ℕ
written_year y = if is_empty y then 0 else atoi y

abbrev pub named_date : List ℕ → List ℕ → List ℕ → Time → Option Time
named_date day month year now = elim (lookup_month month) [
  | none ↦ none
  | some mo ↦ assemble (written_year year) mo (atoi day) now
]

-- The loop of `parseDayMonth`: the first match that is a date.
unfoldable pub first_day_month : List (List ℕ × List ℕ × List ℕ) → Time → Option Time
first_day_month [] now = none
first_day_month (m ∷ ms) now = or_else (named_date m.0 m.1 m.2 now) (first_day_month ms now)

-- `parseDayMonth`
unfoldable pub parse_day_month : Patterns → List ℕ → Time → Option Time
parse_day_month patterns text now = first_day_month (patterns.day_month text) now

-- The loop of `parseMonthDay`, whose matches have the month first.
unfoldable pub first_month_day : List (List ℕ × List ℕ × List ℕ) → Time → Option Time
first_month_day [] now = none
first_month_day (m ∷ ms) now = or_else (named_date m.1 m.0 m.2 now) (first_month_day ms now)

-- `parseMonthDay`
unfoldable pub parse_month_day : Patterns → List ℕ → Time → Option Time
parse_month_day patterns text now = first_month_day (patterns.month_day text) now

-- A year of two digits is one of this century.
abbrev pub numeric_year : List ℕ → ℕ
numeric_year y = if is_empty y then 0 else let n = atoi y in if ltb n 100 then n + 2000 else n

abbrev pub numeric_date : List ℕ → List ℕ → List ℕ → Time → Option Time
numeric_date day month year now =
    let mo = atoi month in
    if ltb mo 1 || ltb 12 mo then none else assemble (numeric_year year) mo (atoi day) now

-- The loop of `parseNumeric`.
unfoldable pub first_numeric : List (List ℕ × List ℕ × List ℕ) → Time → Option Time
first_numeric [] now = none
first_numeric (m ∷ ms) now = or_else (numeric_date m.0 m.1 m.2 now) (first_numeric ms now)

-- `parseNumeric`
unfoldable pub parse_numeric : Patterns → List ℕ → Time → Option Time
parse_numeric patterns text now = first_numeric (patterns.numeric text) now

-- `ParseReturnDate`, from the folded text on.
unfoldable pub parse_text : Patterns → List ℕ → Time → Option Time
parse_text patterns text now = or_else (parse_iso patterns text now) (
    or_else (parse_day_month patterns text now) (
      or_else (parse_month_day patterns text now)
        (if patterns.return_keyword text then parse_numeric patterns text now else none)))

abbrev pub is_weekend : Time → Bool
is_weekend t = eqb (weekday t) 6 || eqb (weekday t) 0

-- The loop of `AddBusinessDays`, on fuel: `n` weekdays are still to pass.
unfoldable pub pass_weekdays : ℕ → Time → ℕ → Option Time
pass_weekdays fuel d zero = some d
pass_weekdays zero d (suc n) = none
pass_weekdays (suc fuel) d (suc n) =
    let d' = next_day d in pass_weekdays fuel d' (if is_weekend d' then suc n else n)

abbrev pub at_resume : Option Time → Option Time
at_resume none = none
at_resume (some d) = some (date d.year d.month d.day resume_time)

-- `AddBusinessDays`: no weekday is more than three days away.
unfoldable pub add_business_days : Time → ℤ → Option Time
add_business_days t n = at_resume (pass_weekdays (3 * pos_part n) t (pos_part n))
