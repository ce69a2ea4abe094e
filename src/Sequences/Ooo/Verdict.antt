-- ===== src/Sequences/Ooo/Verdict.antt =====
-- What the classifier answers.
use lecrm.Common.{
  ℕ, String, Bool, true, false, ◌&&◌, ◌||◌, Option, none, some, List, [], ◌∷◌, any, ◌≡◌, ◌⊎◌, inl,
  inr, refl, arith, if◌then◌else◌, or_else, Option-cases, Result, ok, err,
}
use lecrm.Calendar.{Time, IsTime, day_number}
use lecrm.Sequences.Ooo.Dates.{
  Patterns, resume_time, assemble, atoi, lookup_month, written_year, numeric_year, parse_iso,
  named_date, first_day_month, parse_day_month, first_month_day, parse_month_day, numeric_date,
  first_numeric, parse_numeric, parse_text,
}
use lecrm.Sequences.Ooo.Rules.{
  ReplyBody, Pattern, Rules, Verdict, verdict_reply, verdict_ooo, verdict_ambiguous, first_match,
  is_found, normalized, whole_text, evaluate,
}
use lecrm.Sequences.Ooo.Classify.{
  category_reply, category_ooo, OooReturnDate, no_return_date, Engine, Answer, LlmClassifier,
  return_from, second_stage, by_verdict, default_business_days, parse_return_date, return_date,
  from_llm, classify,
}
use lecrm.Sequences.Ooo.Business.{Reaches, add_business_days-Reaches}
use lecrm.Sequences.Ooo.Assemble.{assemble_cases}

-- A pattern of the group matches.
abbrev pub hits : List Pattern → List ℕ → Bool
hits patterns s = any (λ re. re.match_string s) patterns

first_match-hits :
    (patterns : List Pattern) (s : List ℕ) → is_found (first_match patterns s) ≡ hits patterns s
unfolding first_match
first_match-hits [] s = refl
first_match-hits (re ∷ patterns) s = ground (arith, first_match-hits patterns s)

abbrev pub is_strong : Rules → ReplyBody → Bool
is_strong rules body =
    hits rules.subject_markers (normalized body.subject) || hits rules.strong_body (whole_text body)

abbrev pub verdict_of : Bool → Bool → Bool → Verdict
verdict_of strong auto back =
    if strong || (auto && back)
    then verdict_ooo
    else if auto || back
    then verdict_ambiguous
    else verdict_reply

-- The verdict of the rules.
evaluate_verdict :
    (rules : Rules) (body : ReplyBody)
    → (evaluate rules body).verdict
      ≡ verdict_of
          (is_strong rules body)
          (hits rules.generic_auto (whole_text body))
          (hits rules.return_phrase (whole_text body))
unfolding evaluate
evaluate_verdict rules body = ground (
  arith,
  first_match-hits rules.subject_markers (normalized body.subject),
  first_match-hits rules.strong_body (whole_text body),
  first_match-hits rules.generic_auto (whole_text body),
  first_match-hits rules.return_phrase (whole_text body),
)

-- A time that is found is a moment at 09:00.
abbrev pub IsResume : Option Time → Type 0
IsResume none = Unit
IsResume (some r) = IsTime r × (r.nanos ≡ resume_time)

assemble-IsResume :
    (year mo day : ℕ) (now : Time) → IsTime now → IsResume (assemble year mo day now)
assemble-IsResume year mo day now v = ground (arith, assemble_cases year mo day now v)

or_else-IsResume :
    (o other : Option Time) → IsResume o → IsResume other → IsResume (or_else o other)
or_else-IsResume none other h k = k
or_else-IsResume (some r) other h k = h

module _ (now : Time) (v : IsTime now) where
  named_date-IsResume : (day month year : List ℕ) → IsResume (named_date day month year now)
  named_date-IsResume day month year = elim (Option-cases (lookup_month month)) [
    | inl none_found ↦ rw (none_found, IsResume) tt
    | inr (mo, found) ↦
        rw (found, IsResume) (assemble-IsResume (written_year year) mo (atoi day) now v)
  ]

  numeric_date-IsResume : (day month year : List ℕ) → IsResume (numeric_date day month year now)
  numeric_date-IsResume day month year =
      ground (arith, assemble-IsResume (numeric_year year) (atoi month) (atoi day) now v)

  first_day_month-IsResume :
      (ms : List (List ℕ × List ℕ × List ℕ)) → IsResume (first_day_month ms now)
  unfolding first_day_month
  first_day_month-IsResume [] = tt
  first_day_month-IsResume (m ∷ ms) =
      or_else-IsResume _ _ (named_date-IsResume m.0 m.1 m.2) (first_day_month-IsResume ms)

  first_month_day-IsResume :
      (ms : List (List ℕ × List ℕ × List ℕ)) → IsResume (first_month_day ms now)
  unfolding first_month_day
  first_month_day-IsResume [] = tt
  first_month_day-IsResume (m ∷ ms) =
      or_else-IsResume _ _ (named_date-IsResume m.1 m.0 m.2) (first_month_day-IsResume ms)

  first_numeric-IsResume : (ms : List (List ℕ × List ℕ × List ℕ)) → IsResume (first_numeric ms now)
  unfolding first_numeric
  first_numeric-IsResume [] = tt
  first_numeric-IsResume (m ∷ ms) =
      or_else-IsResume _ _ (numeric_date-IsResume m.0 m.1 m.2) (first_numeric-IsResume ms)

  parse_iso-IsResume :
      (patterns : Patterns) (text : List ℕ) → IsResume (parse_iso patterns text now)
  unfolding parse_iso
  parse_iso-IsResume patterns text = elim (Option-cases (patterns.iso text)) [
    | inl none_found ↦ rw (none_found, IsResume) tt
    | inr (m, found) ↦
        rw (found, IsResume) (assemble-IsResume (atoi m.0) (atoi m.1) (atoi m.2) now v)
  ]

  parse_text-IsResume :
      (patterns : Patterns) (text : List ℕ) → IsResume (parse_text patterns text now)
  unfolding parse_text parse_day_month parse_month_day parse_numeric
  parse_text-IsResume patterns text = ground (
    arith,
    parse_iso-IsResume patterns text,
    first_day_month-IsResume (patterns.day_month text),
    first_month_day-IsResume (patterns.month_day text),
    first_numeric-IsResume (patterns.numeric text),
  )

-- Where a return date comes from: the reply, or five weekdays on.
abbrev pub IsReturnDate : Engine → ReplyBody → OooReturnDate → Type 0
IsReturnDate e body d =
    (r : Time) × (d.time ≡ some r)
    × IsTime r
    × (r.nanos ≡ resume_time)
    × (((d.parsed ≡ true) × (parse_return_date e.patterns body e.now ≡ some r))
        ⊎ ((d.parsed ≡ false)
            × (parse_return_date e.patterns body e.now ≡ none)
            × ((k : ℕ) × Reaches (day_number e.now) 5 k r)))

return_from-IsReturnDate :
    (e : Engine) (body : ReplyBody) (o : Option Time)
    → IsTime e.now
    → IsResume o
    → parse_return_date e.patterns body e.now ≡ o
    → IsReturnDate e body (return_from e.now o)
return_from-IsReturnDate e body none v h p =
    let (r, k, found, at, reached) = add_business_days-Reaches e.now default_business_days v in
    (r, found, reached.0, at, inr (refl, p, (k, reached)))
return_from-IsReturnDate e body (some r) v h p = (r, refl, h.0, h.1, inl (refl, p))

return_date-IsReturnDate :
    (e : Engine) (body : ReplyBody) → IsTime e.now → IsReturnDate e body (return_date e body)
unfolding return_date
return_date-IsReturnDate e body v =
    return_from-IsReturnDate e body (parse_return_date e.patterns body e.now) v
      (unfold parse_return_date in parse_text-IsResume e.now v e.patterns (whole_text body)) refl

-- The engine says "out of office" with a date to come back on, or "reply" with none.
abbrev pub IsAnswered : Engine → ReplyBody → Answer → Type 0
IsAnswered e body a =
    ((a.category ≡ category_ooo) × (a.error ≡ none) × IsReturnDate e body a.return_date)
    ⊎ ((a.category ≡ category_reply) × (a.return_date ≡ no_return_date))

from_llm-IsAnswered :
    (e : Engine) (body : ReplyBody) (answer : Result String (Bool × ℕ))
    → IsTime e.now
    → IsAnswered e body (from_llm e body answer)
from_llm-IsAnswered e body (err why) v = inr (refl, refl)
from_llm-IsAnswered e body (ok (true, confidence)) v =
    inl (refl, refl, return_date-IsReturnDate e body v)
from_llm-IsAnswered e body (ok (false, confidence)) v = inr (refl, refl)

second_stage-IsAnswered :
    (e : Engine) (body : ReplyBody) (llm : Option LlmClassifier)
    → IsTime e.now
    → IsAnswered e body (second_stage e body llm)
second_stage-IsAnswered e body none v = inr (refl, refl)
second_stage-IsAnswered e body (some llm) v = from_llm-IsAnswered e body (llm body) v

by_verdict-IsAnswered :
    (e : Engine) (body : ReplyBody) (confidence : ℕ) (v : Verdict)
    → IsTime e.now
    → IsAnswered e body (by_verdict e body confidence v)
by_verdict-IsAnswered e body confidence verdict_ooo v =
    inl (refl, refl, return_date-IsReturnDate e body v)
by_verdict-IsAnswered e body confidence verdict_reply v = inr (refl, refl)
by_verdict-IsAnswered e body confidence verdict_ambiguous v = second_stage-IsAnswered e body e.llm v

-- An answer is either "out of office", without an error and with a moment to come back at, at 09:00:
-- the one that the reply names, or, where it names none, the fifth weekday after now; or "reply" with
-- no return date.
pub classify-IsAnswered :
    (e : Engine) (body : ReplyBody) → IsTime e.now → IsAnswered e body (classify e body)
unfolding classify
classify-IsAnswered e body v =
    by_verdict-IsAnswered e body (evaluate e.rules body).confidence (evaluate e.rules body).verdict
      v

-- Which stage answers, by the groups of patterns that match.
abbrev pub IsStaged : Engine → ReplyBody → Answer → Type 0
IsStaged e body a =
    let strong = is_strong e.rules body in
    let auto = hits e.rules.generic_auto (whole_text body) in
    let back = hits e.rules.return_phrase (whole_text body) in
    ((strong || (auto && back) ≡ true) × (a.category ≡ category_ooo) × (a.error ≡ none))
    ⊎ ((strong || auto || back ≡ false) × (a.category ≡ category_reply) × (a.error ≡ none))
    ⊎ ((strong || (auto && back) ≡ false) × (auto || back ≡ true) × (a ≡ second_stage e body e.llm))

-- A reply is out of office when a subject marker or a strong phrase matches or both weak groups do,
-- and a reply when none of the four groups matches; the answer is the second stage's when one weak
-- group matches alone.
classify_stages : (e : Engine) (body : ReplyBody) → IsStaged e body (classify e body)
unfolding classify
classify_stages e body = ground (arith, evaluate_verdict e.rules body)
