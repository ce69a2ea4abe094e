-- ===== src/Tests/Absences.antt =====
-- An out-of-office reply, with and without a date.
use lecrm.Common.{
  ℕ, List, [], ◌∷◌, none, some, ◌≡◌, refl, ◌⊎◌, ◌≤◌, ◌+◌, arith, nat_eq, lookup, insert, update,
}
use lecrm.Common.Int.{pos}
use lecrm.Common.Text.{codes, contains_text, trim_prefix, trim_suffix, lower, to_lower}
use lecrm.Calendar.{
  Time, IsTime, nanos_per_day, day_number, instant, weekday, next_day, date, days_in_month, is_leap,
  days_before_year, days_before_month,
}
use lecrm.Encoding.Decimal.{parse_int, parse_from}
use lecrm.Sequences.Store.{statement, done}
use lecrm.Sequences.Correlate.{InboundMessage, ReplyMatch}
use lecrm.Sequences.Mailbox.{apply_reply}
use lecrm.Sequences.Ooo.Dates.{
  Patterns, resume_time, assemble, add_business_days, pass_weekdays, next_year, atoi, lookup_month,
  parse_iso, parse_day_month, first_day_month, parse_text,
}
use lecrm.Sequences.Ooo.Rules.{
  ReplyBody, Rules, Pattern, evaluate, first_match, normalized, fold_accents,
}
use lecrm.Sequences.Ooo.Classify.{Engine, classify, adapted, parse_return_date, return_date}
use lecrm.Sequences.Ooo.Business.{Reaches, add_business_days-Reaches}
use lecrm.Sequences.Ooo.Assemble.{IsDate, IsReturn, year_or_now, assemble_cases}
use lecrm.Sequences.Ooo.Resume.{IsServedBy, apply_reply-IsServedBy}
use lecrm.Sequences.Transition.{
  transition, after_lock, apply_transition, set_clauses, transition_payload, emit_audit,
  enqueue_finalize,
}
use lecrm.Sequences.Transition.Options.{
  configure, default_config, default_event_for_state, with_reply_message_id, with_invalid_mode,
  with_caller, with_payload, with_ooo_returns_at, with_next_action_at,
}
use lecrm.Sequences.State.{state_of_text, text_of_state, can_transition, is_terminal}
use lecrm.Sequences.Audit.{marshals, merge}
use lecrm.Tests.Data.{no_faults}
use lecrm.Tests.Polls.{deps, late_match, polled_tx}
use lecrm.Tests.Replies.{first_reply}

-- A Friday.
abbrev friday : Time
friday = record { year = 2026; month = 5; day = 15; nanos = 36000000000000 }

friday-IsTime : IsTime friday
unfolding days_in_month
friday-IsTime = record {
  month_low = omega arith;
  month_high = omega arith;
  day_low = omega arith;
  day_high = omega arith;
  within_day = omega arith;
}

next_friday :
    add_business_days friday (pos 5)
    ≡ some (record { year = 2026; month = 5; day = 22; nanos = resume_time })
unfolding add_business_days pass_weekdays weekday next_day date day_number days_before_year
    days_before_month days_in_month is_leap
next_friday = refl

add_business_days-Reaches_example :
    (r : Time) × (k : ℕ) × (add_business_days friday (pos 5) ≡ some r)
    × (r.nanos ≡ resume_time)
    × Reaches (day_number friday) 5 k r
add_business_days-Reaches_example = add_business_days-Reaches friday (pos 5) friday-IsTime

-- "le 3 mars", read in May.
in_march :
    assemble 0 3 3 friday ≡ some (record { year = 2027; month = 3; day = 3; nanos = resume_time })
unfolding assemble next_year date instant day_number days_before_year days_before_month
    days_in_month is_leap
in_march = refl

assemble_cases_example :
    ((assemble 0 2 30 friday ≡ none) × ¬ (IsDate (year_or_now 0 friday) 2 30))
    ⊎ (IsDate (year_or_now 0 friday) 2 30
        × ((r : Time) × (assemble 0 2 30 friday ≡ some r)
            × IsTime r
            × IsReturn (year_or_now 0 friday) 2 30 friday r
            × (year_or_now 0 friday ≡ friday.year → instant friday ≤ instant r + nanos_per_day)))
assemble_cases_example = assemble_cases 0 2 30 friday friday-IsTime

abbrev pattern : List ℕ → Pattern
pattern text = record { source = text; match_string = λ s. contains_text s text }

abbrev rules : Rules
rules = record {
  subject_markers = pattern (codes "absence") ∷ [];
  strong_body = pattern (codes "en conges") ∷ [];
  generic_auto = pattern (codes "message automatique") ∷ [];
  return_phrase = pattern (codes "de retour le") ∷ [];
}

abbrev patterns : Patterns
patterns = record {
  iso = λ text. none;
  day_month = λ text. (codes "1", codes "juin", []) ∷ [];
  month_day = λ text. [];
  numeric = λ text. [];
  return_keyword = λ text. contains_text text (codes "de retour");
}

abbrev engine : Engine
engine = record { rules = rules; patterns = patterns; llm = none; now = friday }

abbrev away : InboundMessage
away = record first_reply { subject = codes "Absence"; snippet = codes "De retour le 1er juin" }

abbrev away_body : ReplyBody
away_body = record { sender = []; subject = codes "Absence"; body = codes "De retour le 1er juin" }

abbrev away_match : ReplyMatch
away_match = record late_match { enrollment_id = 5; message = away }

reply_applied :
    (apply_reply (record deps { classify = adapted engine }) no_faults 40 away_match polled_tx).1
    ≡ done
unfolding apply_reply adapted classify evaluate first_match normalized fold_accents contains_text
    to_lower lower return_date parse_return_date parse_text parse_iso parse_day_month
    first_day_month lookup_month trim_suffix trim_prefix assemble atoi parse_int parse_from
    next_year date instant day_number days_before_year days_before_month days_in_month is_leap
    transition after_lock apply_transition set_clauses transition_payload emit_audit
    enqueue_finalize configure default_config default_event_for_state with_reply_message_id
    with_invalid_mode with_caller with_payload with_ooo_returns_at with_next_action_at state_of_text
    text_of_state can_transition is_terminal marshals merge lookup insert update statement
reply_applied = refl

apply_reply-IsServedBy_example : IsServedBy engine away (
    lookup 5
      (apply_reply
        (record deps { classify = adapted engine })
        no_faults
        40
        away_match
        polled_tx).0.db.enrollments)
unfolding lookup
apply_reply-IsServedBy_example =
    apply_reply-IsServedBy engine deps no_faults 40 away_match polled_tx friday-IsTime reply_applied
