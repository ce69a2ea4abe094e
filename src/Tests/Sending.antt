-- ===== src/Tests/Sending.antt =====
-- The gates before a send.
use lecrm.Common.{String, true, none, ◌≡◌, ◌≢◌, ◌↔◌, refl, lookup, nat_eq, string_eq, arith, eq_iff}
use lecrm.Common.Int.{pos}
use lecrm.Calendar.{IsTime, days_in_month, is_leap}
use lecrm.Sequences.Limits.{default_limits, with_defaults}
use lecrm.Sequences.Preflight.{Decision, allow, no_reason, recipient, preflight}
use lecrm.Sequences.Preflight.Gates.{HasBudget, IsQuiet, lets_send, preflight_allows_iff}
use lecrm.Tests.Data.{no_faults, no_faults-Healthy, tables, open_tx, leap_day}

leap_day-IsTime : IsTime leap_day
unfolding days_in_month is_leap
leap_day-IsTime = record {
  month_low = omega arith;
  month_high = omega arith;
  day_low = omega arith;
  day_high = omega arith;
  within_day = omega arith;
}

abbrev granted : Decision
granted = record {
  verdict = allow;
  step_index = pos 0;
  email = "ann@example.org";
  reason = no_reason;
  retry_after = none;
}

abbrev ann : String
ann = "ann@example.org"

not_empty : ann ≢ ""
not_empty h = ground (arith, eq_iff ann "")

preflight_allows_iff_example :
    (lets_send (preflight no_faults leap_day 5 (pos 0) default_limits open_tx).1 ≡ true) ↔ (
      (lookup ann tables.email_suppression ≡ none)
      × HasBudget default_limits leap_day tables.steps
      × IsQuiet tables 7 leap_day (with_defaults default_limits))
unfolding recipient lookup
preflight_allows_iff_example =
    preflight_allows_iff no_faults leap_day 5 (pos 0) default_limits open_tx ann 7 no_faults-Healthy
      refl refl not_empty
