-- ===== src/Sequences/Preflight/Retry.antt =====
-- When a preflight decision says to try again.
use lecrm.Common.{
  ℕ, ◌+◌, ◌<◌, String, true, false, Option, none, some, ◌≡◌, ◌⊎◌, refl, arith, Result, ok, err,
}
use lecrm.Common.Int.{ℤ, pos_part}
use lecrm.Calendar.{Time, IsTime, instant}
use lecrm.Calendar.Days.{start_of_next_month-lt}
use lecrm.Sequences.Store.{Tx, Faults}
use lecrm.Sequences.Limits.{Limits, with_defaults}
use lecrm.Sequences.Preflight.{
  Decision, PreflightError, deferrable, recipient, last_sent, throttle_gate, cap_gate,
  suppression_gate, with_recipient, preflight,
}
use lecrm.Sequences.Preflight.Gates.{last_sent-recent, after_query}

-- A decision to wait names a later moment, any other decision none.
abbrev RetriesAfter : ℕ → Decision → Type 0
RetriesAfter now d =
    ((deferrable d ≡ true) × ((t : ℕ) × (d.retry_after ≡ some t) × (now < t)))
    ⊎ ((deferrable d ≡ false) × (d.retry_after ≡ none))

abbrev Retries : ℕ → Result PreflightError Decision → Type 0
Retries now (ok d) = RetriesAfter now d
Retries now (err e) = Unit

abbrev IsWithin : ℕ → ℕ → Option ℕ → Type 0
IsWithin now window none = Unit
IsWithin now window (some t) = now < t + window

IsWithin-window :
    (now window : ℕ) (o : Option ℕ)
    → ((t : ℕ) → o ≡ some t → now < t + window)
    → IsWithin now window o
IsWithin-window now window none h = tt
IsWithin-window now window (some t) h = h t refl

module _ (faults : Faults) (now : Time) (v : IsTime now) (contact : ℕ) (step_index : ℤ)
    (email : String) (limits : Limits) where
  throttle_gate-Retries :
      (tx : Tx)
      → Retries (instant now) (throttle_gate faults now contact step_index email limits tx).1
  unfolding throttle_gate deferrable
  throttle_gate-Retries tx =
      let tx' = after_query faults tx in
      ground (
        arith,
        IsWithin-window (instant now) (pos_part limits.throttle_window)
            (last_sent tx'.db contact (instant now) (pos_part limits.throttle_window) tx'.db.steps)
            (last_sent-recent tx'.db contact (instant now) (pos_part limits.throttle_window)
              tx'.db.steps),
      )

  cap_gate-Retries :
      (tx : Tx) → Retries (instant now) (cap_gate faults now contact step_index email limits tx).1
  unfolding cap_gate deferrable
  cap_gate-Retries tx = ground (
    arith,
    start_of_next_month-lt now v,
    throttle_gate-Retries (after_query faults tx),
    throttle_gate-Retries tx,
  )

  suppression_gate-Retries :
      (tx : Tx)
      → Retries (instant now) (suppression_gate faults now contact step_index email limits tx).1
  unfolding suppression_gate deferrable
  suppression_gate-Retries tx = ground (arith, cap_gate-Retries (after_query faults tx))

with_recipient-Retries :
    (faults : Faults) (now : Time) (step_index : ℤ) (limits : Limits)
    (found : Option (Option String × ℕ)) (tx : Tx)
    → IsTime now
    → Retries (instant now) (with_recipient faults now step_index limits found tx).1
unfolding with_recipient
with_recipient-Retries faults now step_index limits none tx v = tt
with_recipient-Retries faults now step_index limits (some (none, contact)) tx v = tt
with_recipient-Retries faults now step_index limits (some (some email, contact)) tx v =
    ground (arith, suppression_gate-Retries faults now v contact step_index email limits tx)

preflight-Retries :
    (faults : Faults) (now : Time) (id : ℕ) (step_index : ℤ) (limits : Limits) (tx : Tx)
    → IsTime now
    → Retries (instant now) (preflight faults now id step_index limits tx).1
unfolding preflight
preflight-Retries faults now id step_index limits tx v =
    let tx' = after_query faults tx in
    ground (
      arith,
      with_recipient-Retries faults now step_index (with_defaults limits) (recipient tx'.db id) tx'
          v,
    )

-- A preflight that defers the send (capped or throttled) says until when, and that is a later moment
-- than now; a preflight that allows or suppresses it names no time.
preflight_retry :
    (faults : Faults) (now : Time) (id : ℕ) (step_index : ℤ) (limits : Limits) (tx : Tx)
    (d : Decision)
    → IsTime now
    → (preflight faults now id step_index limits tx).1 ≡ ok d
    → ((deferrable d ≡ true) × ((t : ℕ) × (d.retry_after ≡ some t) × (instant now < t)))
      ⊎ ((deferrable d ≡ false) × (d.retry_after ≡ none))
preflight_retry faults now id step_index limits tx d v h =
    rw h at (preflight-Retries faults now id step_index limits tx v)
