-- ===== src/Sequences/Preflight/Gates.antt =====
-- What a preflight decision rests on.
use lecrm.Common.{
  ℕ, ◌+◌, ◌<◌, String, Bool, true, false, ◌&&◌, ◌||◌, Option, none, some, List, [], ◌∷◌, ◌≡◌, ◌≢◌,
  ◌⊎◌, ◌↔◌, refl, arith, lookup, string_eq, nat_eq, eq_iff, Result, ok, err, All,
}
use lecrm.Common.Int.{ℤ, pos, pos_part, leb_ℤ, ltb_ℤ, ◌≤ℤ◌}
use lecrm.Calendar.{Time, instant, start_of_month}
use lecrm.Sequences.Store.{Step, Db, Tx, Faults, statement}
use lecrm.Sequences.Store.Laws.{statement-runs}
use lecrm.Sequences.Transition.Errors.{Healthy}
use lecrm.Sequences.Limits.{Limits, with_defaults}
use lecrm.Sequences.Preflight.{
  Decision, PreflightError, allowed, recipient, count_sent_since, recent_send, last_sent, latest,
  throttle_gate, cap_gate, suppression_gate, with_recipient, preflight,
}

abbrev pub after_query : Faults → Tx → Tx
after_query faults tx = (statement faults (λ d. d) tx).0

after_query_db : (faults : Faults) (tx : Tx) → (after_query faults tx).db ≡ tx.db
unfolding statement
after_query_db faults tx = ground arith

module _ (faults : Faults) (now : Time) (contact : ℕ) (step_index : ℤ) (email : String)
    (limits : Limits) where
  throttle_gate_reads :
      (tx : Tx) → (throttle_gate faults now contact step_index email limits tx).0.db ≡ tx.db
  unfolding throttle_gate statement
  throttle_gate_reads tx = ground arith

  cap_gate_reads : (tx : Tx) → (cap_gate faults now contact step_index email limits tx).0.db ≡ tx.db
  unfolding cap_gate
  cap_gate_reads tx = ground (
    arith,
    after_query_db faults tx,
    throttle_gate_reads (after_query faults tx),
    throttle_gate_reads tx,
  )

  suppression_gate_reads :
      (tx : Tx) → (suppression_gate faults now contact step_index email limits tx).0.db ≡ tx.db
  unfolding suppression_gate
  suppression_gate_reads tx =
      ground (arith, after_query_db faults tx, cap_gate_reads (after_query faults tx))

with_recipient_reads :
    (faults : Faults) (now : Time) (step_index : ℤ) (limits : Limits)
    (found : Option (Option String × ℕ)) (tx : Tx)
    → (with_recipient faults now step_index limits found tx).0.db ≡ tx.db
unfolding with_recipient
with_recipient_reads faults now step_index limits none tx = refl
with_recipient_reads faults now step_index limits (some (none, contact)) tx = refl
with_recipient_reads faults now step_index limits (some (some email, contact)) tx =
    ground (arith, suppression_gate_reads faults now contact step_index email limits tx)

-- A preflight writes nothing, whatever it decides and however it fails.
preflight_reads :
    (faults : Faults) (now : Time) (id : ℕ) (step_index : ℤ) (limits : Limits) (tx : Tx)
    → (preflight faults now id step_index limits tx).0.db ≡ tx.db
unfolding preflight
preflight_reads faults now id step_index limits tx = ground (
  arith,
  after_query_db faults tx,
  with_recipient_reads faults now step_index (with_defaults limits)
      (recipient (after_query faults tx).db id) (after_query faults tx),
)

-- The latest recent send is a send within the window.
pub last_sent-recent :
    (d : Db) (contact now window : ℕ) (steps : List Step) (t : ℕ)
    → last_sent d contact now window steps ≡ some t
    → now < t + window
unfolding last_sent
last_sent-recent d contact now window [] t h = ground arith
last_sent-recent d contact now window (s ∷ steps) t h =
    recent_or_earlier (last_sent d contact now window steps)
      (last_sent-recent d contact now window steps) h
  where
    recent_or_earlier :
        (rest : Option ℕ)
        → ((u : ℕ) → rest ≡ some u → now < u + window)
        → latest (recent_send d contact now window s) rest ≡ some t
        → now < t + window
    recent_or_earlier none earlier e = ground arith
    recent_or_earlier (some u) earlier e = ground (arith, earlier u refl)

latest-none_iff : (a b : Option ℕ) → (latest a b ≡ none) ↔ ((a ≡ none) × (b ≡ none))
latest-none_iff none b = ground arith
latest-none_iff (some a) none = ground arith
latest-none_iff (some a) (some b) = ground arith

-- No send is recent exactly when there is no recent send of any step.
pub last_sent-none_iff :
    (d : Db) (contact now window : ℕ) (steps : List Step)
    → (last_sent d contact now window steps ≡ none)
      ↔ All (λ s. recent_send d contact now window s ≡ none) steps
unfolding last_sent
last_sent-none_iff d contact now window [] = ((λ _. tt), λ _. refl)
last_sent-none_iff d contact now window (s ∷ steps) =
    let split =
      latest-none_iff (recent_send d contact now window s) (last_sent d contact now window steps) in
    let rest = last_sent-none_iff d contact now window steps in
    ((λ h. let both = split.0 h in (both.0, rest.0 both.1)), λ h. split.1 (h.0, rest.1 h.1))

-- Whether the outcome lets the send go on.
abbrev pub lets_send : Result PreflightError Decision → Bool
lets_send (ok d) = allowed d
lets_send (err e) = false

-- The monthly budget is off, or has room.
abbrev pub HasBudget : Limits → Time → List Step → Type 0
HasBudget limits now steps =
    (limits.monthly_send_cap ≤ℤ pos 0)
    ⊎ (¬ (limits.monthly_send_cap ≤ℤ pos (count_sent_since (instant (start_of_month now)) steps)))

-- No step went to the contact within the window.
abbrev pub IsQuiet : Db → ℕ → Time → Limits → Type 0
IsQuiet d contact now limits =
    All (λ s. recent_send d contact (instant now) (pos_part limits.throttle_window) s ≡ none)
      d.steps

abbrev is_none : Option ℕ → Bool
is_none none = true
is_none (some _) = false

-- The tests of the two deferrable gates.
abbrev quiet : Db → ℕ → Time → Limits → Bool
quiet d contact now limits =
    is_none (last_sent d contact (instant now) (pos_part limits.throttle_window) d.steps)

abbrev budget : Limits → Time → List Step → Bool
budget limits now steps =
    leb_ℤ limits.monthly_send_cap (pos 0)
    || ltb_ℤ (pos (count_sent_since (instant (start_of_month now)) steps)) limits.monthly_send_cap

module _ (faults : Faults) (healthy : Healthy faults) (now : Time) (contact : ℕ) (step_index : ℤ)
    (email : String) (limits : Limits) where
  throttle_gate_sends :
      (tx : Tx)
      → tx.is_aborted ≡ false
      → lets_send (throttle_gate faults now contact step_index email limits tx).1
        ≡ quiet tx.db contact now limits
  unfolding throttle_gate allowed
  throttle_gate_sends tx live =
      ground (arith, statement-runs faults (λ d. d) tx live (healthy tx.executed))

  cap_gate_sends :
      (tx : Tx)
      → tx.is_aborted ≡ false
      → lets_send (cap_gate faults now contact step_index email limits tx).1
        ≡ (budget limits now tx.db.steps && quiet tx.db contact now limits)
  unfolding cap_gate allowed
  cap_gate_sends tx live = ground (
    arith,
    statement-runs faults (λ d. d) tx live (healthy tx.executed),
    throttle_gate_sends tx live,
    throttle_gate_sends (record tx { executed = tx.executed + 1 }) live,
  )

  suppression_gate_sends :
      (tx : Tx)
      → tx.is_aborted ≡ false
      → (lets_send (suppression_gate faults now contact step_index email limits tx).1 ≡ true) ↔ (
          (lookup email tx.db.email_suppression ≡ none)
          × (budget limits now tx.db.steps ≡ true)
          × (quiet tx.db contact now limits ≡ true))
  unfolding suppression_gate allowed
  suppression_gate_sends tx live = ground (
    arith,
    statement-runs faults (λ d. d) tx live (healthy tx.executed),
    cap_gate_sends (record tx { executed = tx.executed + 1 }) live,
  )

budget_iff :
    (limits : Limits) (now : Time) (steps : List Step)
    → (budget limits now steps ≡ true) ↔ HasBudget limits now steps
budget_iff limits now steps = ground arith

quiet_iff :
    (d : Db) (contact : ℕ) (now : Time) (limits : Limits)
    → (quiet d contact now limits ≡ true) ↔ IsQuiet d contact now limits
quiet_iff d contact now limits =
    let steps =
      last_sent-none_iff d contact (instant now) (pos_part limits.throttle_window) d.steps in
    ((λ h. steps.0 (ground arith)), λ h. rw (steps.1 h))

same_budget :
    (limits : Limits) (now : Time) (steps : List Step)
    → HasBudget (with_defaults limits) now steps
    → HasBudget limits now steps
unfolding with_defaults
same_budget limits now steps h = h

same_budget' :
    (limits : Limits) (now : Time) (steps : List Step)
    → HasBudget limits now steps
    → HasBudget (with_defaults limits) now steps
unfolding with_defaults
same_budget' limits now steps h = h

-- A recipient with an address meets the gates.
preflight_gates :
    (faults : Faults) (now : Time) (id : ℕ) (step_index : ℤ) (limits : Limits) (tx : Tx)
    (email : String) (contact : ℕ)
    → Healthy faults
    → tx.is_aborted ≡ false
    → recipient tx.db id ≡ some (some email, contact)
    → email ≢ ""
    → preflight faults now id step_index limits tx
      ≡ suppression_gate faults now contact step_index email
          (with_defaults limits)
          (record tx { executed = tx.executed + 1 })
unfolding preflight with_recipient
preflight_gates faults now id step_index limits tx email contact healthy live found address =
    rw (statement-runs faults (λ d. d) tx live (healthy tx.executed), found)
      (ground (arith, eq_iff email ""))

-- With no fault, the send to a recipient with an address goes on exactly when the address is not
-- suppressed, the month's budget is off or has room, and no step went to the contact, by any
-- sequence, within the throttle window.
pub preflight_allows_iff :
    (faults : Faults) (now : Time) (id : ℕ) (step_index : ℤ) (limits : Limits) (tx : Tx)
    (email : String) (contact : ℕ)
    → Healthy faults
    → tx.is_aborted ≡ false
    → recipient tx.db id ≡ some (some email, contact)
    → email ≢ ""
    → (lets_send (preflight faults now id step_index limits tx).1 ≡ true) ↔ (
        (lookup email tx.db.email_suppression ≡ none)
        × HasBudget limits now tx.db.steps
        × IsQuiet tx.db contact now (with_defaults limits))
preflight_allows_iff faults now id step_index limits tx email contact healthy live found address =
    let filled = with_defaults limits in
    let gates =
      suppression_gate_sends faults healthy now contact step_index email filled
        (record tx { executed = tx.executed + 1 }) live in
    let room = budget_iff filled now tx.db.steps in
    let calm = quiet_iff tx.db contact now filled in
    rw (preflight_gates faults now id step_index limits tx email contact healthy live found address)
      (
        (λ h.
            let all = gates.0 h in
            (all.0, same_budget limits now tx.db.steps (room.0 all.1), calm.0 all.2)),
        λ h. gates.1 (h.0, room.1 (same_budget' limits now tx.db.steps h.1), calm.1 h.2),
      )
