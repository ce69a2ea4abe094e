-- ===== src/Sequences/Transition.antt =====
-- The one write path of the lifecycle (apps/api/internal/sequences/transition.go).
pub mod Options
pub mod Effects
pub mod Errors
pub mod Life
pub mod Frame
use lecrm.Common.{
  ℕ, ◌+◌, String, Bool, true, false, ◌&&◌, not, Option, none, some, List, [], ◌∷◌, ◌++◌, Eq, ◌==◌,
  nat_eq, string_eq, lookup, update, insert, ◌≡◌, refl, if◌then◌else◌,
}
use lecrm.Common.Int.{ℤ}
use lecrm.Sequences.State.{State, text_of_state, state_of_text, is_terminal, can_transition}
use lecrm.Sequences.Audit.{
  Value, text, uuid, Payload, AuditRow, audit_event_transition_invalid, marshals, merge,
}
use lecrm.Sequences.Store.{
  Enrollment, FinalizeArgs, Db, Tx, Faults, statement, InvalidTransitionError, Outcome, done,
  failed, panicked,
}
use Options.{Config, ConfigOption, invalid_panic, invalid_audit, default_config, configure}

pub data AuditError : Type 0 where
  marshal_failed emit_failed : AuditError

pub data TransitionError : Type 0 where
  enrollment_not_found : TransitionError
  lock_failed update_failed enqueue_failed : TransitionError
  audit_failed : AuditError → TransitionError
  invalid : InvalidTransitionError → TransitionError
  invalid_and_audit : InvalidTransitionError → AuditError → TransitionError

-- `errors.Is(err, ErrInvalidTransition)`
abbrev pub is_invalid_transition : TransitionError → Bool
is_invalid_transition (invalid e) = true
is_invalid_transition (invalid_and_audit e a) = true
is_invalid_transition _ = false

-- One row of core.audit_log by the definer function; `none` is a nil error.
unfoldable pub emit_audit : Faults → String → ℕ → Config → Payload → Tx → Tx × Option AuditError
unfolding statement
emit_audit faults event workspace_id cfg payload tx =
    let row : AuditRow = record {
      event = event;
      workspace_id = workspace_id;
      actor_type = cfg.actor_type;
      actor_user_id = cfg.actor_user_id;
      payload = payload;
    } in
    let (tx', sent) = statement faults (λ d. record d { audit_log = d.audit_log ++ row ∷ [] }) tx in
    if marshals payload
    then (tx', if sent then none else some emit_failed)
    else (tx, some marshal_failed)

-- A column is written only where its option was given.
abbrev pub set_or_keep : {A : Type 0} → Option A → Option A → Option A
set_or_keep none old = old
set_or_keep (some a) old = some a

abbrev pub index_or_keep : Option ℤ → ℤ → ℤ
index_or_keep none old = old
index_or_keep (some i) old = i

-- The `UPDATE enrollments SET …` of one row.
unfoldable pub set_clauses : ℕ → State → Config → Enrollment → Enrollment
set_clauses now target cfg row = record row {
  state = text_of_state target;
  last_transition_at = now;
  reply_message_id = set_or_keep cfg.reply_message_id row.reply_message_id;
  ooo_returns_at = set_or_keep cfg.ooo_returns_at row.ooo_returns_at;
  next_action_at = set_or_keep cfg.next_action_at row.next_action_at;
  current_step_index = index_or_keep cfg.current_step_index row.current_step_index;
}

-- The audit payload of a transition: the caller's fields over the engine's.
unfoldable pub transition_payload : ℕ → State → State → String → Config → Payload
transition_payload id source target reason cfg =
    let base : Payload =
      ("enrollment_id", uuid id)
      ∷ ("from", text (text_of_state source))
      ∷ ("to", text (text_of_state target))
      ∷ [] in
    merge (if reason == "" then base else insert "reason" (text reason) base) cfg.payload

unfoldable pub invalid_payload : InvalidTransitionError → Config → Payload
invalid_payload e cfg =
    ("enrollment_id", uuid e.enrollment_id)
    ∷ ("from", text (text_of_state e.source))
    ∷ ("to_attempted", text (text_of_state e.target))
    ∷ ("caller", text cfg.caller)
    ∷ []

-- Step 2 where the edge is illegal.
unfoldable pub reject :
    Faults → Config → ℕ → InvalidTransitionError → Tx → Tx × Outcome TransitionError
unfolding emit_audit invalid_payload
reject faults cfg workspace_id e tx = elim cfg.invalid_mode [
  | invalid_panic ↦ (tx, panicked e)
  | invalid_audit ↦
      let (tx', aerr) =
        emit_audit faults audit_event_transition_invalid workspace_id cfg (invalid_payload e cfg)
          tx in
      elim aerr [
        | none ↦ (tx', failed (invalid e))
        | some a ↦ (tx', failed (invalid_and_audit e a))
      ]
]

-- Step 5: the finalize job of a terminal state, through river's client if one is wired.
unfoldable pub enqueue_finalize :
    Faults → Config → State → FinalizeArgs → Tx → Tx × Outcome TransitionError
unfolding statement is_terminal
enqueue_finalize faults cfg target args tx = elim cfg.enqueuer [
  | none ↦ (tx, done)
  | some insert_tx ↦
      if is_terminal target
      then (let (tx', inserted) =
            statement faults (λ d. record d { jobs = insert_tx args d.jobs }) tx in
          (tx', if inserted then done else failed enqueue_failed))
      else (tx, done)
]

-- Steps 3 to 5.
unfoldable pub apply_transition :
    Faults → ℕ → ℕ → State → String → Config → Enrollment → Tx → Tx × Outcome TransitionError
unfolding statement emit_audit set_clauses enqueue_finalize
apply_transition faults now id target reason cfg row tx =
    let source = state_of_text row.state in
    let (tx1, updated) =
      statement faults
        (λ d. record d { enrollments = update id (set_clauses now target cfg) d.enrollments }) tx in
    if updated
    then (let (tx2, aerr) =
          emit_audit faults cfg.event row.workspace_id cfg
            (transition_payload id source target reason cfg) tx1 in
        elim aerr [
          | some a ↦ (tx2, failed (audit_failed a))
          | none ↦
              enqueue_finalize faults cfg target
                (record {
                  workspace_id = row.workspace_id;
                  enrollment_id = id;
                  terminal_state = text_of_state target;
                  reason = reason;
                })
                tx2
        ])
    else (tx1, failed update_failed)

-- What follows the lock: the row that was read decides.
unfoldable pub after_lock :
    Faults → ℕ → ℕ → State → String → Config → Option Enrollment → Tx → Tx × Outcome TransitionError
after_lock faults now id target reason cfg none tx = (tx, failed enrollment_not_found)
after_lock faults now id target reason cfg (some row) tx =
    if can_transition (state_of_text row.state) target
    then apply_transition faults now id target reason cfg row tx
    else reject faults cfg row.workspace_id
        (record { enrollment_id = id; source = state_of_text row.state; target = target }) tx

-- `Transition`. The row lock has no other effect here: the transactions run one after another.
unfoldable pub transition :
    Faults → ℕ → ℕ → State → String → List ConfigOption → Tx → Tx × Outcome TransitionError
transition faults now id target reason opts tx =
    let cfg = configure opts (default_config target) in
    let (tx', locked) = statement faults (λ d. d) tx in
    if locked
    then after_lock faults now id target reason cfg (lookup id tx'.db.enrollments) tx'
    else (tx', failed lock_failed)
