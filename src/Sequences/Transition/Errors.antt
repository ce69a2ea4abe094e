-- ===== src/Sequences/Transition/Errors.antt =====
-- What a transition answers and leaves where no statement fails.
use lecrm.Common.{
  ℕ, ◌+◌, String, true, false, none, some, List, [], ◌∷◌, ◌++◌, ◌≡◌, ◌⊎◌, inl, inr, refl, arith,
  lookup, nat_eq, Bool-cases, Option-cases,
}
use lecrm.Sequences.State.{State, text_of_state, state_of_text, can_transition}
use lecrm.Sequences.State.Graph.{◌⟶◌, can_transition-⟶, ⟶-can_transition}
use lecrm.Sequences.Audit.{text, uuid, AuditRow, marshals, audit_event_transition_invalid}
use lecrm.Sequences.Store.{
  Enrollment, Db, Tx, Faults, Outcome, InvalidTransitionError, done, failed, panicked,
}
use lecrm.Sequences.Store.Laws.{statement-runs}
use lecrm.Sequences.Transition.{
  TransitionError, enrollment_not_found, audit_failed, marshal_failed, invalid, invalid_payload,
  transition_payload, reject, apply_transition, after_lock, transition,
}
use lecrm.Sequences.Transition.Options.{
  Config, ConfigOption, InvalidMode, invalid_panic, invalid_audit,
}
use lecrm.Sequences.Transition.Effects.{config_of, after_transition, transition_done}
use mathlib.Core.Path.{subst}

-- No statement fails.
abbrev pub Healthy : Faults → Type 0
Healthy faults = (n : ℕ) → faults n ≡ false

-- The trace of an illegal edge.
abbrev pub trace_row : ℕ → InvalidTransitionError → Config → AuditRow
trace_row workspace_id e cfg = record {
  event = audit_event_transition_invalid;
  workspace_id = workspace_id;
  actor_type = cfg.actor_type;
  actor_user_id = cfg.actor_user_id;
  payload =
      ("enrollment_id", uuid e.enrollment_id)
      ∷ ("from", text (text_of_state e.source))
      ∷ ("to_attempted", text (text_of_state e.target))
      ∷ ("caller", text cfg.caller)
      ∷ [];
}

-- The transaction after the locking read.
abbrev pub locked_tx : Tx → Tx
locked_tx tx = record tx { executed = tx.executed + 1 }

-- What an illegal edge is reported as.
abbrev pub violation : ℕ → State → Enrollment → InvalidTransitionError
violation id target row = record {
  enrollment_id = id;
  source = state_of_text row.state;
  target = target;
}

InvalidMode-cases : (m : InvalidMode) → (m ≡ invalid_panic) ⊎ (m ≡ invalid_audit)
InvalidMode-cases invalid_panic = inl refl
InvalidMode-cases invalid_audit = inr refl

-- How a transition of an enrollment that is there ends.
abbrev pub IsDecided :
    ℕ → ℕ → State → String → Config → Enrollment → Db → Tx × Outcome TransitionError → Type 0
IsDecided now id target reason cfg row d r =
    let source = state_of_text row.state in
    let v = violation id target row in
    (¬ (source ⟶ target) × (cfg.invalid_mode ≡ invalid_panic) × (r.1 ≡ panicked v) × (r.0.db ≡ d))
    ⊎ (¬ (source ⟶ target)
        × (cfg.invalid_mode ≡ invalid_audit)
        × (r.1 ≡ failed (invalid v))
        × (r.0.is_aborted ≡ false)
        × (r.0.db ≡ record d { audit_log = d.audit_log ++ trace_row row.workspace_id v cfg ∷ [] }))
    ⊎ ((source ⟶ target)
        × (marshals (transition_payload id source target reason cfg) ≡ false)
        × (r.1 ≡ failed (audit_failed marshal_failed)))
    ⊎ ((source ⟶ target)
        × (marshals (transition_payload id source target reason cfg) ≡ true)
        × (r.1 ≡ done)
        × (r.0.is_aborted ≡ false)
        × (r.0.db ≡ after_transition now id target reason cfg row d))

-- How a transition ends.
abbrev pub IsAnswered : ℕ → ℕ → State → String → Config → Db → Tx × Outcome TransitionError → Type 0
IsAnswered now id target reason cfg d r =
    ((lookup id d.enrollments ≡ none) × (r.1 ≡ failed enrollment_not_found) × (r.0.db ≡ d))
    ⊎ ((row : Enrollment) × (lookup id d.enrollments ≡ some row)
        × IsDecided now id target reason cfg row d r)

module _ (faults : Faults) (healthy : Healthy faults) (now id : ℕ) (target : State)
    (reason : String) (opts : List ConfigOption) (tx : Tx) (live : tx.is_aborted ≡ false) where
  -- Past the lock, what is left is decided by the row.
  transition-after_lock :
      transition faults now id target reason opts tx
      ≡ after_lock faults now id target reason
          (config_of target opts)
          (lookup id tx.db.enrollments)
          (locked_tx tx)
  unfolding transition
  transition-after_lock = rw (statement-runs faults (λ d. d) tx live (healthy tx.executed))

  -- A missing enrollment is reported as such and nothing is written.
  transition_missing :
      lookup id tx.db.enrollments ≡ none
      → (transition faults now id target reason opts tx
          ≡ (locked_tx tx, failed enrollment_not_found))
  unfolding after_lock
  transition_missing missing = rw (transition-after_lock, missing)

  module _ (row : Enrollment) (found : lookup id tx.db.enrollments ≡ some row) where
    -- In panic mode an illegal edge panics with nothing written.
    transition_panics :
        can_transition (state_of_text row.state) target ≡ false
        → (config_of target opts).invalid_mode ≡ invalid_panic
        → transition faults now id target reason opts tx
          ≡ (locked_tx tx, panicked (violation id target row))
    unfolding after_lock reject
    transition_panics illegal mode = rw (transition-after_lock, found, illegal, mode)

    -- In audit mode an illegal edge is returned as an invalid transition; the trace is the one write.
    transition_traced :
        can_transition (state_of_text row.state) target ≡ false
        → (config_of target opts).invalid_mode ≡ invalid_audit
        → let r = transition faults now id target reason opts tx in
          (r.1 ≡ failed (invalid (violation id target row)))
          × (r.0.is_aborted ≡ false)
          × (r.0.db ≡ record tx.db {
            audit_log =
                tx.db.audit_log
                ++ trace_row row.workspace_id (violation id target row) (config_of target opts)
                  ∷ [];
          })
    unfolding after_lock reject marshals invalid_payload
    transition_traced illegal mode =
        rw (transition-after_lock, found, illegal, mode) (ground (arith, healthy (tx.executed + 1)))

    pub transition_goes_through :
        can_transition (state_of_text row.state) target ≡ true
        → marshals
            (transition_payload id (state_of_text row.state) target reason (config_of target opts))
          ≡ true
        → (transition faults now id target reason opts tx).1 ≡ done
    unfolding after_lock apply_transition
    transition_goes_through legal fits =
        rw (transition-after_lock, found, legal)
          (ground (
            arith,
            healthy (tx.executed + 1),
            healthy (tx.executed + 1 + 1),
            healthy (tx.executed + 1 + 1 + 1),
          ))

    -- A legal edge whose payload cannot be marshalled fails in the audit.
    transition_unmarshalled :
        can_transition (state_of_text row.state) target ≡ true
        → marshals
            (transition_payload id (state_of_text row.state) target reason (config_of target opts))
          ≡ false
        → (transition faults now id target reason opts tx).1 ≡ failed (audit_failed marshal_failed)
    unfolding after_lock apply_transition
    transition_unmarshalled legal unfit =
        rw (transition-after_lock, found, legal) (ground (arith, healthy (tx.executed + 1)))

    -- The refusal of an edge that the diagram does not have, in either mode.
    refused-IsDecided :
        can_transition (state_of_text row.state) target ≡ false
        → IsDecided now id target reason
            (config_of target opts)
            row
            tx.db
            (transition faults now id target reason opts tx)
    refused-IsDecided illegal =
        let no_edge : ¬ (state_of_text row.state ⟶ target) =
          λ edge. (let legal = ⟶-can_transition edge in cc) in
        elim (InvalidMode-cases (config_of target opts).invalid_mode) [
          | inl panic ↦
              let r = transition_panics illegal panic in inl (no_edge, panic, rw r refl, rw r refl)
          | inr audit ↦
              let (answer, alive, written) = transition_traced illegal audit in
              inr (inl (no_edge, audit, answer, alive, written))
        ]

    -- A transition that is done has left the tables of its edge.
    done-IsKept :
        (transition faults now id target reason opts tx).1 ≡ done
        → ((transition faults now id target reason opts tx).0.is_aborted ≡ false)
          × ((transition faults now id target reason opts tx).0.db
              ≡ after_transition now id target reason (config_of target opts) row tx.db)
    done-IsKept success =
        let (row', found', edge, tables, stays) =
          transition_done faults now id target reason opts tx success in
        let same : row' ≡ row = cc in
        let Kept : Enrollment → Type 0 = λ row.
          (transition faults now id target reason opts tx).0.db
          ≡ after_transition now id target reason (config_of target opts) row tx.db in
        (stays, subst Kept same tables)

    transition-IsDecided :
        IsDecided now id target reason
          (config_of target opts)
          row
          tx.db
          (transition faults now id target reason opts tx)
    transition-IsDecided =
        let source = state_of_text row.state in
        elim (Bool-cases (can_transition source target)) [
          | inr illegal ↦ refused-IsDecided illegal
          | inl legal ↦
              let edge = can_transition-⟶ source target legal in
              let payload = transition_payload id source target reason (config_of target opts) in
              elim (Bool-cases (marshals payload)) [
                | inl fits ↦
                    let success = transition_goes_through legal fits in
                    let (stays, tables) = done-IsKept success in
                    inr (inr (inr (edge, fits, success, stays, tables)))
                | inr unfit ↦ inr (inr (inl (edge, unfit, transition_unmarshalled legal unfit)))
              ]
        ]

  -- With no failing statement, what a transition answers and leaves is decided by the row and the
  -- diagram. No row: not found, with nothing written. An edge that the diagram does not have: in
  -- panic mode a panic about the enrollment, its state and the target, with nothing written; in audit
  -- mode an error about them, and the one write is a row of the audit log with the enrollment, its
  -- state as `from`, the target as `to_attempted` and the caller. An edge of the diagram: done, with
  -- the tables of that edge, unless
  -- the payload of the audit row cannot be marshalled, and then that error.
  pub transition_cases :
      IsAnswered now id target reason
        (config_of target opts)
        tx.db
        (transition faults now id target reason opts tx)
  transition_cases = elim (Option-cases (lookup id tx.db.enrollments)) [
    | inl missing ↦
        inl (missing, rw (transition_missing missing) refl, rw (transition_missing missing) refl)
    | inr (row, found) ↦ inr (row, found, transition-IsDecided row found)
  ]
