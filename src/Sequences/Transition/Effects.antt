-- ===== src/Sequences/Transition/Effects.antt =====
-- What a transition does to the tables, on each of its ways out.
use lecrm.Common.{
  ℕ, String, true, false, Option, none, some, List, [], ◌∷◌, ◌++◌, ◌≡◌, ◌≢◌, refl, arith,
  Bool-cases, ◌⊎◌, ◌∙◌, inl, inr, lookup, update, if◌then◌else◌, nat_eq, ◌+◌,
}
use lecrm.Sequences.State.{State, text_of_state, state_of_text, is_terminal, can_transition}
use lecrm.Sequences.State.Graph.{◌⟶◌, can_transition-⟶}
use lecrm.Sequences.Audit.{AuditRow}
use lecrm.Sequences.Store.{
  Enrollment, FinalizeArgs, Db, Tx, Faults, InvalidTransitionError, done, Pool, begin, run_in_tx,
}
use lecrm.Sequences.Store.Laws.{
  run_in_tx_atomic, run_in_tx_committed, statement_cases, Outcome-cases,
}
use lecrm.Sequences.Transition.{
  set_clauses, transition_payload, reject, apply_transition, after_lock, transition,
}
use lecrm.Sequences.Transition.Options.{Config, ConfigOption, default_config, configure}

-- The configuration that the options give.
abbrev pub config_of : State → List ConfigOption → Config
config_of target opts = configure opts (default_config target)

-- The audit row that a transition of `row` owes.
abbrev pub owed_row : ℕ → State → String → Config → Enrollment → AuditRow
owed_row id target reason cfg row = record {
  event = cfg.event;
  workspace_id = row.workspace_id;
  actor_type = cfg.actor_type;
  actor_user_id = cfg.actor_user_id;
  payload = transition_payload id (state_of_text row.state) target reason cfg;
}

abbrev pub finalize_args : ℕ → State → String → Enrollment → FinalizeArgs
finalize_args id target reason row = record {
  workspace_id = row.workspace_id;
  enrollment_id = id;
  terminal_state = text_of_state target;
  reason = reason;
}

-- The queue after a transition: touched only for a terminal state with a client wired.
abbrev pub owed_jobs : Config → State → FinalizeArgs → List FinalizeArgs → List FinalizeArgs
owed_jobs cfg target args jobs = elim cfg.enqueuer [
  | none ↦ jobs
  | some insert_tx ↦ if is_terminal target then insert_tx args jobs else jobs
]

-- The tables after a transition that went through.
abbrev pub after_transition : ℕ → ℕ → State → String → Config → Enrollment → Db → Db
after_transition now id target reason cfg row d = record d {
  enrollments = update id (set_clauses now target cfg) d.enrollments;
  audit_log = d.audit_log ++ owed_row id target reason cfg row ∷ [];
  jobs = owed_jobs cfg target (finalize_args id target reason row) d.jobs;
}

module _ (faults : Faults) (now id : ℕ) (target : State) (reason : String) (cfg : Config) where
  apply_transition_done :
      (row : Enrollment) (tx : Tx)
      → (apply_transition faults now id target reason cfg row tx).1 ≡ done
      → ((apply_transition faults now id target reason cfg row tx).0.db
          ≡ after_transition now id target reason cfg row tx.db)
        × ((apply_transition faults now id target reason cfg row tx).0.is_aborted ≡ false)
  unfolding apply_transition is_terminal
  apply_transition_done row tx h = ground arith

  -- An illegal edge: in audit mode the tables get at most the one trace, in panic mode nothing.
  pub reject_lem :
      (workspace_id : ℕ) (e : InvalidTransitionError) (tx : Tx)
      → ((reject faults cfg workspace_id e tx).1 ≢ done)
        × ((reject faults cfg workspace_id e tx).0.db.enrollments ≡ tx.db.enrollments)
        × ((reject faults cfg workspace_id e tx).0.db.jobs ≡ tx.db.jobs)
  unfolding reject
  reject_lem workspace_id e tx = ground arith

  after_lock_done :
      (found : Option Enrollment) (tx : Tx)
      → (after_lock faults now id target reason cfg found tx).1 ≡ done
      → (row : Enrollment) × (found ≡ some row)
        × (can_transition (state_of_text row.state) target ≡ true)
        × ((after_lock faults now id target reason cfg found tx).0.db
            ≡ after_transition now id target reason cfg row tx.db)
        × ((after_lock faults now id target reason cfg found tx).0.is_aborted ≡ false)
  unfolding after_lock
  after_lock_done none tx h = ground arith
  after_lock_done (some row) tx h =
      elim (Bool-cases (can_transition (state_of_text row.state) target)) [
        | inl legal ↦
            let applied = apply_transition_done row tx (rw legal at h) in
            (row, refl, legal, rw legal applied.0, rw legal applied.1)
        | inr illegal ↦ absurd (
            (reject_lem row.workspace_id
                (record { enrollment_id = id; source = state_of_text row.state; target = target })
                tx).0
              (rw illegal at h))
      ]

-- A transition that returns nil found its enrollment, followed an edge of the diagram, and did
-- exactly three things: it wrote the row, added its one audit row at the end of the log, and handed
-- the finalize job over if the state is terminal and a client is wired.
pub transition_done :
    (faults : Faults) (now id : ℕ) (target : State) (reason : String) (opts : List ConfigOption)
    (tx : Tx)
    → (transition faults now id target reason opts tx).1 ≡ done
    → (row : Enrollment) × (lookup id tx.db.enrollments ≡ some row)
      × (state_of_text row.state ⟶ target)
      × ((transition faults now id target reason opts tx).0.db
          ≡ after_transition now id target reason (config_of target opts) row tx.db)
      × ((transition faults now id target reason opts tx).0.is_aborted ≡ false)
unfolding transition
transition_done faults now id target reason opts tx h = elim (statement_cases faults (λ d. d) tx) [
  | inl runs ↦
      let cfg = config_of target opts in
      let (row, found, legal, tables, live) =
        after_lock_done faults now id target reason cfg (lookup id tx.db.enrollments)
          (record tx { executed = tx.executed + 1 }) (rw runs at h) in
      (row, found, can_transition-⟶ _ _ legal, rw runs tables, rw runs live)
  | inr fails ↦ absurd (let h' = rw fails at h in cc)
]

-- A transition inside its envelope either fails and changes nothing at all, or succeeds and commits
-- the new row, exactly one audit row and the finalize job together, along an edge of the diagram.
pub transition_atomic :
    (pool : Pool) (faults : Faults) (now id : ℕ) (target : State) (reason : String)
    (opts : List ConfigOption) (d : Db)
    → let r = run_in_tx pool (transition faults now id target reason opts) d in
      ((r.1 ≢ done) × (r.0 ≡ d))
      ⊎ ((r.1 ≡ done)
          × ((row : Enrollment) × (lookup id d.enrollments ≡ some row)
              × (state_of_text row.state ⟶ target)
              × (r.0 ≡ after_transition now id target reason (config_of target opts) row d)))
unfolding begin
transition_atomic pool faults now id target reason opts d =
    elim (Outcome-cases (run_in_tx pool (transition faults now id target reason opts) d).1) [
      | inl success ↦
          let (body, live, kept) =
            run_in_tx_committed pool (transition faults now id target reason opts) d success in
          let (row, found, edge, tables, _) =
            transition_done faults now id target reason opts (begin d) body in
          inr (success, (row, found, edge, kept ∙ tables))
      | inr failure ↦
          inl
            (failure, run_in_tx_atomic pool (transition faults now id target reason opts) d failure)
    ]
