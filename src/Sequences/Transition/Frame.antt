-- ===== src/Sequences/Transition/Frame.antt =====
-- What a transition leaves alone.
use lecrm.Common.{
  ℕ, ◌+◌, String, Option, none, some, ◌≡◌, refl, arith, Bool-cases, inl, inr, lookup, nat_eq, List,
}
use lecrm.Sequences.State.{State, state_of_text, can_transition}
use lecrm.Sequences.Store.{Enrollment, Tx, Faults, InvalidTransitionError}
use lecrm.Sequences.Store.Laws.{statement_cases}
use lecrm.Sequences.Transition.{reject, apply_transition, after_lock, transition}
use lecrm.Sequences.Transition.Options.{Config, ConfigOption}
use lecrm.Sequences.Transition.Effects.{config_of}

module _ (faults : Faults) (now id : ℕ) (target : State) (reason : String) where
  apply_transition_keeps :
      (cfg : Config) (row : Enrollment) (tx : Tx)
      → (apply_transition faults now id target reason cfg row tx).0.db.gmail ≡ tx.db.gmail
  unfolding apply_transition
  apply_transition_keeps cfg row tx = ground arith

  reject_keeps :
      (cfg : Config) (workspace_id : ℕ) (e : InvalidTransitionError) (tx : Tx)
      → (reject faults cfg workspace_id e tx).0.db.gmail ≡ tx.db.gmail
  unfolding reject
  reject_keeps cfg workspace_id e tx = ground arith

  after_lock_keeps :
      (cfg : Config) (found : Option Enrollment) (tx : Tx)
      → (after_lock faults now id target reason cfg found tx).0.db.gmail ≡ tx.db.gmail
  unfolding after_lock
  after_lock_keeps cfg none tx = refl
  after_lock_keeps cfg (some row) tx =
      let e : InvalidTransitionError = record {
        enrollment_id = id;
        source = state_of_text row.state;
        target = target;
      } in
      elim (Bool-cases (can_transition (state_of_text row.state) target)) [
        | inl legal ↦ rw legal (apply_transition_keeps cfg row tx)
        | inr illegal ↦ rw illegal (reject_keeps cfg row.workspace_id e tx)
      ]

  -- However a transition ends, the mailbox connection is as it was.
  pub transition_keeps :
      (opts : List ConfigOption) (tx : Tx)
      → (transition faults now id target reason opts tx).0.db.gmail ≡ tx.db.gmail
  unfolding transition
  transition_keeps opts tx = elim (statement_cases faults (λ d. d) tx) [
    | inl runs ↦ rw runs (
        after_lock_keeps (config_of target opts) (lookup id tx.db.enrollments)
          (record tx { executed = tx.executed + 1 }))
    | inr fails ↦ rw fails refl
  ]
