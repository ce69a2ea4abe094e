-- ===== src/Sequences/Mailbox/Paths.antt =====
-- The enrollments under a poll.
use lecrm.Common.{
  ℕ, ◌+◌, String, Option, none, some, List, [], ◌∷◌, ◌++◌, ◌≡◌, ◌⊎◌, refl, arith, Bool-cases,
  Option-cases, inl, inr, lookup, update, nat_eq,
}
use lecrm.Sequences.State.{State, state_of_text, can_transition, reply_received, ooo_detected}
use lecrm.Sequences.State.Graph.{◌⟶◌, here, can_transition-⟶}
use lecrm.Sequences.Store.{Enrollment, Tx, Faults, InvalidTransitionError}
use lecrm.Sequences.Store.Laws.{statement_cases}
use lecrm.Sequences.Transition.{set_clauses, apply_transition, after_lock, transition}
use lecrm.Sequences.Transition.Options.{Config, ConfigOption}
use lecrm.Sequences.Transition.Effects.{config_of, reject_lem}
use lecrm.Sequences.Correlate.{ReplyMatch}
use lecrm.Sequences.Mailbox.{
  Deps, reply_options, return_options, finalize_options, apply_reply, apply_replies,
}
use lecrm.Sequences.Transition.Life.{Follows, update-Follows, path_trans}

module _ (faults : Faults) (now id : ℕ) (target : State) (reason : String) where
  apply_transition_rows :
      (cfg : Config) (row : Enrollment) (tx : Tx)
      → ((apply_transition faults now id target reason cfg row tx).0.db.enrollments
          ≡ tx.db.enrollments)
        ⊎ ((apply_transition faults now id target reason cfg row tx).0.db.enrollments
            ≡ update id (set_clauses now target cfg) tx.db.enrollments)
  unfolding apply_transition
  apply_transition_rows cfg row tx = ground arith

  after_lock_rows :
      (cfg : Config) (found : Option Enrollment) (tx : Tx)
      → ((after_lock faults now id target reason cfg found tx).0.db.enrollments ≡ tx.db.enrollments)
        ⊎ ((row : Enrollment) × (found ≡ some row)
            × (state_of_text row.state ⟶ target)
            × ((after_lock faults now id target reason cfg found tx).0.db.enrollments
                ≡ update id (set_clauses now target cfg) tx.db.enrollments))
  unfolding after_lock
  after_lock_rows cfg none tx = inl refl
  after_lock_rows cfg (some row) tx =
      let e : InvalidTransitionError = record {
        enrollment_id = id;
        source = state_of_text row.state;
        target = target;
      } in
      elim (Bool-cases (can_transition (state_of_text row.state) target)) [
        | inr illegal ↦
            inl (rw illegal (reject_lem faults now id target reason cfg row.workspace_id e tx).1)
        | inl legal ↦ elim (apply_transition_rows cfg row tx) [
          | inl same ↦ inl (rw legal same)
          | inr written ↦ inr (row, refl, can_transition-⟶ _ _ legal, rw legal written)
        ]
      ]

  -- However a transition ends, the rows have kept their states or followed an edge.
  transition-Follows :
      (opts : List ConfigOption) (tx : Tx) (j : ℕ) (old : Enrollment)
      → lookup j tx.db.enrollments ≡ some old
      → Follows
          (state_of_text old.state)
          (lookup j (transition faults now id target reason opts tx).0.db.enrollments)
  unfolding transition
  transition-Follows opts tx j old at = elim (statement_cases faults (λ d. d) tx) [
    | inr fails ↦ rw fails (old, at, here)
    | inl runs ↦
        let tx' : Tx = record tx { executed = tx.executed + 1 } in
        elim (after_lock_rows (config_of target opts) (lookup id tx.db.enrollments) tx') [
          | inl same ↦ rw (runs, same) (old, at, here)
          | inr (row, found, edge, written) ↦
              rw (runs, written)
                (update-Follows id j now target opts row old tx.db.enrollments found edge at)
        ]
  ]

module _ (deps : Deps) (faults : Faults) (now : ℕ) where
  -- A reply is one transition, or it is not classified.
  apply_reply_cases :
      (m : ReplyMatch) (tx : Tx)
      → ((apply_reply deps faults now m tx).0 ≡ tx)
        ⊎ ((target : State) × (reason : String) × (opts : List ConfigOption) × ((apply_reply deps
                faults now m tx).0
              ≡ (transition faults now m.enrollment_id target reason opts tx).0))
  unfolding apply_reply
  apply_reply_cases m tx = elim (Option-cases (deps.classify m.message)) [
    | inl fails ↦ inl (ground arith)
    | inr (cls, classified) ↦ elim (Bool-cases cls.is_ooo) [
      | inl ooo ↦ inr (
        ooo_detected,
        "gmail out-of-office detected",
        reply_options m cls ++ return_options cls.ooo_returns_at,
        ground arith,
      )
      | inr answer ↦ inr (
        reply_received,
        "gmail reply detected",
        reply_options m cls ++ finalize_options deps.finalize,
        ground arith,
      )
    ]
  ]

  apply_reply-Follows :
      (m : ReplyMatch) (tx : Tx) (j : ℕ) (old : Enrollment)
      → lookup j tx.db.enrollments ≡ some old
      → Follows
          (state_of_text old.state)
          (lookup j (apply_reply deps faults now m tx).0.db.enrollments)
  apply_reply-Follows m tx j old at = elim (apply_reply_cases m tx) [
    | inl same ↦ rw same (old, at, here)
    | inr (target, reason, opts, moved) ↦
        rw moved (transition-Follows faults now m.enrollment_id target reason opts tx j old at)
  ]

  apply_replies_cases :
      (m : ReplyMatch) (ms : List ReplyMatch) (tx : Tx)
      → let tx' = (apply_reply deps faults now m tx).0 in
        ((apply_replies deps faults now (m ∷ ms) tx).0 ≡ tx')
        ⊎ ((apply_replies deps faults now (m ∷ ms) tx).0 ≡ (apply_replies deps faults now ms tx').0)
  unfolding apply_replies
  apply_replies_cases m ms tx = ground arith

  -- Whatever happens in a batch of replies, every enrollment is still there and its state has moved
  -- along a path of the diagram.
  apply_replies-Follows :
      (ms : List ReplyMatch) (tx : Tx) (j : ℕ) (old : Enrollment)
      → lookup j tx.db.enrollments ≡ some old
      → Follows
          (state_of_text old.state)
          (lookup j (apply_replies deps faults now ms tx).0.db.enrollments)
  unfolding apply_replies
  apply_replies-Follows [] tx j old at = (old, at, here)
  apply_replies-Follows (m ∷ ms) tx j old at =
      let (mid, at', first) = apply_reply-Follows m tx j old at in
      elim (apply_replies_cases m ms tx) [
        | inl stops ↦ rw stops (mid, at', first)
        | inr goes_on ↦
            let (row, at'', rest) =
              apply_replies-Follows ms (apply_reply deps faults now m tx).0 j mid at' in
            rw goes_on (row, at'', path_trans first rest)
      ]
