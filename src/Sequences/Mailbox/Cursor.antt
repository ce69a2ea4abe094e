-- ===== src/Sequences/Mailbox/Cursor.antt =====
-- The cursor of a mailbox.
use lecrm.Common.{
  ℕ, ◌+◌, true, false, some, List, [], ◌∷◌, ◌++◌, ◌≡◌, ◌≢◌, refl, ap, ◌∙◌, arith, inl, inr,
  Option-cases, Result-cases, if◌then◌else◌, ltb,
}
use lecrm.Sequences.State.{reply_received, ooo_detected}
use lecrm.Sequences.Store.{Tx, Faults, statement, Outcome, done}
use lecrm.Sequences.Store.Laws.{statement_cases}
use lecrm.Sequences.Transition.Frame.{transition_keeps}
use lecrm.Sequences.Correlate.{
  InboundMessage, ReplyMatch, collect_referenced_ids, correlate_replies,
}
use lecrm.Sequences.Mailbox.{
  scanned, HistoryClient, Deps, PollError, cursor_of, load_cursor, save_cursor, match_steps,
  reply_options, return_options, finalize_options, apply_reply, apply_replies, apply_batch, advance,
  scan_from, poll_from, poll_mailbox,
}

module _ (deps : Deps) (faults : Faults) (now : ℕ) where
  apply_reply_keeps :
      (m : ReplyMatch) (tx : Tx) → (apply_reply deps faults now m tx).0.db.gmail ≡ tx.db.gmail
  unfolding apply_reply
  apply_reply_keeps m tx = elim (Option-cases (deps.classify m.message)) [
    | inl fails ↦ rw (fails, apply_reply) refl
    | inr (cls, classified) ↦ ground (
      arith,
      transition_keeps faults now m.enrollment_id ooo_detected "gmail out-of-office detected"
          (reply_options m cls ++ return_options cls.ooo_returns_at) tx,
      transition_keeps faults now m.enrollment_id reply_received "gmail reply detected"
          (reply_options m cls ++ finalize_options deps.finalize) tx,
    )
  ]

  apply_replies_keeps :
      (ms : List ReplyMatch) (tx : Tx)
      → (apply_replies deps faults now ms tx).0.db.gmail ≡ tx.db.gmail
  unfolding apply_replies
  apply_replies_keeps [] tx = refl
  apply_replies_keeps (m ∷ ms) tx =
      ground
        (arith, apply_reply_keeps m tx, apply_replies_keeps ms (apply_reply deps faults now m tx).0)

  match_steps_keeps : (ids : List (List ℕ)) (tx : Tx) → (match_steps faults ids tx).0.db ≡ tx.db
  unfolding match_steps statement
  match_steps_keeps ids tx = ground arith

  apply_batch_keeps :
      (msgs : List InboundMessage) (tx : Tx)
      → (apply_batch deps faults now msgs tx).0.db.gmail ≡ tx.db.gmail
  unfolding apply_batch
  apply_batch_keeps msgs tx =
      let ids = collect_referenced_ids msgs in
      let tx' = (match_steps faults ids tx).0 in
      elim (Result-cases (match_steps faults ids tx).1) [
        | inl (rows, matched) ↦
            ground (
              arith,
              match_steps_keeps ids tx,
              apply_replies_keeps (correlate_replies msgs rows) tx',
            )
        | inr (e, fails) ↦ ground (arith, match_steps_keeps ids tx)
      ]

advance_forward :
    (faults : Faults) (start latest : ℕ) (r : Tx × Outcome PollError)
    → cursor_of r.0.db.gmail ≡ some start
    → (advance faults start latest r).1 ≡ done
    → cursor_of (advance faults start latest r).0.db.gmail
      ≡ some (if ltb start latest then latest else start)
unfolding save_cursor statement
advance_forward faults start latest r at h = ground arith

-- A poll whose first query runs is the batch of its scan, and the advance.
poll_mailbox_scans :
    (deps : Deps) (faults : Faults) (now history_id start latest : ℕ) (client : HistoryClient)
    (msgs : List InboundMessage) (tx tx' : Tx)
    → deps.client ≡ some client
    → cursor_of tx'.db.gmail ≡ some start
    → client.messages_since start ≡ scanned msgs latest
    → statement faults (λ d. d) tx ≡ (tx', true)
    → poll_mailbox deps faults now history_id tx
      ≡ advance faults start latest (apply_batch deps faults now msgs tx')
unfolding poll_mailbox poll_from scan_from load_cursor
poll_mailbox_scans deps faults now history_id start latest client msgs tx tx' built at scan runs =
    ground arith

poll_mailbox_unread :
    (deps : Deps) (faults : Faults) (now history_id : ℕ) (client : HistoryClient) (tx tx' : Tx)
    → deps.client ≡ some client
    → statement faults (λ d. d) tx ≡ (tx', false)
    → (poll_mailbox deps faults now history_id tx).1 ≢ done
unfolding poll_mailbox load_cursor
poll_mailbox_unread deps faults now history_id client tx tx' built fails h = ground arith

-- A poll from a cursor that is there, whose scan answers and which succeeds, leaves the cursor at the
-- later of what it was and what the scan reached: it never goes back, whatever the batch did.
pub poll_mailbox_forward :
    (deps : Deps) (faults : Faults) (now history_id start latest : ℕ) (client : HistoryClient)
    (msgs : List InboundMessage) (tx : Tx)
    → deps.client ≡ some client
    → cursor_of tx.db.gmail ≡ some start
    → client.messages_since start ≡ scanned msgs latest
    → (poll_mailbox deps faults now history_id tx).1 ≡ done
    → cursor_of (poll_mailbox deps faults now history_id tx).0.db.gmail
      ≡ some (if ltb start latest then latest else start)
poll_mailbox_forward deps faults now history_id start latest client msgs tx built at scan h =
    elim (statement_cases faults (λ d. d) tx) [
      | inl runs ↦
          let tx' : Tx = record tx { executed = tx.executed + 1 } in
          let scans =
            poll_mailbox_scans deps faults now history_id start latest client msgs tx tx' built at
              scan runs in
          let kept = ap cursor_of (apply_batch_keeps deps faults now msgs tx') ∙ at in
          rw scans (
            advance_forward faults start latest (apply_batch deps faults now msgs tx') kept
              (rw scans at h))
      | inr fails ↦
          absurd (poll_mailbox_unread deps faults now history_id client tx _ built fails h)
    ]
