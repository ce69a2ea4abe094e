-- ===== src/Sequences/Ooo/Resume.antt =====
-- The poll with the classifier wired in: when a postponed sequence goes on.
use lecrm.Common.{
  ℕ, String, true, false, Option, none, some, List, ◌≡◌, ◌⊎◌, inl, inr, refl, ap, ◌∙◌, lookup,
  lookup-update, beq_refl, nat_eq, ◌++◌,
}
use lecrm.Calendar.{Time, IsTime, instant}
use lecrm.Sequences.State.{State, text_of_state, reply_received, ooo_detected}
use lecrm.Sequences.Store.{Enrollment, Tx, Faults, Outcome, done, failed, panicked}
use lecrm.Sequences.Transition.{TransitionError, set_clauses, transition}
use lecrm.Sequences.Transition.Options.{
  ConfigOption, FinalizeEnqueuer, configure, default_config, with_reply_message_id,
  with_invalid_mode, with_caller, with_payload, with_ooo_returns_at, with_next_action_at,
}
use lecrm.Sequences.Transition.Effects.{config_of, transition_done}
use lecrm.Sequences.Correlate.{InboundMessage, ReplyMatch}
use lecrm.Sequences.Mailbox.{
  wrap, Deps, Classification, apply_reply, reply_options, return_options, finalize_options,
}
use lecrm.Sequences.Ooo.Rules.{ReplyBody}
use lecrm.Sequences.Ooo.Classify.{Engine, Answer, classify, adapted, body_of, unless_failed}
use lecrm.Sequences.Ooo.Verdict.{IsReturnDate, IsAnswered, classify-IsAnswered}

-- The row after a transition that was done.
transition_row :
    (faults : Faults) (now id : ℕ) (target : State) (reason : String) (opts : List ConfigOption)
    (tx : Tx)
    → (transition faults now id target reason opts tx).1 ≡ done
    → (row : Enrollment) × (lookup id
          (transition faults now id target reason opts tx).0.db.enrollments
        ≡ some (set_clauses now target (config_of target opts) row))
transition_row faults now id target reason opts tx h =
    let (row, found, edge, tables, live) = transition_done faults now id target reason opts tx h in
    (
      row,
      ap (λ d. lookup id d.enrollments) tables
          ∙ (lookup-update id id (set_clauses now target (config_of target opts)) tx.db.enrollments
              ∙ rw (beq_refl id, found) refl),
    )

-- The moment is the answer's return date.
abbrev pub IsMoment : Engine → ReplyBody → Answer → Time → Type 0
IsMoment e body a t = IsReturnDate e body a.return_date × (a.return_date.time ≡ some t)

-- The classifier of the poll reports a return date with "out of office".
abbrev IsReported : Engine → ReplyBody → Answer → Option Classification → Type 0
IsReported e body a none = Unit
IsReported e body a (some cls) =
    ((cls.is_ooo ≡ true)
      × ((t : Time) × (cls.ooo_returns_at ≡ some (instant t)) × IsMoment e body a t))
    ⊎ (cls.is_ooo ≡ false)

unless_failed-IsReported :
    (e : Engine) (body : ReplyBody) (a : Answer) (error : Option String)
    → IsAnswered e body a
    → IsReported e body a (unless_failed error a)
unless_failed-IsReported e body a (some why) h = tt
unless_failed-IsReported e body a none (inl (is_ooo, no_error, dated)) =
    let (t, found) : (t : Time) × (a.return_date.time ≡ some t) = (dated.0, dated.1) in
    inl (rw is_ooo refl, (t, rw (is_ooo, found) refl, (dated, found)))
unless_failed-IsReported e body a none (inr (is_reply, nothing)) = inr (rw is_reply refl)

adapted-IsReported :
    (e : Engine) (m : InboundMessage)
    → IsTime e.now
    → IsReported e (body_of m) (classify e (body_of m)) (adapted e m)
unfolding adapted
adapted-IsReported e m v =
    unless_failed-IsReported e (body_of m) (classify e (body_of m)) (classify e (body_of m)).error
      (classify-IsAnswered e (body_of m) v)

-- What a reply did to the enrollment that it answers.
abbrev pub IsServedBy : Engine → InboundMessage → Option Enrollment → Type 0
IsServedBy e m none = ⊥
IsServedBy e m (some row) =
    (row.state ≡ text_of_state reply_received)
    ⊎ ((row.state ≡ text_of_state ooo_detected)
        × ((t : Time) × (row.ooo_returns_at ≡ some (instant t))
            × (row.next_action_at ≡ some (instant t))
            × IsMoment e (body_of m) (classify e (body_of m)) t))

wrap_done :
    (r : Tx × Outcome TransitionError) → (wrap r).1 ≡ done → (r.1 ≡ done) × ((wrap r).0 ≡ r.0)
wrap_done (tx, done) h = (refl, refl)
wrap_done (tx, failed why) h = absurd cc
wrap_done (tx, panicked p) h = absurd cc

module _ (e : Engine) (faults : Faults) (now : ℕ) (m : ReplyMatch) (tx : Tx) where
  reply_row :
      (cls : Classification) (finalize : Option FinalizeEnqueuer)
      → let served =
          transition faults now m.enrollment_id reply_received "gmail reply detected"
            (reply_options m cls ++ finalize_options finalize)
            tx in
        (served.1 ≡ done) → IsServedBy e m.message (lookup m.enrollment_id served.0.db.enrollments)
  unfolding set_clauses
  reply_row cls finalize h =
      let (row, found) =
        transition_row faults now m.enrollment_id reply_received "gmail reply detected"
          (reply_options m cls ++ finalize_options finalize) tx h in
      rw (found, IsServedBy) (inl refl)

  ooo_row :
      (cls : Classification) (t : Time)
      → IsMoment e (body_of m.message) (classify e (body_of m.message)) t
      → let served =
          transition faults now m.enrollment_id ooo_detected "gmail out-of-office detected"
            (reply_options m cls ++ return_options (some (instant t)))
            tx in
        (served.1 ≡ done) → IsServedBy e m.message (lookup m.enrollment_id served.0.db.enrollments)
  unfolding set_clauses configure with_ooo_returns_at with_next_action_at with_reply_message_id
      with_invalid_mode with_caller with_payload default_config
  ooo_row cls t q h =
      let (row, found) =
        transition_row faults now m.enrollment_id ooo_detected "gmail out-of-office detected"
          (reply_options m cls ++ return_options (some (instant t))) tx h in
      rw (found, IsServedBy) (inr (refl, (t, refl, refl, q)))

  classified_row :
      (deps : Deps) (o : Option Classification)
      → deps.classify m.message ≡ o
      → IsReported e (body_of m.message) (classify e (body_of m.message)) o
      → (apply_reply deps faults now m tx).1 ≡ done
      → IsServedBy e m.message
          (lookup m.enrollment_id (apply_reply deps faults now m tx).0.db.enrollments)
  unfolding apply_reply
  classified_row deps none p r h = absurd (let h' = rw (p, apply_reply) at h in cc)
  classified_row deps (some cls) p (inl (is_ooo, (t, at, q))) h =
      let (ended, kept) = wrap_done _ (rw (p, is_ooo, at, apply_reply) at h) in
      rw (p, is_ooo, at, apply_reply, kept) (ooo_row cls t q ended)
  classified_row deps (some cls) p (inr is_reply) h =
      let (ended, kept) = wrap_done _ (rw (p, is_reply, apply_reply) at h) in
      rw (p, is_reply, apply_reply, kept) (reply_row cls deps.finalize ended)

-- With the classifier wired into the poll, a reply that is applied leaves its enrollment either in
-- reply_received, or in ooo_detected with the moment of the return date as both the date of return
-- and the next action: the date that the reply names at 09:00, or else the fifth weekday after now.
pub apply_reply-IsServedBy :
    (e : Engine) (deps : Deps) (faults : Faults) (now : ℕ) (m : ReplyMatch) (tx : Tx)
    → IsTime e.now
    → (apply_reply (record deps { classify = adapted e }) faults now m tx).1 ≡ done
    → IsServedBy e m.message (
        lookup m.enrollment_id
          (apply_reply (record deps { classify = adapted e }) faults now m tx).0.db.enrollments)
apply_reply-IsServedBy e deps faults now m tx v h =
    classified_row e faults now m tx (record deps { classify = adapted e }) (adapted e m.message)
      refl (adapted-IsReported e m.message v) h
