-- ===== src/Sequences/Bounce/Policy.antt =====
-- What the bounce policy does to a recipient, and what a later preflight makes of it.
use lecrm.Common.{
  ℕ, ◌+◌, ◌≤◌, ◌<◌, String, true, false, Option, none, some, ◌≡◌, ◌≢◌, ◌⊎◌, inl, inr, refl, ap, ◌∙◌,
  arith, Bool-cases, Option-cases, lookup, lookup-insert, string_eq, beq_refl, if◌then◌else◌,
}
use lecrm.Common.Int.{ℤ, pos, pos_part, leb_ℤ}
use lecrm.Calendar.{Time}
use lecrm.Sequences.Store.{Suppression, Db, Tx, Faults, statement}
use lecrm.Sequences.Store.Laws.{statement_cases}
use lecrm.Sequences.Limits.{Limits, with_defaults}
use lecrm.Sequences.Preflight.{allowed, recipient, suppression_gate, with_recipient, preflight}
use lecrm.Sequences.Preflight.Gates.{lets_send}
use lecrm.Sequences.Bounce.{
  BounceKind, soft, hard, complaint, unknown, BounceAction, evaluate_bounce,
  consecutive_soft_bounces, upsert_suppression, BounceError, act, apply_bounce, is_soft_kind,
}

-- A threshold below 1 counts as 3.
abbrev pub effective_threshold : Limits → ℕ
effective_threshold limits =
    if leb_ℤ limits.soft_bounce_suppress_threshold (pos 0)
    then 3
    else pos_part limits.soft_bounce_suppress_threshold

-- A hard bounce and a complaint suppress at once, each under its own reason; a soft bounce suppresses
-- exactly when the run has reached the threshold, and then as a hard bounce; any other kind never
-- does, and where nothing is suppressed no reason is given.
evaluate_bounce_policy :
    (kind : BounceKind) (n : ℕ) (limits : Limits)
    → let a = evaluate_bounce kind n limits in
      ((kind ≡ hard) × (a.suppress ≡ true) × (a.reason ≡ "hard_bounce"))
      ⊎ ((kind ≡ complaint) × (a.suppress ≡ true) × (a.reason ≡ "complaint"))
      ⊎ ((kind ≡ soft)
          × (effective_threshold limits ≤ n)
          × (a.suppress ≡ true)
          × (a.reason ≡ "hard_bounce"))
      ⊎ ((kind ≡ soft) × (n < effective_threshold limits) × (a.suppress ≡ false) × (a.reason ≡ ""))
      ⊎ ((kind ≢ hard)
          × (kind ≢ complaint)
          × (kind ≢ soft)
          × (a.suppress ≡ false)
          × (a.reason ≡ ""))
unfolding evaluate_bounce
evaluate_bounce_policy hard n limits = ground arith
evaluate_bounce_policy complaint n limits = ground arith
evaluate_bounce_policy soft n limits = ground arith
evaluate_bounce_policy (unknown s) n limits =
    inr (inr (inr (inr ((λ e. cc), (λ e. cc), (λ e. cc), refl, refl))))

-- A result that says it has suppressed the address, and has.
abbrev Suppresses : ℕ → String → Tx × BounceAction × Option BounceError → Type 0
Suppresses now email r =
    r.2 ≡ none
    → r.1.suppress ≡ true
    → lookup email r.0.db.email_suppression
      ≡ some (record { reason = r.1.reason; suppressed_at = now })

act-Suppresses :
    (faults : Faults) (now : ℕ) (email : String) (action : BounceAction) (tx : Tx)
    → Suppresses now email (act faults now email action tx)
unfolding act upsert_suppression statement
act-Suppresses faults now email action tx clean on = ground (
  arith,
  beq_refl email,
  lookup-insert email email (record { reason = action.reason; suppressed_at = now })
      tx.db.email_suppression,
)

apply_bounce_writes :
    (faults : Faults) (now : ℕ) (email : String) (kind : BounceKind) (limits : Limits) (tx : Tx)
    → Suppresses now email (apply_bounce faults now email kind limits tx)
unfolding apply_bounce
apply_bounce_writes faults now email kind limits tx =
    let filled = with_defaults limits in
    elim (Bool-cases (is_soft_kind kind)) [
      | inr other ↦ rw other (act-Suppresses faults now email (evaluate_bounce kind 0 filled) tx)
      | inl same ↦ elim (Option-cases (consecutive_soft_bounces faults email tx).1) [
        | inl failed ↦ λ clean on. absurd (ground arith)
        | inr (run, counted) ↦ λ clean on.
            let tx' = (consecutive_soft_bounces faults email tx).0 in
            ground (arith, act-Suppresses faults now email (evaluate_bounce kind run filled) tx')
      ]
    ]

-- A suppressed address is never sent to.
suppression_gate_blocks :
    (faults : Faults) (now : Time) (contact : ℕ) (step_index : ℤ) (email : String) (limits : Limits)
    (tx : Tx) (s : Suppression)
    → lookup email tx.db.email_suppression ≡ some s
    → lets_send (suppression_gate faults now contact step_index email limits tx).1 ≡ false
unfolding suppression_gate allowed statement
suppression_gate_blocks faults now contact step_index email limits tx s found = ground arith

with_recipient_blocks :
    (faults : Faults) (now : Time) (step_index : ℤ) (limits : Limits) (tx : Tx) (email : String)
    (contact : ℕ) (s : Suppression)
    → lookup email tx.db.email_suppression ≡ some s
    → lets_send (with_recipient faults now step_index limits (some (some email, contact)) tx).1
      ≡ false
unfolding with_recipient
with_recipient_blocks faults now step_index limits tx email contact s found =
    ground (arith, suppression_gate_blocks faults now contact step_index email limits tx s found)

preflight_blocks :
    (faults : Faults) (now : Time) (id : ℕ) (step_index : ℤ) (limits : Limits) (tx : Tx)
    (email : String) (contact : ℕ) (s : Suppression)
    → recipient tx.db id ≡ some (some email, contact)
    → lookup email tx.db.email_suppression ≡ some s
    → lets_send (preflight faults now id step_index limits tx).1 ≡ false
unfolding preflight
preflight_blocks faults now id step_index limits tx email contact s to found =
    elim (statement_cases faults (λ d. d) tx) [
      | inl runs ↦
          let tx' = record tx { executed = tx.executed + 1 } in
          rw (runs, to)
            (with_recipient_blocks faults now step_index (with_defaults limits) tx' email contact s
              found)
      | inr fails ↦ rw fails
    ]

-- After a bounce that suppressed an address with no error, no preflight lets a send to that address go
-- on, for any enrollment of it, whatever the limits, the clock and the faults are then.
pub preflight-apply_bounce :
    (faults : Faults) (at : ℕ) (email : String) (kind : BounceKind) (limits : Limits) (tx : Tx)
    (later : Tx) (faults' : Faults) (now : Time) (id contact : ℕ) (step_index : ℤ)
    (limits' : Limits)
    → (apply_bounce faults at email kind limits tx).2 ≡ none
    → (apply_bounce faults at email kind limits tx).1.suppress ≡ true
    → later.db ≡ (apply_bounce faults at email kind limits tx).0.db
    → recipient later.db id ≡ some (some email, contact)
    → lets_send (preflight faults' now id step_index limits' later).1 ≡ false
preflight-apply_bounce faults at email kind limits tx later faults' now id contact step_index
      limits' clean on same to =
    preflight_blocks faults' now id step_index limits' later email contact _ to (
      ap (λ (d : Db). lookup email d.email_suppression) same
      ∙ apply_bounce_writes faults at email kind limits tx clean on)
