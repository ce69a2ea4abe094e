-- ===== src/Sequences/Bounce.antt =====
-- The bounce policy (apps/api/internal/sequences/bounce.go).
pub mod Run
pub mod Policy
use lecrm.Common.{
  ℕ, zero, suc, ◌+◌, String, Bool, true, false, ◌&&◌, Option, none, some, List, [], ◌∷◌, Eq, ◌==◌,
  nat_eq, string_eq, lookup, insert, ltb, if◌then◌else◌, Result, ok, err,
}
use lecrm.Common.Int.{ℤ, pos, leb_ℤ, pos_part, neg_part}
use lecrm.Sequences.Store.{Enrollment, Step, Suppression, Db, Tx, Faults, statement}
use lecrm.Sequences.Limits.{Limits, with_defaults}

-- Any string may arrive as a kind; `unknown` stands for the others.
pub data BounceKind : Type 0 where
  soft hard complaint : BounceKind
  unknown : String → BounceKind

abbrev pub suppression_reason_hard_bounce : String
suppression_reason_hard_bounce = "hard_bounce"

abbrev pub suppression_reason_complaint : String
suppression_reason_complaint = "complaint"

-- `Suppress` and `Reason` in one: the reason, if the recipient is to be suppressed.
pub record BounceAction : Type 0 where
  pub suppress : Bool
  pub reason : String

abbrev pub no_action : BounceAction
no_action = record { suppress = false; reason = "" }

-- `EvaluateBounce`
unfoldable pub evaluate_bounce : BounceKind → ℕ → Limits → BounceAction
unfolding with_defaults
evaluate_bounce hard n limits = record { suppress = true; reason = suppression_reason_hard_bounce }
evaluate_bounce complaint n limits = record {
  suppress = true;
  reason = suppression_reason_complaint;
}
evaluate_bounce soft n limits =
    if leb_ℤ (with_defaults limits).soft_bounce_suppress_threshold (pos n)
    then record { suppress = true; reason = suppression_reason_hard_bounce }
    else no_action
evaluate_bounce (unknown s) n limits = no_action

-- `s.bounced_at IS NOT NULL AND s.bounce_type = 'soft'`
abbrev pub is_soft : Step → Bool
is_soft s = elim s.bounced_at [
  | none ↦ false
  | some _ ↦ elim s.bounce_type [ none ↦ false | some t ↦ t == "soft" ]
]

abbrev pub has_address : Option (Option String) → String → Bool
has_address none email = false
has_address (some none) email = false
has_address (some (some address)) email = address == email

-- The joins of a step with its enrollment and its contact.
abbrev pub went_to : Db → String → Step → Bool
went_to d email s = elim (lookup s.enrollment_id d.enrollments) [
  | none ↦ false
  | some e ↦ has_address (lookup e.contact_id d.contacts) email
]

-- An attempt: when it was sent, and whether it soft-bounced.
abbrev pub Attempt : Type 0
Attempt = ℕ × Bool

abbrev add_attempt : Bool → Option ℕ → Bool → List Attempt → List Attempt
add_attempt true (some t) b rest = (t, b) ∷ rest
add_attempt _ _ b rest = rest

unfoldable pub attempts : Db → String → List Step → List Attempt
unfolding lookup
attempts d email [] = []
attempts d email (s ∷ steps) =
    add_attempt (went_to d email s) s.sent_at (is_soft s) (attempts d email steps)

unfoldable pub insert_latest : Attempt → List Attempt → List Attempt
insert_latest (t, b) [] = (t, b) ∷ []
insert_latest (t, b) ((u, c) ∷ rest) =
    let after = insert_latest (t, b) rest in
    if ltb t u then (u, c) ∷ after else (t, b) ∷ (u, c) ∷ rest

-- `ORDER BY sent_at DESC`; of attempts of one instant any order may come.
unfoldable pub order_latest : List Attempt → List Attempt
order_latest [] = []
order_latest (a ∷ rest) = insert_latest a (order_latest rest)

-- The rows before the first that is not a soft bounce, or all of them.
unfoldable pub leading_soft : List Attempt → ℕ
leading_soft [] = 0
leading_soft ((t, b) ∷ rest) = let run = leading_soft rest in if b then suc run else 0

-- `ConsecutiveSoftBounces`; `none` is a failed query.
unfoldable pub consecutive_soft_bounces : Faults → String → Tx → Tx × Option ℕ
unfolding attempts order_latest insert_latest leading_soft
consecutive_soft_bounces faults email tx =
    let (tx', queried) = statement faults (λ d. d) tx in
    (
      tx',
      if queried
          then some (leading_soft (order_latest (attempts tx'.db email tx'.db.steps)))
          else none,
    )

-- `upsertSuppression`
unfoldable pub upsert_suppression : Faults → ℕ → String → String → Tx → Tx × Bool
upsert_suppression faults now email reason tx =
    statement faults
      (λ d. record d {
        email_suppression =
            insert email (record { reason = reason; suppressed_at = now }) d.email_suppression;
      })
      tx

pub data BounceError : Type 0 where
  count_failed upsert_failed : BounceError

unfoldable pub act :
    Faults → ℕ → String → BounceAction → Tx → Tx × BounceAction × Option BounceError
act faults now email action tx =
    if action.suppress
    then (let (tx', written) = upsert_suppression faults now email action.reason tx in
        (tx', action, if written then none else some upsert_failed))
    else (tx, action, none)

unfoldable pub is_soft_kind : BounceKind → Bool
is_soft_kind soft = true
is_soft_kind _ = false

-- `ApplyBounce`: only a soft bounce has its run counted.
unfoldable pub apply_bounce :
    Faults → ℕ → String → BounceKind → Limits → Tx → Tx × BounceAction × Option BounceError
apply_bounce faults now email kind limits tx =
    let filled = with_defaults limits in
    if is_soft_kind kind
    then (let (tx', n) = consecutive_soft_bounces faults email tx in
        elim n [
          | none ↦ (tx', no_action, some count_failed)
          | some run ↦ act faults now email (evaluate_bounce kind run filled) tx'
        ])
    else act faults now email (evaluate_bounce kind 0 filled) tx
