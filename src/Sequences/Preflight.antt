-- ===== src/Sequences/Preflight.antt =====
-- The gates before every send (apps/api/internal/sequences/preflight.go).
-- The texts that only a reader sees are left out of `reason`; a suppression's reason is kept.
pub mod Gates
pub mod Retry
use lecrm.Common.{
  ℕ, zero, suc, ◌+◌, String, Bool, true, false, ◌&&◌, not, Option, none, some, List, [], ◌∷◌, Eq,
  ◌==◌, nat_eq, string_eq, lookup, ltb, leb, if◌then◌else◌, Result, ok, err,
}
use lecrm.Common.Int.{ℤ, pos, pos_part, neg_part, leb_ℤ, ltb_ℤ}
use lecrm.Calendar.{Time, instant, start_of_month, start_of_next_month}
use lecrm.Sequences.Store.{Enrollment, Step, Suppression, Db, Tx, Faults, statement}
use lecrm.Sequences.Limits.{Limits, with_defaults}

pub data Verdict : Type 0 where
  allow suppressed capped throttled : Verdict

-- `PreflightVerdict.String` of the four verdicts.
unfoldable pub text_of_verdict : Verdict → String
text_of_verdict allow = "allow"
text_of_verdict suppressed = "suppressed"
text_of_verdict capped = "capped"
text_of_verdict throttled = "throttled"

pub data Reason : Type 0 where
  no_reason cap_reached recently_sent : Reason
  suppression : String → Reason

-- `retry_after` is `none` for the zero time.
pub record Decision : Type 0 where
  pub verdict : Verdict
  pub step_index : ℤ
  pub email : String
  pub reason : Reason
  pub retry_after : Option ℕ

unfoldable pub allowed : Decision → Bool
allowed d = elim d.verdict [ allow ↦ true | _ ↦ false ]

unfoldable pub deferrable : Decision → Bool
deferrable d = elim d.verdict [ capped ↦ true | throttled ↦ true | _ ↦ false ]

pub data PreflightError : Type 0 where
  enrollment_not_found no_recipient_email : PreflightError
  resolve_failed suppression_check_failed cap_count_failed throttle_check_failed : PreflightError

-- The join of an enrollment with its contact: the recipient's address, which may be NULL.
unfoldable pub recipient : Db → ℕ → Option (Option String × ℕ)
recipient d id = elim (lookup id d.enrollments) [
  | none ↦ none
  | some e ↦ elim (lookup e.contact_id d.contacts) [
    | none ↦ none
    | some email ↦ some (email, e.contact_id)
  ]
]

abbrev pub is_sent_since : ℕ → Step → Bool
is_sent_since start s = elim s.sent_at [ none ↦ false | some t ↦ leb start t ]

-- `SELECT count(*) … WHERE sent_at >= start`
unfoldable pub count_sent_since : ℕ → List Step → ℕ
count_sent_since start [] = 0
count_sent_since start (s ∷ steps) =
    let rest = count_sent_since start steps in if is_sent_since start s then suc rest else rest

abbrev pub belongs_to : Db → ℕ → Step → Bool
belongs_to d contact s = elim (lookup s.enrollment_id d.enrollments) [
  | none ↦ false
  | some e ↦ e.contact_id == contact
]

abbrev pub latest : Option ℕ → Option ℕ → Option ℕ
latest none b = b
latest (some a) none = some a
latest (some a) (some b) = if ltb a b then some b else some a

-- When this step went to the contact, if that is after `now - window`.
abbrev pub recent_send : Db → ℕ → ℕ → ℕ → Step → Option ℕ
recent_send d contact now window s = elim s.sent_at [
  | none ↦ none
  | some t ↦ if belongs_to d contact s && ltb now (t + window) then some t else none
]

-- `… WHERE sent_at > now - window ORDER BY sent_at DESC LIMIT 1`
unfoldable pub last_sent : Db → ℕ → ℕ → ℕ → List Step → Option ℕ
last_sent d contact now window [] = none
last_sent d contact now window (s ∷ steps) =
    latest (recent_send d contact now window s) (last_sent d contact now window steps)

-- Gate 3.
unfoldable pub throttle_gate :
    Faults → Time → ℕ → ℤ → String → Limits → Tx → Tx × Result PreflightError Decision
throttle_gate faults now contact step_index email limits tx =
    let window = pos_part limits.throttle_window in
    let (tx', queried) = statement faults (λ d. d) tx in
    if queried
    then elim (last_sent tx'.db contact (instant now) window tx'.db.steps) [
      | some t ↦ (
        tx',
        ok (record {
          verdict = throttled;
          step_index = step_index;
          email = email;
          reason = recently_sent;
          retry_after = some (t + window);
        }),
      )
      | none ↦ (
        tx',
        ok (record {
          verdict = allow;
          step_index = step_index;
          email = email;
          reason = no_reason;
          retry_after = none;
        }),
      )
    ]
    else (tx', err throttle_check_failed)

-- Gate 2, which a cap of 0 or less switches off.
unfoldable pub cap_gate :
    Faults → Time → ℕ → ℤ → String → Limits → Tx → Tx × Result PreflightError Decision
cap_gate faults now contact step_index email limits tx =
    if ltb_ℤ (pos 0) limits.monthly_send_cap
    then (let (tx', queried) = statement faults (λ d. d) tx in
        if queried
        then (if leb_ℤ limits.monthly_send_cap
              (pos (count_sent_since (instant (start_of_month now)) tx'.db.steps))
            then (
              tx',
              ok (record {
                verdict = capped;
                step_index = step_index;
                email = email;
                reason = cap_reached;
                retry_after = some (instant (start_of_next_month now));
              }),
            )
            else throttle_gate faults now contact step_index email limits tx')
        else (tx', err cap_count_failed))
    else throttle_gate faults now contact step_index email limits tx

-- Gate 1.
unfoldable pub suppression_gate :
    Faults → Time → ℕ → ℤ → String → Limits → Tx → Tx × Result PreflightError Decision
suppression_gate faults now contact step_index email limits tx =
    let (tx', queried) = statement faults (λ d. d) tx in
    if queried
    then elim (lookup email tx'.db.email_suppression) [
      | some s ↦ (
        tx',
        ok (record {
          verdict = suppressed;
          step_index = step_index;
          email = email;
          reason = suppression s.reason;
          retry_after = none;
        }),
      )
      | none ↦ cap_gate faults now contact step_index email limits tx'
    ]
    else (tx', err suppression_check_failed)

-- A missing row, a NULL address and an empty one stop before the gates.
unfoldable pub with_recipient :
    Faults
    → Time
    → ℤ
    → Limits
    → Option (Option String × ℕ)
    → Tx
    → Tx × Result PreflightError Decision
with_recipient faults now step_index limits none tx = (tx, err enrollment_not_found)
with_recipient faults now step_index limits (some (none, contact)) tx = (tx, err no_recipient_email)
with_recipient faults now step_index limits (some (some email, contact)) tx =
    if email == ""
    then (tx, err no_recipient_email)
    else suppression_gate faults now contact step_index email limits tx

-- `Preflight`
unfoldable pub preflight : Faults → Time → ℕ → ℤ → Limits → Tx → Tx × Result PreflightError Decision
preflight faults now id step_index limits tx =
    let (tx', queried) = statement faults (λ d. d) tx in
    if queried
    then with_recipient faults now step_index (with_defaults limits) (recipient tx'.db id) tx'
    else (tx', err resolve_failed)
