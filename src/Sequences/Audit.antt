-- ===== src/Sequences/Audit.antt =====
-- Audit payloads and rows (apps/api/internal/sequences/audit.go, and `map[string]any` as it is used
-- in transition.go). A UUID is a number, `0` for `uuid.Nil`; `Value.uuid` is its text.
use lecrm.Common.{
  or_else, ℕ, String, Bool, true, false, ◌&&◌, Option, List, [], ◌∷◌, ◌≡◌, refl, arith, string_eq,
  eq_iff, lookup, insert, lookup-insert,
}
use lecrm.Common.Int.{ℤ}

pub data Value : Type 0 where
  text : String → Value
  uuid : ℕ → Value
  -- the text of a mail header
  header : List ℕ → Value
  int : ℤ → Value
  -- a confidence, in thousandths
  ratio : ℕ → Value
  -- what `json.Marshal` refuses, such as a channel or a NaN
  unsupported : Value

abbrev pub Payload : Type 0
Payload = List (String × Value)

abbrev pub audit_event_enrolled : String
audit_event_enrolled = "sequences.enrolled"

abbrev pub audit_event_step_sent : String
audit_event_step_sent = "sequences.step_sent"

abbrev pub audit_event_reply_received : String
audit_event_reply_received = "sequences.reply_received"

abbrev pub audit_event_ooo_detected : String
audit_event_ooo_detected = "sequences.ooo_detected"

abbrev pub audit_event_failed : String
audit_event_failed = "sequences.failed"

abbrev pub audit_event_bounced : String
audit_event_bounced = "sequences.bounced"

abbrev pub audit_event_unsubscribed : String
audit_event_unsubscribed = "sequences.unsubscribed"

abbrev pub audit_event_transition_invalid : String
audit_event_transition_invalid = "sequences.transition.invalid"

-- `eventTransitionGeneric`
abbrev pub event_transition_generic : String
event_transition_generic = "sequences.transition"

-- A row of core.audit_log.
pub record AuditRow : Type 0 where
  pub event : String
  pub workspace_id : ℕ
  pub actor_type : String
  pub actor_user_id : Option ℕ
  pub payload : Payload

is_supported : Value → Bool
is_supported unsupported = false
is_supported _ = true

-- Whether `json.Marshal` accepts the payload.
unfoldable pub marshals : Payload → Bool
unfolding is_supported
marshals [] = true
marshals ((k, v) ∷ m) = is_supported v && marshals m

-- `for k, v := range extra { payload[k] = v }`
unfoldable pub merge : Payload → Payload → Payload
merge payload [] = payload
merge payload ((k, v) ∷ extra) = insert k v (merge payload extra)

-- The extra fields win over the fields that were there.
lookup-merge :
    (j : String) (payload extra : Payload)
    → lookup j (merge payload extra) ≡ or_else (lookup j extra) (lookup j payload)
unfolding merge lookup
lookup-merge j payload [] = refl
lookup-merge j payload ((k, v) ∷ extra) =
    ground
      (arith, lookup-insert k j v (merge payload extra), lookup-merge j payload extra, eq_iff k j)
