-- ===== src/Email/Events.antt =====
-- Webhook events of the provider (brevo/webhook.go).
use lecrm.Common.{String, Bool, true, false, Option, none, some, ℕ}

-- The types that are known, and any other.
pub data EventType : Type 0 where
  delivered hard_bounce soft_bounce blocked spam unsubscribed : EventType
  unknown : String → EventType

-- `none` is a date that is not there.
pub record Event : Type 0 where
  pub event : EventType
  pub email : String
  pub message_id : String
  pub date : Option ℕ
  pub reason : String

abbrev pub text_of_event : EventType → String
text_of_event delivered = "delivered"
text_of_event hard_bounce = "hardBounce"
text_of_event soft_bounce = "softBounce"
text_of_event blocked = "blocked"
text_of_event spam = "spam"
text_of_event unsubscribed = "unsubscribed"
text_of_event (unknown s) = s

-- `IsKnown`
unfoldable pub is_known : EventType → Bool
is_known (unknown s) = false
is_known _ = true

-- `SuppressionReason`
unfoldable pub suppression_reason : EventType → Option String
suppression_reason hard_bounce = some "hard_bounce"
suppression_reason blocked = some "blocked"
suppression_reason spam = some "complaint"
suppression_reason unsubscribed = some "unsubscribed"
suppression_reason _ = none

-- `IsBounceLike`
unfoldable pub is_bounce_like : EventType → Bool
is_bounce_like hard_bounce = true
is_bounce_like spam = true
is_bounce_like _ = false
