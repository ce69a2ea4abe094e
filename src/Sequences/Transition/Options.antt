-- ===== src/Sequences/Transition/Options.antt =====
-- The configuration of one transition and its options (transition.go).
use lecrm.Common.{
  ℕ, String, Option, none, some, List, [], ◌∷◌, ◌==◌, nat_eq, string_eq, if◌then◌else◌,
}
use lecrm.Common.Int.{ℤ}
use lecrm.Sequences.State.{
  State, enrolled, step_sent, reply_received, ooo_detected, failed, bounced, unsubscribed,
}
use lecrm.Sequences.Audit.{
  Payload, audit_event_enrolled, audit_event_step_sent, audit_event_reply_received,
  audit_event_ooo_detected, audit_event_failed, audit_event_bounced, audit_event_unsubscribed,
  event_transition_generic,
}
use lecrm.Sequences.Store.{FinalizeArgs}

pub data InvalidMode : Type 0 where
  invalid_panic invalid_audit : InvalidMode

-- river's `InsertTx` on the queue: which jobs are there afterwards is river's affair (`UniqueOpts`).
abbrev pub FinalizeEnqueuer : Type 0
FinalizeEnqueuer = FinalizeArgs → List FinalizeArgs → List FinalizeArgs

pub record Config : Type 0 where
  pub actor_type : String
  pub actor_user_id : Option ℕ
  pub event : String
  pub payload : Payload
  pub reply_message_id : Option (List ℕ)
  pub ooo_returns_at : Option ℕ
  pub next_action_at : Option ℕ
  pub current_step_index : Option ℤ
  pub caller : String
  pub invalid_mode : InvalidMode
  pub enqueuer : Option FinalizeEnqueuer

-- `capability.ActorTypeInternalService`
abbrev pub actor_type_internal_service : String
actor_type_internal_service = "internal_service"

unfoldable pub default_event_for_state : State → String
default_event_for_state enrolled = audit_event_enrolled
default_event_for_state step_sent = audit_event_step_sent
default_event_for_state reply_received = audit_event_reply_received
default_event_for_state ooo_detected = audit_event_ooo_detected
default_event_for_state failed = audit_event_failed
default_event_for_state bounced = audit_event_bounced
default_event_for_state unsubscribed = audit_event_unsubscribed
default_event_for_state _ = event_transition_generic

unfoldable pub default_config : State → Config
unfolding default_event_for_state
default_config target = record {
  actor_type = actor_type_internal_service;
  actor_user_id = none;
  event = default_event_for_state target;
  payload = [];
  reply_message_id = none;
  ooo_returns_at = none;
  next_action_at = none;
  current_step_index = none;
  caller = "";
  invalid_mode = invalid_panic;
  enqueuer = none;
}

abbrev pub ConfigOption : Type 0
ConfigOption = Config → Config

unfoldable pub with_actor : String → ℕ → ConfigOption
with_actor actor_type actor_user_id c = record c {
  actor_type = if actor_type == "" then c.actor_type else actor_type;
  actor_user_id = if actor_user_id == 0 then none else some actor_user_id;
}

unfoldable pub with_event : String → ConfigOption
with_event event c = if event == "" then c else record c { event = event }

unfoldable pub with_payload : Payload → ConfigOption
with_payload payload c = record c { payload = payload }

unfoldable pub with_reply_message_id : List ℕ → ConfigOption
with_reply_message_id id c = record c { reply_message_id = some id }

unfoldable pub with_ooo_returns_at : ℕ → ConfigOption
with_ooo_returns_at t c = record c { ooo_returns_at = some t }

unfoldable pub with_next_action_at : ℕ → ConfigOption
with_next_action_at t c = record c { next_action_at = some t }

unfoldable pub with_current_step_index : ℤ → ConfigOption
with_current_step_index index c = record c { current_step_index = some index }

unfoldable pub with_caller : String → ConfigOption
with_caller caller c = record c { caller = caller }

unfoldable pub with_invalid_mode : InvalidMode → ConfigOption
with_invalid_mode m c = record c { invalid_mode = m }

unfoldable pub with_finalize_enqueuer : Option FinalizeEnqueuer → ConfigOption
with_finalize_enqueuer e c = record c { enqueuer = e }

-- `for _, opt := range opts { opt(&cfg) }`
unfoldable pub configure : List ConfigOption → Config → Config
configure [] cfg = cfg
configure (opt ∷ opts) cfg = configure opts (opt cfg)
