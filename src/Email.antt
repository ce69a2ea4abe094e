-- ===== src/Email.antt =====
-- Transactional e-mail (apps/api/internal/email): its tables and what its parts exchange.
-- A pool's statements are not in a transaction: each is committed by itself. `Faults` says which of
-- them fail, by their number. A rate is in millionths.
pub mod Events
pub mod Service
pub mod Ingest
pub mod Delivery
pub mod Outcome
pub mod Webhook
use lecrm.Common.{
  ℕ, ◌+◌, String, Bool, true, false, Option, none, some, List, [], ◌∷◌, ◌++◌, ◌==◌, nat_eq,
  string_eq, codes_eq, insert, lookup, contains, map, if◌then◌else◌,
}

-- The name of a workspace's schema, in bytes.
abbrev pub Schema : Type 0
Schema = List ℕ

-- `brevo.Address`
pub record Address : Type 0 where
  pub email : String
  pub name : String

-- `SendRequest` of the service.
pub record SendRequest : Type 0 where
  pub workspace_id : ℕ
  pub schema : Schema
  pub actor_type : String
  pub actor_user_id : ℕ
  pub request_id : ℕ
  pub sender : Address
  pub recipients : List Address
  pub subject : String
  pub html_content : String
  pub text_content : String
  pub tags : List String

-- `brevo.SendRequest`, the fields that the service fills.
pub record Message : Type 0 where
  pub sender : Address
  pub recipients : List Address
  pub subject : String
  pub html_content : String
  pub text_content : String
  pub tags : List String

pub data Value : Type 0 where
  text : String → Value
  texts : List String → Value
  number : ℕ → Value
  rate : ℕ → Value

abbrev pub Payload : Type 0
Payload = List (String × Value)

pub record AuditEvent : Type 0 where
  pub event : String
  pub workspace_id : ℕ
  pub actor_type : String
  pub actor_user_id : ℕ
  pub request_id : ℕ
  pub payload : Payload

-- A row of core.audit_log; `none` is NULL.
pub record AuditRow : Type 0 where
  pub event : String
  pub workspace_id : Option ℕ
  pub actor_type : String
  pub actor_user_id : Option ℕ
  pub request_id : Option ℕ
  pub payload : Payload

-- A row of email_suppression, under its address.
pub record Suppression : Type 0 where
  pub reason : String
  pub suppressed_at : ℕ

-- The suppression list of each schema, the audit log, and what the provider was handed, each message
-- with the schema that it was sent for.
pub record World : Type 0 where
  pub suppressions : Schema → List (String × Suppression)
  pub audit_log : List AuditRow
  pub handed : List (Schema × Message)
  pub executed : ℕ

abbrev pub Faults : Type 0
Faults = ℕ → Bool

abbrev pub actor_human_api : String
actor_human_api = "human_api"

abbrev pub actor_internal_service : String
actor_internal_service = "internal_service"

-- `IsValidSendActor`
unfoldable pub is_valid_send_actor : String → Bool
is_valid_send_actor at = if at == actor_human_api then true else at == actor_internal_service

abbrev id_or_null : ℕ → Option ℕ
id_or_null id = if id == 0 then none else some id

-- The row of an event: an actor that is not set is a human, an absent identifier is NULL.
abbrev pub audit_row : AuditEvent → AuditRow
audit_row ev = record {
  event = ev.event;
  workspace_id = id_or_null ev.workspace_id;
  actor_type = if ev.actor_type == "" then actor_human_api else ev.actor_type;
  actor_user_id = id_or_null ev.actor_user_id;
  request_id = id_or_null ev.request_id;
  payload = ev.payload;
}

-- One statement on the pool, and whether it was executed.
unfoldable pub exec : Faults → (World → World) → World → World × Bool
exec faults f w =
    let w' = record w { executed = w.executed + 1 } in
    if faults w.executed then (w', false) else (f w', true)

-- `PgAuditWriter.WriteAudit`, on a pool that is there; every payload can be marshalled.
unfoldable pub write_audit_event : Faults → AuditEvent → World → World × Bool
unfolding exec
write_audit_event faults ev w =
    exec faults (λ v. record v { audit_log = v.audit_log ++ audit_row ev ∷ [] }) w

-- The rows of `WHERE email = ANY(emails)`.
abbrev pub suppressed_rows : List String → List (String × Suppression) → List String
suppressed_rows emails [] = []
suppressed_rows emails ((email, row) ∷ table) =
    let rest = suppressed_rows emails table in if contains email emails then email ∷ rest else rest

-- `PgSuppressionStore.Suppressed`: the addresses that are true in its map. With no address there is no
-- query.
unfoldable pub suppressed : Faults → Schema → List String → World → World × Option (List String)
unfolding exec
suppressed faults schema [] w = (w, some [])
suppressed faults schema (email ∷ emails) w =
    let (w', queried) = exec faults (λ v. v) w in
    (w', if queried then some (suppressed_rows (email ∷ emails) (w.suppressions schema)) else none)

abbrev pub set_suppression : Schema → String → Suppression → World → World
set_suppression schema email row w = record w {
  suppressions = λ s. if s == schema then insert email row (w.suppressions s) else w.suppressions s;
}

-- `PgSuppressionStore.Upsert`
unfoldable pub upsert : Faults → Schema → String → String → ℕ → World → World × Bool
unfolding exec
upsert faults schema email reason at w =
    exec faults (set_suppression schema email (record { reason = reason; suppressed_at = at })) w
