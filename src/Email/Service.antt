-- ===== src/Email/Service.antt =====
-- The service (service.go): `Send`, and the types of both. The provider and the rate checker are
-- interfaces that the package does not implement, so they are parameters; logging is left out.
pub mod Intake
use lecrm.Common.{
  ℕ, ◌*◌, String, Bool, true, false, Option, none, some, List, [], ◌∷◌, ◌++◌, map, is_empty,
  contains, string_eq, ltb, if◌then◌else◌, Result, ok, err,
}
use lecrm.Calendar.{nanos_per_day}
use lecrm.Email.{
  Schema, Address, SendRequest, Message, text, texts, number, rate, Payload, AuditEvent, World,
  Faults, actor_internal_service, is_valid_send_actor, write_audit_event, suppressed, upsert,
}
use lecrm.Email.Events.{Event, text_of_event, is_known, suppression_reason, is_bounce_like}

-- The rate in millionths.
pub record BounceStats : Type 0 where
  pub total_sends : ℕ
  pub bounce_like : ℕ
  pub bounce_rate : ℕ
  pub pause_in_effect : Bool

-- `BounceRateChecker`: the statistics of a schema and a window of time.
abbrev pub BounceRateChecker : Type 0
BounceRateChecker = World → Schema → ℕ → Result String BounceStats

-- `Provider`: the identifier of a message that it takes.
abbrev pub Provider : Type 0
Provider = Message → Result String String

pub record Service : Type 0 where
  pub provider : Provider
  pub bounce_rate : Option BounceRateChecker

pub record SendOutcome : Type 0 where
  pub message_id : String
  pub skipped : Bool
  pub skipped_recipients : List String
  pub reason : String

-- `paused_by_alarm` is the one error that an outcome is returned with.
pub data EmailError : Type 0 where
  invalid_actor : EmailError
  paused_by_alarm : SendOutcome → EmailError
  rate_check_failed provider_failed : String → EmailError
  suppression_check_failed : Schema → EmailError
  unknown_event : String → EmailError
  audit_failed upsert_failed : EmailError

abbrev pub bounce_rate_window : ℕ
bounce_rate_window = 7 * nanos_per_day

abbrev pub bounce_rate_threshold : ℕ
bounce_rate_threshold = 1000

abbrev pub min_samples_for_alarm : ℕ
min_samples_for_alarm = 100

-- `addressEmails`
abbrev pub address_emails : List Address → List String
address_emails addrs = map (λ a. a.email) addrs

abbrev pub request_event : String → SendRequest → Payload → AuditEvent
request_event event req payload = record {
  event = event;
  workspace_id = req.workspace_id;
  actor_type = req.actor_type;
  actor_user_id = req.actor_user_id;
  request_id = req.request_id;
  payload = payload;
}

-- `Service.writeAudit`
unfoldable pub write_audit : Faults → String → SendRequest → Payload → World → World × Bool
write_audit faults event req payload w =
    write_audit_event faults (request_event event req payload) w

-- The recipients that may be written to, and the addresses of the others.
unfoldable pub split_recipients : List String → List Address → List Address × List String
split_recipients listed [] = ([], [])
split_recipients listed (addr ∷ addrs) =
    let rest = split_recipients listed addrs in
    if contains addr.email listed then (rest.0, addr.email ∷ rest.1) else (addr ∷ rest.0, rest.1)

abbrev pub message_to : SendRequest → List Address → Message
message_to req allowed = record {
  sender = req.sender;
  recipients = allowed;
  subject = req.subject;
  html_content = req.html_content;
  text_content = req.text_content;
  tags = req.tags;
}

abbrev pub hand_over : Schema → Message → World → World
hand_over schema msg w = record w { handed = w.handed ++ (schema, msg) ∷ [] }

abbrev pub sent_outcome : String → List String → SendOutcome
sent_outcome message_id skipped = record {
  message_id = message_id;
  skipped = false;
  skipped_recipients = skipped;
  reason = "";
}

-- What follows the provider's answer.
unfoldable pub after_provider :
    Faults
    → SendRequest
    → List Address
    → List String
    → Result String String
    → World
    → World × Result EmailError SendOutcome
unfolding write_audit
after_provider faults req allowed skipped (err why) w =
    let (w', written) =
      write_audit faults "email.send.failed" req
        (("error", text why)
          ∷ ("recipients", texts (address_emails allowed))
          ∷ ("skipped_recipients", texts skipped)
          ∷ [])
        w in
    (w', err (provider_failed why))
after_provider faults req allowed skipped (ok message_id) w =
    let (w', written) =
      write_audit faults "email.send.requested" req
        (("message_id", text message_id)
          ∷ ("recipients", texts (address_emails allowed))
          ∷ ("skipped_recipients", texts skipped)
          ∷ [])
        w in
    (w', if written then ok (sent_outcome message_id skipped) else err audit_failed)

-- What follows the suppression filter.
unfoldable pub deliver :
    Service
    → Faults
    → SendRequest
    → List Address
    → List String
    → World
    → World × Result EmailError SendOutcome
unfolding write_audit
deliver service faults req allowed skipped w =
    if is_empty allowed
    then (let (w', written) =
          write_audit faults "email.send.skipped" req
            (("reason", text "all_recipients_suppressed")
              ∷ ("skipped_recipients", texts skipped)
              ∷ [])
            w in
        (
          w',
          ok (record {
            message_id = "";
            skipped = true;
            skipped_recipients = skipped;
            reason = "all_recipients_suppressed";
          }),
        ))
    else after_provider faults req allowed skipped (service.provider (message_to req allowed))
        (hand_over req.schema (message_to req allowed) w)

-- What follows the alarm check.
unfoldable pub send_unpaused :
    Service → Faults → SendRequest → World → World × Result EmailError SendOutcome
send_unpaused service faults req w =
    let (w', listed) = suppressed faults req.schema (address_emails req.recipients) w in
    elim listed [
      | none ↦ (w', err (suppression_check_failed req.schema))
      | some emails ↦
          let (allowed, skipped) = split_recipients emails req.recipients in
          deliver service faults req allowed skipped w'
    ]

-- What follows the statistics.
unfoldable pub send_checked :
    Service
    → Faults
    → SendRequest
    → Result String BounceStats
    → World
    → World × Result EmailError SendOutcome
unfolding write_audit
send_checked service faults req (err why) w = (w, err (rate_check_failed why))
send_checked service faults req (ok stats) w =
    if stats.pause_in_effect
    then (let (w', written) =
          write_audit faults "email.send.skipped" req
            (("reason", text "paused_by_alarm")
              ∷ ("recipients", texts (address_emails req.recipients))
              ∷ ("bounce_rate", rate stats.bounce_rate)
              ∷ [])
            w in
        (
          w',
          err (
              paused_by_alarm (record {
                message_id = "";
                skipped = true;
                skipped_recipients = [];
                reason = "paused_by_alarm";
              })),
        ))
    else send_unpaused service faults req w

-- What follows the test of the actor: with no rate checker wired, there is no alarm check.
unfoldable pub send_gated :
    Service
    → Faults
    → SendRequest
    → Option BounceRateChecker
    → World
    → World × Result EmailError SendOutcome
send_gated service faults req none w = send_unpaused service faults req w
send_gated service faults req (some stats_of) w =
    send_checked service faults req (stats_of w req.schema bounce_rate_window) w

-- `Service.Send`
unfoldable pub send : Service → Faults → SendRequest → World → World × Result EmailError SendOutcome
send service faults req w =
    if is_valid_send_actor req.actor_type
    then send_gated service faults req service.bounce_rate w
    else (w, err invalid_actor)
