-- ===== src/Tests/Emails.antt =====
-- A hard bounce, and a message to its address and another.
use lecrm.Common.{
  if◌then◌else◌, codes_eq, List, [], ◌∷◌, ◌++◌, none, some, true, false, ◌≡◌, refl, ◌⊎◌, insert, ok,
  string_eq, nat_eq, ◌==◌,
}
use lecrm.Common.Text.{codes}
use lecrm.Email.{Schema, SendRequest, Message, World, Faults, exec, write_audit_event, upsert}
use lecrm.Email.Events.{Event, hard_bounce, is_known, suppression_reason, is_bounce_like}
use lecrm.Email.Service.{Service, send}
use lecrm.Email.Service.Intake.{
  ingest_event, ingest_known, record_event, recheck_rate, after_stats, should_trip_alarm,
}
use lecrm.Email.Delivery.{unlisted, IsHanded, send-IsHanded}
use lecrm.Email.Outcome.{IsOutcome, no_faults, send-IsOutcome}
use lecrm.Email.Ingest.{send_op, serve, Spares, serve-ingest_event-Spares}
use lecrm.Email.Webhook.{Webhooks, handle_webhook}
use lecrm.Email.Webhook.Admission.{IsRefused, IsAdmitted, handle_webhook_cases}

abbrev service : Service
service = record {
  provider = λ msg. ok "m1";
  bounce_rate = some (λ w schema window.
      ok (record {
        total_sends = 200;
        bounce_like = 1;
        bounce_rate = 5000;
        pause_in_effect = false;
      }));
}

abbrev empty_world : World
empty_world = record { suppressions = λ s. []; audit_log = []; handed = []; executed = 0 }

abbrev bounce : Event
bounce = record {
  event = hard_bounce;
  email = "ann@example.org";
  message_id = "m0";
  date = none;
  reason = "";
}

abbrev request : SendRequest
request = record {
  workspace_id = 1;
  schema = codes "workspace_1";
  actor_type = "human_api";
  actor_user_id = 2;
  request_id = 3;
  sender = record { email = "rep@example.org"; name = "" };
  recipients =
      record { email = "ann@example.org"; name = "" }
      ∷ record { email = "bob@example.org"; name = "" }
      ∷ [];
  subject = "hello";
  html_content = "";
  text_content = "hello";
  tags = [];
}

abbrev odd_faults : Faults
odd_faults n = if n == 5 then true else false

bounce_ingested :
    (ingest_event service odd_faults 9 1 (codes "workspace_1") bounce empty_world).1 ≡ none
unfolding ingest_event ingest_known record_event recheck_rate after_stats should_trip_alarm exec
    write_audit_event upsert is_known suppression_reason is_bounce_like insert
bounce_ingested = refl

serve-ingest_event-Spares_example :
    (more : List (Schema × Message)) × ((serve service odd_faults
        (send_op request ∷ send_op request ∷ [])
        (ingest_event service odd_faults 9 1 (codes "workspace_1") bounce empty_world).0).handed
      ≡ [] ++ more)
    × Spares (codes "workspace_1") "ann@example.org" more
serve-ingest_event-Spares_example =
    serve-ingest_event-Spares service odd_faults 9 1 (codes "workspace_1") "hard_bounce" bounce
      empty_world (send_op request ∷ send_op request ∷ []) bounce_ingested
      (unfold suppression_reason in refl)

send-IsHanded_example : IsHanded request empty_world (send service odd_faults request empty_world).0
send-IsHanded_example = send-IsHanded service odd_faults request empty_world

send-IsOutcome_example :
    IsOutcome service request
      (unlisted empty_world (codes "workspace_1") request.recipients)
      empty_world
      (send service no_faults request empty_world).0
      (send service no_faults request empty_world).1
send-IsOutcome_example = send-IsOutcome service request empty_world

abbrev hooks : Webhooks
hooks = record {
  hmac = λ secret body. secret ++ body;
  webhook_secret = λ ws. some (7 ∷ []);
  parse_event = λ body. some bounce;
  uuid_text = λ ws. codes "1";
}

handle_webhook_cases_example :
    IsRefused empty_world
      (handle_webhook hooks service odd_faults 9 (10 ∷ []) (some 1) (codes "070a") empty_world)
    ⊎ IsAdmitted hooks service odd_faults 9
        (10 ∷ [])
        (some 1)
        (codes "070a")
        empty_world
        (handle_webhook hooks service odd_faults 9 (10 ∷ []) (some 1) (codes "070a") empty_world)
handle_webhook_cases_example =
    handle_webhook_cases hooks service odd_faults 9 (10 ∷ []) (some 1) (codes "070a") empty_world
