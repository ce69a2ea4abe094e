-- ===== src/Email/Service/Intake.antt =====
-- The events of the provider (service.go: IngestEvent).
use lecrm.Common.{
  ℕ, String, Bool, false, Option, none, some, [], ◌∷◌, string_eq, ltb, if◌then◌else◌, Result, ok,
  err,
}
use lecrm.Email.{
  Schema, text, number, rate, Payload, AuditEvent, World, Faults, actor_internal_service,
  write_audit_event, upsert,
}
use lecrm.Email.Events.{Event, text_of_event, is_known, suppression_reason, is_bounce_like}
use lecrm.Email.Service.{
  BounceStats, BounceRateChecker, Service, EmailError, bounce_rate_window, bounce_rate_threshold,
  min_samples_for_alarm, rate_check_failed, unknown_event, audit_failed, upsert_failed,
}

-- `ShouldTripAlarm`
unfoldable pub should_trip_alarm : BounceStats → Bool
should_trip_alarm s =
    if ltb s.total_sends min_samples_for_alarm
    then false
    else ltb bounce_rate_threshold s.bounce_rate

abbrev service_event : String → ℕ → Payload → AuditEvent
service_event event workspace_id payload = record {
  event = event;
  workspace_id = workspace_id;
  actor_type = actor_internal_service;
  actor_user_id = 0;
  request_id = 0;
  payload = payload;
}

abbrev pub received : ℕ → Event → AuditEvent
received workspace_id ev = service_event "email.event.received" workspace_id (
    ("event", text (text_of_event ev.event))
    ∷ ("email", text ev.email)
    ∷ ("message_id", text ev.message_id)
    ∷ ("reason", text ev.reason)
    ∷ [])

abbrev pub alarm : ℕ → BounceStats → AuditEvent
alarm workspace_id stats = service_event "security.email_bounce_rate_high" workspace_id (
    ("total_sends", number stats.total_sends)
    ∷ ("bounce_count", number stats.bounce_like)
    ∷ ("rate", rate stats.bounce_rate)
    ∷ ("threshold", rate bounce_rate_threshold)
    ∷ ("window_hours", number 168)
    ∷ [])

-- The alarm, once the statistics are there.
unfoldable pub after_stats :
    Faults → ℕ → Result String BounceStats → World → World × Option EmailError
unfolding write_audit_event
after_stats faults workspace_id (err why) w = (w, some (rate_check_failed why))
after_stats faults workspace_id (ok stats) w =
    if should_trip_alarm stats
    then (let (w', written) = write_audit_event faults (alarm workspace_id stats) w in
        (w', if written then none else some audit_failed))
    else (w, none)

-- Step 3 of `IngestEvent`, for a bounce.
unfoldable pub recheck_rate :
    Faults → ℕ → Schema → Option BounceRateChecker → World → World × Option EmailError
recheck_rate faults workspace_id schema none w = (w, none)
recheck_rate faults workspace_id schema (some stats_of) w =
    after_stats faults workspace_id (stats_of w schema bounce_rate_window) w

-- Steps 2 and 3 of `IngestEvent`.
unfoldable pub record_event :
    Service → Faults → ℕ → Schema → Event → World → World × Option EmailError
unfolding write_audit_event
record_event service faults workspace_id schema ev w =
    let (w', written) = write_audit_event faults (received workspace_id ev) w in
    if written
    then (if is_bounce_like ev.event
        then recheck_rate faults workspace_id schema service.bounce_rate w'
        else (w', none))
    else (w', some audit_failed)

abbrev pub moment : Option ℕ → ℕ → ℕ
moment none now = now
moment (some t) now = t

-- Step 1 of `IngestEvent` with the reason that the event gives, and the other steps.
unfoldable pub ingest_known :
    Service → Faults → ℕ → ℕ → Schema → Event → Option String → World → World × Option EmailError
ingest_known service faults now workspace_id schema ev none w =
    record_event service faults workspace_id schema ev w
ingest_known service faults now workspace_id schema ev (some reason) w =
    let (w', written) = upsert faults schema ev.email reason (moment ev.date now) w in
    if written
    then record_event service faults workspace_id schema ev w'
    else (w', some upsert_failed)

-- `IngestEvent`
unfoldable pub ingest_event :
    Service → Faults → ℕ → ℕ → Schema → Event → World → World × Option EmailError
ingest_event service faults now workspace_id schema ev w =
    if is_known ev.event
    then ingest_known service faults now workspace_id schema ev (suppression_reason ev.event) w
    else (w, some (unknown_event (text_of_event ev.event)))
