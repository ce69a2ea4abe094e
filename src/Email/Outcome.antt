-- ===== src/Email/Outcome.antt =====
-- What a send answers and leaves in the audit log.
use lecrm.Common.{
  String, true, false, Option, none, some, List, [], ◌∷◌, ◌++◌, is_empty, string_eq, ◌≡◌, ◌⊎◌, ◌*◌,
  inl, inr, refl, ap, sym, Bool-cases, Result, ok, err,
}
use lecrm.Calendar.{nanos_per_day}
use lecrm.Email.{
  Address, SendRequest, World, Faults, AuditRow, audit_row, Payload, exec, is_valid_send_actor,
  write_audit_event, suppressed_rows, suppressed,
}
use lecrm.Email.Service.{
  Service, BounceStats, EmailError, SendOutcome, invalid_actor, paused_by_alarm, rate_check_failed,
  provider_failed, address_emails, request_event, write_audit, message_to, hand_over, sent_outcome,
  after_provider, deliver, send_unpaused, send_checked, send_gated, send, BounceRateChecker,
}
use lecrm.Email.Delivery.{
  split_recipients-unlisted, All-address_emails, suppressed_rows_nil, unlisted,
}

-- No statement fails.
abbrev pub no_faults : Faults
no_faults n = false

-- The log has one row more, about this event.
abbrev pub IsLogged : String → World → World → Type 0
IsLogged event w w' =
    (row : AuditRow) × (row.event ≡ event) × (w'.audit_log ≡ w.audit_log ++ row ∷ [])

-- The statistics of the last week, where a rate checker is wired.
abbrev pub statistics : Service → SendRequest → World → Option (Result String BounceStats)
statistics service req w = elim service.bounce_rate [
  | none ↦ none
  | some stats_of ↦ some (stats_of w req.schema (7 * nanos_per_day))
]

-- The alarm has paused the schema.
abbrev pub IsPaused : Option (Result String BounceStats) → Type 0
IsPaused o = (stats : BounceStats) × (o ≡ some (ok stats)) × (stats.pause_in_effect ≡ true)

-- The actor may send and no alarm stands against it.
abbrev pub IsRunning : SendRequest → Option (Result String BounceStats) → Type 0
IsRunning req o =
    (is_valid_send_actor req.actor_type ≡ true)
    × ((o ≡ none)
        ⊎ ((stats : BounceStats) × (o ≡ some (ok stats)) × (stats.pause_in_effect ≡ false)))

-- How a send to these recipients ends past the alarm, with the tables before and after.
abbrev pub IsUnpaused :
    Service → SendRequest → List Address → World → World → Result EmailError SendOutcome → Type 0
IsUnpaused service req allowed w w' r =
    ((o : SendOutcome) × (is_empty allowed ≡ true)
      × (r ≡ ok o)
      × (o.skipped ≡ true)
      × IsLogged "email.send.skipped" w w')
    ⊎ ((why : String) × (is_empty allowed ≡ false)
        × (service.provider (message_to req allowed) ≡ err why)
        × (r ≡ err (provider_failed why))
        × IsLogged "email.send.failed" w w')
    ⊎ ((o : SendOutcome) × (is_empty allowed ≡ false)
        × (service.provider (message_to req allowed) ≡ ok o.message_id)
        × (r ≡ ok o)
        × (o.skipped ≡ false)
        × IsLogged "email.send.requested" w w')

-- How a send to these recipients ends, with the tables before and after.
abbrev pub IsOutcome :
    Service → SendRequest → List Address → World → World → Result EmailError SendOutcome → Type 0
IsOutcome service req allowed w w' r =
    ((r ≡ err invalid_actor) × (is_valid_send_actor req.actor_type ≡ false) × (w' ≡ w))
    ⊎ ((why : String) × (is_valid_send_actor req.actor_type ≡ true)
        × (statistics service req w ≡ some (err why))
        × (r ≡ err (rate_check_failed why))
        × (w' ≡ w))
    ⊎ ((o : SendOutcome) × (is_valid_send_actor req.actor_type ≡ true)
        × IsPaused (statistics service req w)
        × (r ≡ err (paused_by_alarm o))
        × (o.skipped ≡ true)
        × IsLogged "email.send.skipped" w w')
    ⊎ (IsRunning req (statistics service req w) × IsUnpaused service req allowed w w' r)

-- Without faults a row is written.
write_audit-IsLogged :
    (event : String) (req : SendRequest) (payload : Payload) (v w : World)
    → w.audit_log ≡ v.audit_log
    → ((write_audit no_faults event req payload w).1 ≡ true)
      × IsLogged event v (write_audit no_faults event req payload w).0
unfolding write_audit write_audit_event exec
write_audit-IsLogged event req payload v w e =
    let row = audit_row (request_event event req payload) in
    (refl, (row, refl, ap (λ l. l ++ row ∷ []) e))

module _ (service : Service) (req : SendRequest) where
  after_provider-IsUnpaused :
      (a : Address) (allowed : List Address) (skipped : List String) (v w : World)
      (answer : Result String String)
      → service.provider (message_to req (a ∷ allowed)) ≡ answer
      → w.audit_log ≡ v.audit_log
      → IsUnpaused service req
          (a ∷ allowed)
          v
          (after_provider no_faults req (a ∷ allowed) skipped answer w).0
          (after_provider no_faults req (a ∷ allowed) skipped answer w).1
  unfolding after_provider
  after_provider-IsUnpaused a allowed skipped v w (err why) e f =
      inr (inl (why, refl, e, refl, (write_audit-IsLogged "email.send.failed" req _ v w f).1))
  after_provider-IsUnpaused a allowed skipped v w (ok id) e f =
      let (written, logged) = write_audit-IsLogged "email.send.requested" req _ v w f in
      inr (inr (sent_outcome id skipped, refl, e, rw written refl, refl, logged))

  deliver-IsUnpaused :
      (allowed : List Address) (skipped : List String) (v w : World)
      → w.audit_log ≡ v.audit_log
      → IsUnpaused service req allowed v
          (deliver service no_faults req allowed skipped w).0
          (deliver service no_faults req allowed skipped w).1
  unfolding deliver
  deliver-IsUnpaused [] skipped v w f =
      inl (_, refl, refl, refl, (write_audit-IsLogged "email.send.skipped" req _ v w f).1)
  deliver-IsUnpaused (a ∷ allowed) skipped v w f =
      after_provider-IsUnpaused a allowed skipped v
        (hand_over req.schema (message_to req (a ∷ allowed)) w)
        (service.provider (message_to req (a ∷ allowed))) refl f

  suppressed_lem :
      (emails : List String) (w : World)
      → ((suppressed no_faults req.schema emails w).1
          ≡ some (suppressed_rows emails (w.suppressions req.schema)))
        × ((suppressed no_faults req.schema emails w).0.audit_log ≡ w.audit_log)
  unfolding suppressed exec
  suppressed_lem [] w = (ap some (sym (suppressed_rows_nil (w.suppressions req.schema))), refl)
  suppressed_lem (e ∷ emails) w = (refl, refl)

  send_unpaused-IsUnpaused :
      (w : World)
      → IsUnpaused service req
          (unlisted w req.schema req.recipients)
          w
          (send_unpaused service no_faults req w).0
          (send_unpaused service no_faults req w).1
  unfolding send_unpaused
  send_unpaused-IsUnpaused w =
      let emails = address_emails req.recipients in
      let (rows, same_log) = suppressed_lem emails w in
      let split =
        split_recipients-unlisted w req.schema emails req.recipients
          (All-address_emails req.recipients) in
      rw (rows, send_unpaused, split)
        (deliver-IsUnpaused (unlisted w req.schema req.recipients) _ w
          (suppressed no_faults req.schema emails w).0 same_log)

  module _ (valid : is_valid_send_actor req.actor_type ≡ true) (w : World) where
    send_checked-IsOutcome :
        (stats : Result String BounceStats)
        → statistics service req w ≡ some stats
        → IsOutcome service req
            (unlisted w req.schema req.recipients)
            w
            (send_checked service no_faults req stats w).0
            (send_checked service no_faults req stats w).1
    unfolding send_checked
    send_checked-IsOutcome (err why) e = inr (inl (why, valid, e, refl, refl))
    send_checked-IsOutcome (ok stats) e = elim (Bool-cases stats.pause_in_effect) [
      | inr running ↦
          rw (running, send_checked)
            (inr (inr (inr ((valid, inr (stats, e, running)), send_unpaused-IsUnpaused w))))
      | inl paused ↦
          let logged = (write_audit-IsLogged "email.send.skipped" req _ w w refl).1 in
          rw (paused, send_checked)
            (inr (inr (inl (_, valid, (stats, e, paused), refl, refl, logged))))
    ]

    send_gated-IsOutcome :
        (o : Option BounceRateChecker)
        → service.bounce_rate ≡ o
        → IsOutcome service req
            (unlisted w req.schema req.recipients)
            w
            (send_gated service no_faults req o w).0
            (send_gated service no_faults req o w).1
    unfolding send_gated
    send_gated-IsOutcome none e =
        inr (inr (inr ((valid, inl (rw e refl)), send_unpaused-IsUnpaused w)))
    send_gated-IsOutcome (some stats_of) e = send_checked-IsOutcome _ (rw e refl)

-- With no failing statement, a send is refused exactly for an actor that may not send, or fails
-- because the statistics of the last week cannot be read, and then writes nothing; or it leaves
-- exactly one row in the audit log. The row is skipped, and the send an error, if those statistics say
-- that the schema is paused. If they do not, or no rate checker is wired, the row is skipped if every
-- recipient is suppressed, failed if the provider refused the message, and requested if it took it,
-- and then the answer has the provider's identifier.
pub send-IsOutcome :
    (service : Service) (req : SendRequest) (w : World)
    → IsOutcome service req
        (unlisted w req.schema req.recipients)
        w
        (send service no_faults req w).0
        (send service no_faults req w).1
unfolding send
send-IsOutcome service req w = elim (Bool-cases (is_valid_send_actor req.actor_type)) [
  | inr invalid ↦
      let refused : send service no_faults req w ≡ (w, err invalid_actor) =
        rw (invalid, send) refl in
      rw refused (inl (refl, invalid, refl))
  | inl valid ↦
      let passed : send service no_faults req w
          ≡ send_gated service no_faults req service.bounce_rate w =
        rw (valid, send) refl in
      rw passed (send_gated-IsOutcome service req valid w service.bounce_rate refl)
]
