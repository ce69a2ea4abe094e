-- ===== src/Email/Ingest.antt =====
-- What the webhook events do to later sends.
use lecrm.Common.{
  ℕ, ◌+◌, String, true, false, ◌&&◌, ◌||◌, Option, none, some, List, [], ◌∷◌, ◌++◌, append-nil,
  append_assoc, All, All-append, contains, lookup, lookup-insert, beq_refl, string_eq, codes_eq,
  ◌==◌, ◌≡◌, ◌≢◌, ◌⊎◌, inl, inr, refl, sym, ◌∙◌, ap, arith, Bool-cases, eq_iff, Result, ok, err,
}
use lecrm.Email.{
  Schema, Address, SendRequest, Message, Suppression, World, Faults, exec, write_audit_event,
  upsert, set_suppression,
}
use lecrm.Email.Events.{Event, suppression_reason}
use lecrm.Email.Service.{Service, BounceStats, BounceRateChecker, EmailError, address_emails, send}
use lecrm.Email.Service.Intake.{
  moment, received, after_stats, recheck_rate, record_event, ingest_known, ingest_event,
}
use lecrm.Email.Delivery.{is_there, is_listed, unlisted, send-IsHanded}

-- The bookkeeping of an event touches neither the lists nor what was handed over.
abbrev IsKept : World → World → Type 0
IsKept w w' = (w'.suppressions ≡ w.suppressions) × (w'.handed ≡ w.handed)

-- What an event did to the lists: nothing, or one row, which is there if there was no error.
abbrev IsListing : Schema → String → Option String → World → World → Option EmailError → Type 0
IsListing schema email reason w w' e =
    (w'.handed ≡ w.handed)
    × (((w'.suppressions ≡ w.suppressions) × ((e ≢ none) ⊎ (reason ≡ none)))
        ⊎ ((row : Suppression) × (reason ≡ some row.reason)
            × (w'.suppressions ≡ (set_suppression schema email row w).suppressions)))

after_stats-IsKept :
    (faults : Faults) (ws : ℕ) (stats : Result String BounceStats) (w : World)
    → IsKept w (after_stats faults ws stats w).0
unfolding after_stats write_audit_event exec
after_stats-IsKept faults ws (err why) w = (refl, refl)
after_stats-IsKept faults ws (ok stats) w = ground arith

recheck_rate-IsKept :
    (faults : Faults) (ws : ℕ) (schema : Schema) (o : Option BounceRateChecker) (w : World)
    → IsKept w (recheck_rate faults ws schema o w).0
unfolding recheck_rate
recheck_rate-IsKept faults ws schema none w = (refl, refl)
recheck_rate-IsKept faults ws schema (some stats_of) w = after_stats-IsKept faults ws _ w

module _ (service : Service) (faults : Faults) (ws : ℕ) (schema : Schema) (ev : Event) where
  record_event-IsKept : (w : World) → IsKept w (record_event service faults ws schema ev w).0
  unfolding record_event write_audit_event exec
  record_event-IsKept w = ground (
    arith,
    recheck_rate-IsKept faults ws schema service.bounce_rate
        (write_audit_event faults (received ws ev) w).0,
  )

  ingest_known-IsListing :
      (now : ℕ) (o : Option String) (w : World)
      → let r = ingest_known service faults now ws schema ev o w in
        IsListing schema ev.email o w r.0 r.1
  unfolding ingest_known upsert exec
  ingest_known-IsListing now none w =
      let (lists, handed) = record_event-IsKept w in (handed, inl (lists, inr refl))
  ingest_known-IsListing now (some reason) w =
      let row : Suppression = record { reason = reason; suppressed_at = moment ev.date now } in
      let listed = set_suppression schema ev.email row (record w { executed = w.executed + 1 }) in
      let (lists, handed) = record_event-IsKept listed in
      elim (Bool-cases (faults w.executed)) [
        | inl fails ↦ rw (fails, ingest_known) (refl, inl (refl, inl (λ e. cc)))
        | inr runs ↦ rw (runs, ingest_known) (handed, inr (row, refl, lists))
      ]

  ingest_event-IsListing :
      (now : ℕ) (w : World)
      → let r = ingest_event service faults now ws schema ev w in
        IsListing schema ev.email (suppression_reason ev.event) w r.0 r.1
  unfolding ingest_event
  ingest_event-IsListing now w =
      ground (arith, ingest_known-IsListing now (suppression_reason ev.event) w)

-- A row more on a list.
is_listed-set_suppression :
    (schema s : Schema) (email a : String) (row : Suppression) (w : World)
    → is_listed (set_suppression schema email row w) s a
      ≡ ((s == schema && email == a) || is_listed w s a)
is_listed-set_suppression schema s email a row w =
    ground (arith, lookup-insert email a row (w.suppressions s))

unlisted_spares :
    (w : World) (schema : Schema) (email : String) (addrs : List Address)
    → is_listed w schema email ≡ true
    → contains email (address_emails (unlisted w schema addrs)) ≡ false
unfolding unlisted
unlisted_spares w schema email [] h = refl
unlisted_spares w schema email (a ∷ addrs) h =
    ground (arith, unlisted_spares w schema email addrs h, eq_iff a.email email)

-- An operation of the service.
pub data Op : Type 0 where
  send_op : SendRequest → Op
  ingest_op : ℕ → ℕ → Schema → Event → Op

unfoldable pub step : Service → Faults → Op → World → World
step service faults (send_op req) w = (send service faults req w).0
step service faults (ingest_op now ws schema ev) w =
    (ingest_event service faults now ws schema ev w).0

-- Whatever was asked of the service, in order.
unfoldable pub serve : Service → Faults → List Op → World → World
serve service faults [] w = w
serve service faults (op ∷ ops) w = serve service faults ops (step service faults op w)

-- None of the messages is for the address under the schema.
abbrev pub Spares : Schema → String → List (Schema × Message) → Type 0
Spares schema email =
    All (λ m. (m.0 ≡ schema) → contains email (address_emails m.1.recipients) ≡ false)

module _ (service : Service) (faults : Faults) where
  -- A list loses no address.
  step-is_listed :
      (op : Op) (w : World) (schema : Schema) (email : String)
      → is_listed w schema email ≡ true
      → is_listed (step service faults op w) schema email ≡ true
  unfolding step
  step-is_listed (send_op req) w schema email h =
      ap (λ lists. is_there (lookup email (lists schema))) (send-IsHanded service faults req w).0
      ∙ h
  step-is_listed (ingest_op now ws s ev) w schema email h =
      elim (ingest_event-IsListing service faults ws s ev now w).1 [
        | inl (same, why) ↦ ap (λ lists. is_there (lookup email (lists schema))) same ∙ h
        | inr (row, reason, grown) ↦
            ap (λ lists. is_there (lookup email (lists schema))) grown
            ∙ (is_listed-set_suppression s schema ev.email email row w ∙ ground arith)
      ]

  step-Spares :
      (op : Op) (w : World) (schema : Schema) (email : String)
      → is_listed w schema email ≡ true
      → (more : List (Schema × Message)) × ((step service faults op w).handed ≡ w.handed ++ more)
        × Spares schema email more
  unfolding step
  step-Spares (send_op req) w schema email h = elim (send-IsHanded service faults req w).1 [
    | inl same ↦ ([], same ∙ sym (append-nil w.handed), tt)
    | inr (some_left, grown) ↦
        (_, grown, (λ p. rw p (unlisted_spares w schema email req.recipients h), tt))
  ]
  step-Spares (ingest_op now ws s ev) w schema email h =
      ([], (ingest_event-IsListing service faults ws s ev now w).0 ∙ sym (append-nil w.handed), tt)

  serve-Spares :
      (ops : List Op) (w : World) (schema : Schema) (email : String)
      → is_listed w schema email ≡ true
      → (more : List (Schema × Message)) × ((serve service faults ops w).handed ≡ w.handed ++ more)
        × Spares schema email more
  unfolding serve
  serve-Spares [] w schema email h = ([], sym (append-nil w.handed), tt)
  serve-Spares (op ∷ ops) w schema email h =
      let (first, at_first, spared) = step-Spares op w schema email h in
      let (rest, at_rest, spared_later) =
        serve-Spares ops (step service faults op w) schema email
          (step-is_listed op w schema email h) in
      (
        first ++ rest,
        at_rest ∙ (ap (λ l. l ++ rest) at_first ∙ append_assoc w.handed first rest),
        All-append _ first rest spared spared_later,
      )

-- Once a webhook event that suppresses (a hard bounce, a block, a complaint, an unsubscription) has been
-- taken in without an error, no message goes to its address for its schema, whatever sends and events
-- follow and whichever statements fail.
pub serve-ingest_event-Spares :
    (service : Service) (faults : Faults) (now ws : ℕ) (schema : Schema) (reason : String)
    (ev : Event) (w : World) (ops : List Op)
    → (ingest_event service faults now ws schema ev w).1 ≡ none
    → suppression_reason ev.event ≡ some reason
    → (more : List (Schema × Message)) × ((serve service faults ops
          (ingest_event service faults now ws schema ev w).0).handed
        ≡ w.handed ++ more)
      × Spares schema ev.email more
serve-ingest_event-Spares service faults now ws schema reason ev w ops h k =
    let (same_handed, listing) = ingest_event-IsListing service faults ws schema ev now w in
    elim listing [
      | inl (same, inl errs) ↦ absurd (errs h)
      | inl (same, inr no_reason) ↦ absurd cc
      | inr (row, given, grown) ↦
          let listed =
            ap (λ lists. is_there (lookup ev.email (lists schema))) grown
            ∙ (is_listed-set_suppression schema schema ev.email ev.email row w
                ∙ rw (beq_refl schema, beq_refl ev.email) refl) in
          let (more, added, spared) =
            serve-Spares service faults ops (ingest_event service faults now ws schema ev w).0
              schema ev.email listed in
          (more, added ∙ ap (λ l. l ++ more) same_handed, spared)
    ]
