-- ===== src/Email/Webhook/Admission.antt =====
-- Which webhook requests change anything.
use lecrm.Common.{
  ℕ, true, false, Option, none, some, List, is_empty, length, codes_beq_iff, codes_eq, string_eq,
  nat_eq, ltb, ◌≡◌, ◌⊎◌, inl, inr, refl, arith, Bool-cases, Option-cases,
}
use lecrm.Email.{World, Faults}
use lecrm.Email.Events.{Event, is_known}
use lecrm.Email.Service.{Service, EmailError}
use lecrm.Email.Service.Intake.{ingest_event}
use lecrm.Email.Webhook.{
  decode_hex, SignatureError, no_secret, invalid_signature, verify_signature, Webhooks,
  max_webhook_body_bytes, workspace_schema_name, status_of, take_event, after_signature,
  with_secret, for_workspace, handle_webhook,
}

-- The event that a right signature lets in, and what becomes of it.
abbrev pub IsAdmitted :
    Webhooks → Service → Faults → ℕ → List ℕ → Option ℕ → List ℕ → World → World × ℕ → Type 0
IsAdmitted hooks service faults now body workspace signature w r =
    (ws : ℕ) × (secret : List ℕ) × (ev : Event) × (workspace ≡ some ws)
    × (hooks.webhook_secret ws ≡ some secret)
    × (is_empty secret ≡ false)
    × (decode_hex signature ≡ some (hooks.hmac secret body))
    × (hooks.parse_event body ≡ some ev)
    × (is_known ev.event ≡ true)
    × (r.0
        ≡ (ingest_event service faults now ws (workspace_schema_name (hooks.uuid_text ws)) ev w).0)
    × (((r.1 ≡ 200)
          × ((ingest_event service faults now ws (workspace_schema_name (hooks.uuid_text ws)) ev
                w).1
              ≡ none))
        ⊎ (r.1 ≡ 500))

-- A refused request, with a status that says so or the 200 of an event that is not known.
abbrev pub IsRefused : World → World × ℕ → Type 0
IsRefused w r = (r.0 ≡ w) × ((r.1 ≡ 200) ⊎ ((r.1 ≡ 400) ⊎ ((r.1 ≡ 401) ⊎ (r.1 ≡ 500))))

verify_signature_lem :
    (hmac : List ℕ → List ℕ → List ℕ) (secret body signature : List ℕ)
    → verify_signature hmac secret body signature ≡ none
    → (is_empty secret ≡ false) × (decode_hex signature ≡ some (hmac secret body))
unfolding verify_signature
verify_signature_lem hmac secret body signature h = elim (Option-cases (decode_hex signature)) [
  | inl bad ↦ ground (arith, bad)
  | inr (want, good) ↦ ground (arith, good, codes_beq_iff want (hmac secret body))
]

status_of_cases : (e : Option EmailError) → ((status_of e ≡ 200) × (e ≡ none)) ⊎ (status_of e ≡ 500)
status_of_cases none = inl (refl, refl)
status_of_cases (some why) = inr refl

module _ (hooks : Webhooks) (service : Service) (faults : Faults) (now : ℕ)
    (body signature : List ℕ) (w : World) where
  -- A right signature of the body under a secret of the workspace.
  abbrev IsSigned : ℕ → Type 0
  IsSigned ws =
      (secret : List ℕ) × (hooks.webhook_secret ws ≡ some secret)
      × (is_empty secret ≡ false)
      × (decode_hex signature ≡ some (hooks.hmac secret body))

  take_event_cases :
      (ws : ℕ) (o : Option Event)
      → hooks.parse_event body ≡ o
      → IsSigned ws
      → IsRefused w (take_event hooks service faults now ws o w)
        ⊎ IsAdmitted hooks service faults now body
            (some ws)
            signature
            w
            (take_event hooks service faults now ws o w)
  unfolding take_event
  take_event_cases ws none p signed = inl (refl, inr (inl refl))
  take_event_cases ws (some ev) p (secret, found, there, right) =
      elim (Bool-cases (is_known ev.event)) [
        | inr strange ↦ inl (rw (strange, take_event) (refl, inl refl))
        | inl known ↦ inr (
          ws,
          secret,
          ev,
          refl,
          found,
          there,
          right,
          p,
          known,
          rw (known, take_event) refl,
          rw (known, take_event)
              (status_of_cases
                (ingest_event service faults now ws (workspace_schema_name (hooks.uuid_text ws)) ev
                  w).1),
        )
      ]

  after_signature_cases :
      (ws : ℕ) (secret : List ℕ) (e : Option SignatureError)
      → hooks.webhook_secret ws ≡ some secret
      → verify_signature hooks.hmac secret body signature ≡ e
      → IsRefused w (after_signature hooks service faults now ws body e w)
        ⊎ IsAdmitted hooks service faults now body
            (some ws)
            signature
            w
            (after_signature hooks service faults now ws body e w)
  unfolding after_signature
  after_signature_cases ws secret none p q = take_event_cases ws (hooks.parse_event body) refl (
      let (there, right) = verify_signature_lem hooks.hmac secret body signature q in
      (secret, p, there, right))
  after_signature_cases ws secret (some invalid_signature) p q = inl (refl, inr (inr (inl refl)))
  after_signature_cases ws secret (some no_secret) p q = inl (refl, inr (inr (inr refl)))

  with_secret_cases :
      (ws : ℕ) (o : Option (List ℕ))
      → hooks.webhook_secret ws ≡ o
      → IsRefused w (with_secret hooks service faults now ws body signature o w)
        ⊎ IsAdmitted hooks service faults now body
            (some ws)
            signature
            w
            (with_secret hooks service faults now ws body signature o w)
  unfolding with_secret
  with_secret_cases ws none p = inl (refl, inr (inr (inr refl)))
  with_secret_cases ws (some secret) p = elim (Bool-cases (is_empty signature)) [
    | inl unsigned ↦ inl (rw (unsigned, with_secret) (refl, inr (inr (inl refl))))
    | inr signed ↦
        let passed : with_secret hooks service faults now ws body signature (some secret) w
            ≡ after_signature hooks service faults now ws body
                (verify_signature hooks.hmac secret body signature) w =
          rw (signed, with_secret) refl in
        rw passed (
          after_signature_cases ws secret (verify_signature hooks.hmac secret body signature) p
            refl)
  ]

  for_workspace_cases :
      (workspace : Option ℕ)
      → IsRefused w (for_workspace hooks service faults now body workspace signature w)
        ⊎ IsAdmitted hooks service faults now body workspace signature w
            (for_workspace hooks service faults now body workspace signature w)
  for_workspace_cases none = inl (refl, inr (inl refl))
  for_workspace_cases (some ws) = with_secret_cases ws (hooks.webhook_secret ws) refl

-- A webhook request either is refused and changes nothing (400, 401 or 500, and 200 for an event that
-- is not known), never with the 413 of a body that is too large; or it names a workspace, its signature
-- is the HMAC of its body under that workspace's secret, which is not empty, and the event in its body
-- is taken in for that workspace, with 200 when that ends without an error and else 500.
pub handle_webhook_cases :
    (hooks : Webhooks) (service : Service) (faults : Faults) (now : ℕ) (sent : List ℕ)
    (workspace : Option ℕ) (signature : List ℕ) (w : World)
    → IsRefused w (handle_webhook hooks service faults now sent workspace signature w)
      ⊎ IsAdmitted hooks service faults now sent workspace signature w
          (handle_webhook hooks service faults now sent workspace signature w)
unfolding handle_webhook
handle_webhook_cases hooks service faults now sent workspace signature w =
    elim (Bool-cases (ltb max_webhook_body_bytes (length sent))) [
      | inl large ↦ inl (rw (large, handle_webhook) (refl, inr (inl refl)))
      | inr small ↦
          let passed : handle_webhook hooks service faults now sent workspace signature w
              ≡ for_workspace hooks service faults now sent workspace signature w =
            rw (small, handle_webhook, small) refl in
          rw passed (for_workspace_cases hooks service faults now sent signature w workspace)
    ]
