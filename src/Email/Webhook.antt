-- ===== src/Email/Webhook.antt =====
-- The receiver of webhook events and the send route (handler.go), and the signature of an event
-- (brevo/webhook.go). A text or a body is a list of bytes. HMAC-SHA-256, the decoding of JSON, of
-- UUIDs and the store of secrets are parameters; a response is its status.
pub mod Admission
use lecrm.Common.{
  ℕ, ◌+◌, ◌-◌, ◌*◌, ◌<◌, ◌≤◌, String, Bool, not, true, false, ◌&&◌, ◌||◌, Option, none, some, List,
  [], ◌∷◌, ◌++◌, is_empty, length, codes_beq, codes_beq_iff, codes_eq, ◌==◌, string_eq, nat_eq, eqb,
  leb, ltb, if◌then◌else◌, Result, ok, err, ◌≡◌, ◌≢◌, ◌⊎◌, inl, inr, refl, arith, Bool-cases,
  Option-cases, ap, ◌↔◌, sym, ◌∙◌,
}
use lecrm.Common.Text.{codes}
use lecrm.Email.{Schema, Address, SendRequest, World, Faults, actor_human_api, is_valid_send_actor}
use lecrm.Email.Events.{Event, is_known}
use lecrm.Email.Service.{Service, EmailError, SendOutcome, invalid_actor, paused_by_alarm, send}
use lecrm.Email.Service.Intake.{ingest_event}

-- The value of a hexadecimal digit, of either case.
unfoldable pub hex_value : ℕ → Option ℕ
hex_value c =
    if leb b'0' c && leb c b'9'
    then some (c - b'0')
    else if leb b'a' c && leb c b'f'
    then some (c - b'a' + 10)
    else if leb b'A' c && leb c b'F'
    then some (c - b'A' + 10)
    else none

abbrev pair_value : Option ℕ → Option ℕ → Option (List ℕ) → Option (List ℕ)
pair_value (some high) (some low) (some bytes) = some ((high * 16 + low) ∷ bytes)
pair_value _ _ _ = none

-- `hex.DecodeString`
unfoldable pub decode_hex : List ℕ → Option (List ℕ)
decode_hex [] = some []
decode_hex (c ∷ []) = none
decode_hex (c ∷ d ∷ s) = pair_value (hex_value c) (hex_value d) (decode_hex s)

pub data SignatureError : Type 0 where
  no_secret invalid_signature : SignatureError

abbrev pub compare_digest : Option (List ℕ) → List ℕ → Option SignatureError
compare_digest none got = some invalid_signature
compare_digest (some want) got = if codes_beq want got then none else some invalid_signature

-- `VerifySignature`; `none` is a signature that is right.
unfoldable pub verify_signature :
    (List ℕ → List ℕ → List ℕ) → List ℕ → List ℕ → List ℕ → Option SignatureError
verify_signature hmac secret body signature =
    if is_empty secret
    then some no_secret
    else compare_digest (decode_hex signature) (hmac secret body)

-- What the handler is given by other code.
pub record Webhooks : Type 0 where
  pub hmac : List ℕ → List ℕ → List ℕ
  pub webhook_secret : ℕ → Option (List ℕ)
  pub parse_event : List ℕ → Option Event
  pub uuid_text : ℕ → List ℕ

-- The letters and digits of an identifier, in lower case.
abbrev plain_id : List ℕ → List ℕ
plain_id [] = []
plain_id (c ∷ s) =
    let rest = plain_id s in
    if eqb c b'-' then rest else if leb b'A' c && leb c b'Z' then (c + 32) ∷ rest else c ∷ rest

-- `workspaceSchemaName`, of the text of the identifier.
unfoldable pub workspace_schema_name : List ℕ → Schema
workspace_schema_name id = codes "workspace_" ++ plain_id id

abbrev pub max_webhook_body_bytes : ℕ
max_webhook_body_bytes = 65536

abbrev pub status_of : Option EmailError → ℕ
status_of none = 200
status_of (some why) = 500

-- What follows a right signature.
unfoldable pub take_event : Webhooks → Service → Faults → ℕ → ℕ → Option Event → World → World × ℕ
take_event hooks service faults now ws none w = (w, 400)
take_event hooks service faults now ws (some ev) w =
    if is_known ev.event
    then (let (w', e) =
          ingest_event service faults now ws (workspace_schema_name (hooks.uuid_text ws)) ev w in
        (w', status_of e))
    else (w, 200)

abbrev pub refusal : SignatureError → ℕ
refusal invalid_signature = 401
refusal no_secret = 500

-- What follows the signature check.
unfoldable pub after_signature :
    Webhooks → Service → Faults → ℕ → ℕ → List ℕ → Option SignatureError → World → World × ℕ
after_signature hooks service faults now ws body (some e) w = (w, refusal e)
after_signature hooks service faults now ws body none w =
    take_event hooks service faults now ws (hooks.parse_event body) w

-- What follows the lookup of the secret.
unfoldable pub with_secret :
    Webhooks → Service → Faults → ℕ → ℕ → List ℕ → List ℕ → Option (List ℕ) → World → World × ℕ
with_secret hooks service faults now ws body signature none w = (w, 500)
with_secret hooks service faults now ws body signature (some secret) w =
    if is_empty signature
    then (w, 401)
    else after_signature hooks service faults now ws body
        (verify_signature hooks.hmac secret body signature) w

-- `io.ReadAll` over `http.MaxBytesReader`, which ends in an error past the limit.
abbrev pub read_body : List ℕ → Option (List ℕ)
read_body sent = if ltb max_webhook_body_bytes (length sent) then none else some sent

abbrev pub for_workspace :
    Webhooks → Service → Faults → ℕ → List ℕ → Option ℕ → List ℕ → World → World × ℕ
for_workspace hooks service faults now body none signature w = (w, 400)
for_workspace hooks service faults now body (some ws) signature w =
    with_secret hooks service faults now ws body signature (hooks.webhook_secret ws) w

abbrev pub with_body :
    Webhooks → Service → Faults → ℕ → Option (List ℕ) → Option ℕ → List ℕ → World → World × ℕ
with_body hooks service faults now none workspace signature w = (w, 400)
with_body hooks service faults now (some body) workspace signature w =
    if ltb max_webhook_body_bytes (length body)
    then (w, 413)
    else for_workspace hooks service faults now body workspace signature w

-- `handleWebhook`, from the body that was sent, the workspace that the query names, if it names one,
-- and the signature header.
unfoldable pub handle_webhook :
    Webhooks → Service → Faults → ℕ → List ℕ → Option ℕ → List ℕ → World → World × ℕ
handle_webhook hooks service faults now sent workspace signature w =
    with_body hooks service faults now (read_body sent) workspace signature w

-- The JSON of a send request.
pub record SendBody : Type 0 where
  pub sender : Address
  pub recipients : List Address
  pub subject : String
  pub html_content : String
  pub text_content : String
  pub tags : List String

-- The request to the send route: the workspace of the URL, that of the context, the headers for the
-- actor (`none` where an identifier does not parse), the request's identifier (0 where it has none)
-- and the body, if it decodes.
pub record SendCall : Type 0 where
  pub url_workspace : Option ℕ
  pub context : Option (ℕ × Schema)
  pub actor : String
  pub actor_user_id : Option ℕ
  pub request_id : ℕ
  pub body : Option SendBody

-- `actorFromRequest`
unfoldable pub actor_from_request : SendCall → Option (String × ℕ)
actor_from_request call =
    if call.actor == ""
    then some (actor_human_api, 0)
    else if is_valid_send_actor call.actor
    then elim call.actor_user_id [ none ↦ none | some id ↦ some (call.actor, id) ]
    else none

-- The fields that a send needs.
abbrev pub is_complete : SendBody → Bool
is_complete b =
    not (b.subject == "")
    && not (b.sender.email == "")
    && not (is_empty b.recipients)
    && not ((b.html_content == "") && (b.text_content == ""))

abbrev pub request_of : ℕ → Schema → String → ℕ → ℕ → SendBody → SendRequest
request_of ws schema actor user_id request_id b = record {
  workspace_id = ws;
  schema = schema;
  actor_type = actor;
  actor_user_id = user_id;
  request_id = request_id;
  sender = b.sender;
  recipients = b.recipients;
  subject = b.subject;
  html_content = b.html_content;
  text_content = b.text_content;
  tags = b.tags;
}

-- The status of a send.
unfoldable pub send_status : Result EmailError SendOutcome → ℕ
send_status (ok o) = if o.skipped then 200 else 202
send_status (err (paused_by_alarm o)) = 503
send_status (err invalid_actor) = 403
send_status (err why) = 502

unfoldable pub send_as :
    Service → Faults → ℕ → Schema → ℕ → Option (String × ℕ) → Option SendBody → World → World × ℕ
send_as service faults ws schema request_id none body w = (w, 401)
send_as service faults ws schema request_id (some actor) none w = (w, 400)
send_as service faults ws schema request_id (some (actor, user_id)) (some b) w =
    if is_complete b
    then (let (w', r) = send service faults (request_of ws schema actor user_id request_id b) w in
        (w', send_status r))
    else (w, 400)

unfoldable pub send_within :
    Service → Faults → SendCall → ℕ → Option (ℕ × Schema) → World → World × ℕ
send_within service faults call url none w = (w, 500)
send_within service faults call url (some (ws, schema)) w =
    if ws == url
    then send_as service faults ws schema call.request_id (actor_from_request call) call.body w
    else (w, 403)

-- `handleSend`
unfoldable pub handle_send : Service → Faults → SendCall → World → World × ℕ
handle_send service faults call w = elim call.url_workspace [
  | none ↦ (w, 400)
  | some url ↦ send_within service faults call url call.context w
]
