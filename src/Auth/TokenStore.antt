-- ===== src/Auth/TokenStore.antt =====
-- The table of the service tokens and the check of a bearer (apps/api/internal/auth/bearer.go,
-- bearer_authenticator.go, service_token_store.go, service_token_handler.go). `fails` says that the
-- statement fails. The scopes stand in their column as JSON.
pub mod Admin
pub mod Access
pub mod Creation
use lecrm.Common.{
  ℕ, ◌+◌, Bool, true, false, ◌&&◌, ◌||◌, not, String, Option, none, some, List, [], ◌∷◌, ◌++◌, map,
  any, length, is_empty, ltb, leb, eqb, ◌==◌, codes_eq, nat_eq, string_eq, if◌then◌else◌, Result,
  ok, err, ◌>>=◌, ◌>>◌,
}
use lecrm.Common.Text.{codes, trim_space, to_lower}
use lecrm.Auth.Codec.{Json}
use lecrm.Auth.SessionV2.{cut}
use lecrm.Auth.Token.{
  Argon, ServiceTokenError, invalid_format, workspace_mismatch, load_failed, no_match,
  name_required, invalid_actor_type, insert_failed, delete_failed, token_not_found, or_fail,
  generate_service_token, workspace_slug_from_token, verify_service_token,
}

-- A row of core.service_tokens.
pub record TokenRow : Type 0 where
  pub id : ℕ
  pub workspace_id : ℕ
  pub name : List ℕ
  pub token_hash : List ℕ
  pub actor_type : String
  pub scopes : List ℕ
  pub expires_at : Option ℕ
  pub last_used_at : Option ℕ

pub record BearerActor : Type 0 where
  pub token_id : ℕ
  pub actor_type : String
  pub scopes : List (List ℕ)

abbrev pub all_scopes : List (List ℕ)
all_scopes = (b'*' ∷ []) ∷ []

abbrev scopes_or_all : Option (List (List ℕ)) → List (List ℕ)
scopes_or_all none = all_scopes
scopes_or_all (some scopes) = if is_empty scopes then all_scopes else scopes

-- `decodeScopes`
unfoldable pub decode_scopes : Json (List (List ℕ)) → List ℕ → List (List ℕ)
decode_scopes json raw = if is_empty raw then all_scopes else scopes_or_all (json.unmarshal raw)

abbrev pub is_live : ℕ → Option ℕ → Bool
is_live now none = true
is_live now (some expires) = ltb now expires

-- A candidate of a workspace: its own, and not expired.
abbrev pub is_candidate : ℕ → ℕ → TokenRow → Bool
is_candidate ws now row = row.workspace_id == ws && is_live now row.expires_at

-- `LoadCandidates`
unfoldable pub load_candidates : ℕ → ℕ → List TokenRow → List TokenRow
load_candidates ws now [] = []
load_candidates ws now (row ∷ rows) =
    let rest = load_candidates ws now rows in if is_candidate ws now row then row ∷ rest else rest

abbrev pub succeeds : Result ServiceTokenError (Unit {0}) → Bool
succeeds (ok u) = true
succeeds (err e) = false

-- The first candidate whose hash accepts the token.
unfoldable pub find_match : Argon → List ℕ → List TokenRow → Option TokenRow
find_match argon plaintext [] = none
find_match argon plaintext (row ∷ rows) =
    let rest = find_match argon plaintext rows in
    if succeeds (verify_service_token argon plaintext row.token_hash) then some row else rest

abbrev touched : ℕ → ℕ → TokenRow → TokenRow
touched now id row = if row.id == id then record row { last_used_at = some now } else row

-- `TouchLastUsed`; its error is dropped.
unfoldable pub touch_last_used : Bool → ℕ → ℕ → List TokenRow → List TokenRow
touch_last_used fails now id rows = if fails then rows else map (touched now id) rows

abbrev pub actor_of : Json (List (List ℕ)) → TokenRow → BearerActor
actor_of json row = record {
  token_id = row.id;
  actor_type = row.actor_type;
  scopes = decode_scopes json row.scopes;
}

abbrev matched :
    Json (List (List ℕ))
    → Bool
    → ℕ
    → Option TokenRow
    → List TokenRow
    → Result ServiceTokenError BearerActor × List TokenRow
matched json touch_fails now none rows = (err no_match, rows)
matched json touch_fails now (some row) rows =
    (ok (actor_of json row), touch_last_used touch_fails now row.id rows)

abbrev for_slug :
    Argon
    → Json (List (List ℕ))
    → Bool
    → Bool
    → ℕ
    → ℕ
    → List ℕ
    → List ℕ
    → Option (List ℕ)
    → List TokenRow
    → Result ServiceTokenError BearerActor × List TokenRow
for_slug argon json load_fails touch_fails now ws slug plaintext none rows =
    (err invalid_format, rows)
for_slug argon json load_fails touch_fails now ws slug plaintext (some embedded) rows =
    if not (embedded == slug)
    then (err workspace_mismatch, rows)
    else if load_fails
    then (err load_failed, rows)
    else matched json touch_fails now (find_match argon plaintext (load_candidates ws now rows))
        rows

-- `VerifyBearer`
unfoldable pub verify_bearer :
    Argon
    → Json (List (List ℕ))
    → Bool
    → Bool
    → ℕ
    → ℕ
    → List ℕ
    → List ℕ
    → List TokenRow
    → Result ServiceTokenError BearerActor × List TokenRow
verify_bearer argon json load_fails touch_fails now ws slug plaintext rows =
    for_slug argon json load_fails touch_fails now ws slug plaintext
      (workspace_slug_from_token plaintext) rows

abbrev bearer_value : Option (List ℕ × List ℕ) → List ℕ
bearer_value none = []
bearer_value (some (scheme, rest)) =
    if to_lower scheme == codes "bearer " && not (is_empty rest) then trim_space rest else []

-- `ExtractBearer`, of the Authorization header; empty where there is no bearer.
unfoldable pub extract_bearer : List ℕ → List ℕ
extract_bearer header = bearer_value (cut 7 header)

abbrev authenticated :
    Result ServiceTokenError BearerActor × List TokenRow
    → Result ServiceTokenError (Option BearerActor) × List TokenRow
authenticated (ok actor, rows) = (ok (some actor), rows)
authenticated (err e, rows) = (err e, rows)

-- `Authenticate` of the HTTP authenticator: an actor, an error, or no bearer.
unfoldable pub authenticate :
    Argon
    → Json (List (List ℕ))
    → Bool
    → Bool
    → ℕ
    → ℕ
    → List ℕ
    → List ℕ
    → List TokenRow
    → Result ServiceTokenError (Option BearerActor) × List TokenRow
authenticate argon json load_fails touch_fails now ws slug header rows =
    let plaintext = extract_bearer header in
    if is_empty plaintext
    then (ok none, rows)
    else authenticated (verify_bearer argon json load_fails touch_fails now ws slug plaintext rows)
