-- ===== src/Auth/Session.antt =====
-- The signed sessions (apps/api/internal/auth/session.go), and the requests of a login
-- (state.go), which are signed alike. Times are not negative; `now` is the clock's.
use lecrm.Common.{
  ℕ, ◌+◌, Bool, ◌||◌, List, is_empty, ltb, eqb, if◌then◌else◌, Result, ok, err, ◌>>=◌, ◌>>◌, ◌≡◌,
  arith,
}
use lecrm.Encoding.Base64.{encode, decode, decode-encode, encode-no_dot}
use lecrm.Auth.Codec.{
  Json, RoundTrips, Crypto, TokenError, identity_required, incomplete_request, bad_base64, bad_json,
  expired, sign, check_signature, check_signature-sign, or_fail,
}

pub record Session : Type 0 where
  pub user_id : ℕ
  pub workspace_id : ℕ
  pub jti : ℕ
  pub issued_at : ℕ
  pub expires_at : ℕ

-- In seconds.
abbrev pub max_age : ℕ
max_age = 43200

abbrev pub or_time : ℕ → ℕ → ℕ
or_time t default = if eqb t 0 then default else t

-- The times that a session is given where it has none.
abbrev pub with_times : ℕ → Session → Session
with_times now s = record s {
  issued_at = or_time s.issued_at now;
  expires_at = or_time s.expires_at (now + max_age);
}

-- `EncodeSession`
unfoldable pub encode_session :
    Crypto → Json Session → List ℕ → ℕ → Session → Result TokenError (List ℕ)
encode_session c json secret now s =
    if eqb s.user_id 0 || eqb s.workspace_id 0
    then err identity_required
    else ok (sign c secret (encode (json.marshal (with_times now s))))

abbrev pub guard_expiry : Bool → Result TokenError (Unit {0})
guard_expiry past = if past then err expired else ok tt

-- The value in a payload.
abbrev pub open_payload : {A : Type 0} → Json A → List ℕ → Result TokenError A
open_payload json payload = do
  text ← or_fail (decode payload) bad_base64
  or_fail (json.unmarshal text) bad_json

-- `DecodeSession`
unfoldable pub decode_session :
    Crypto → Json Session → List ℕ → ℕ → List ℕ → Result TokenError Session
decode_session c json secret now value = do
  payload ← check_signature c secret value
  s ← open_payload json payload
  guard_expiry (ltb s.expires_at now)
  ok s

-- `AuthRequest`; `issued_at` is in nanoseconds.
pub record AuthRequest : Type 0 where
  pub state : List ℕ
  pub code_verifier : List ℕ
  pub workspace_subdomain : List ℕ
  pub redirect_uri : List ℕ
  pub issued_at : ℕ

-- Ten minutes, in nanoseconds.
abbrev pub state_max_age : ℕ
state_max_age = 600000000000

-- `EncodeAuthRequest`
unfoldable pub encode_auth_request :
    Crypto → Json AuthRequest → List ℕ → AuthRequest → Result TokenError (List ℕ)
encode_auth_request c json secret req =
    if is_empty req.state
      || is_empty req.code_verifier
      || is_empty req.workspace_subdomain
      || is_empty req.redirect_uri
    then err incomplete_request
    else ok (sign c secret (encode (json.marshal req)))

-- `DecodeAuthRequest`
unfoldable pub decode_auth_request :
    Crypto → Json AuthRequest → List ℕ → ℕ → List ℕ → Result TokenError AuthRequest
decode_auth_request c json secret now value = do
  payload ← check_signature c secret value
  req ← open_payload json payload
  guard_expiry (ltb (req.issued_at + state_max_age) now)
  ok req

pub open_payload-encode :
    {A : Type 0} (json : Json A) (a : A)
    → RoundTrips json a
    → open_payload json (encode (json.marshal a)) ≡ ok a
open_payload-encode json a trips = ground (arith, decode-encode (json.marshal a) trips.0)

-- A session that was encoded decodes to itself, with the times that it was given, until it expires.
pub decode_session-encode_session :
    (c : Crypto) (json : Json Session) (secret token : List ℕ) (now later : ℕ) (s : Session)
    → RoundTrips json (with_times now s)
    → encode_session c json secret now s ≡ ok token
    → decode_session c json secret later token
      ≡ (if ltb (with_times now s).expires_at later then err expired else ok (with_times now s))
unfolding encode_session decode_session
decode_session-encode_session c json secret token now later s trips made = ground (
  arith,
  check_signature-sign c secret (encode (json.marshal (with_times now s)))
      (encode-no_dot (json.marshal (with_times now s))),
  open_payload-encode json (with_times now s) trips,
)

-- A login's request decodes to itself under the secret that signed it, for ten minutes.
pub decode_auth_request-encode_auth_request :
    (c : Crypto) (json : Json AuthRequest) (secret token : List ℕ) (later : ℕ) (req : AuthRequest)
    → RoundTrips json req
    → encode_auth_request c json secret req ≡ ok token
    → decode_auth_request c json secret later token
      ≡ (if ltb (req.issued_at + state_max_age) later then err expired else ok req)
unfolding encode_auth_request decode_auth_request
decode_auth_request-encode_auth_request c json secret token later req trips made = ground (
  arith,
  check_signature-sign c secret (encode (json.marshal req)) (encode-no_dot (json.marshal req)),
  open_payload-encode json req trips,
)
