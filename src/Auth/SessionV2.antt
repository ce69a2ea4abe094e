-- ===== src/Auth/SessionV2.antt =====
-- The two-layer sessions (apps/api/internal/auth/session_v2.go), and the choice between the two kinds
-- (handlers.go: SessionFromRequestV2). A nonce is `none` where the random source fails.
pub mod Binding
pub mod Authentic
use lecrm.Common.{
  ℕ, zero, suc, ◌+◌, ◌*◌, ◌/◌, ◌%◌, ◌^◌, Bool, true, false, ◌||◌, not, Option, none, some, List, [],
  ◌∷◌, ◌++◌, length, is_empty, ltb, eqb, ◌==◌, codes_eq, if◌then◌else◌, Result, ok, err, ◌>>=◌,
  ◌>>◌,
}
use lecrm.Common.Text.{is_prefix}
use lecrm.Encoding.Base64.{encode, decode}
use lecrm.Auth.Codec.{
  Json, Crypto, TokenError, identity_required, slug_required, random_failed, key_failed, not_v2,
  bad_base64, bad_structure, binding_mismatch, hash_mismatch, bad_ciphertext, bad_json, sign,
  check_signature, split_two, or_fail,
}
use lecrm.Auth.Session.{Session, with_times, open_payload, guard_expiry, decode_session}

abbrev pub v2_prefix : List ℕ
v2_prefix = b'v' ∷ b'2' ∷ b'.' ∷ []

-- The claims of the outer layer.
pub record OuterClaims : Type 0 where
  pub slug : List ℕ
  pub expires_at : ℕ
  pub inner_hash : List ℕ

-- The two kinds of JSON in a session.
pub record Codecs : Type 0 where
  pub inner : Json Session
  pub outer : Json OuterClaims

-- The size of a nonce of AES-GCM.
abbrev pub nonce_size : ℕ
nonce_size = 12

-- `binary.BigEndian.PutUint32` of `uint32(n)`.
unfoldable pub put_uint32 : ℕ → List ℕ
put_uint32 n = (n / 2 ^ 24 % 256) ∷ (n / 2 ^ 16 % 256) ∷ (n / 2 ^ 8 % 256) ∷ (n % 256) ∷ []

-- `binary.BigEndian.Uint32` of the first four bytes.
unfoldable pub uint32 : List ℕ → ℕ
uint32 (a ∷ b ∷ c ∷ d ∷ rest) = a * 2 ^ 24 + b * 2 ^ 16 + c * 2 ^ 8 + d
uint32 _ = 0

-- The first `n` bytes and the rest; `none` where there are fewer.
unfoldable pub cut : ℕ → List ℕ → Option (List ℕ × List ℕ)
cut zero s = some ([], s)
cut (suc n) [] = none
cut (suc n) (b ∷ s) = elim (cut n s) [
  | none ↦ none
  | some (before, after) ↦ some (b ∷ before, after)
]

-- `encryptAESGCM`
unfoldable pub encrypt_aes_gcm : Crypto → List ℕ → List ℕ → List ℕ → List ℕ
encrypt_aes_gcm c key nonce text =
    let aad = put_uint32 (length text) in aad ++ (nonce ++ c.seal key nonce text aad)

abbrev guard_length : ℕ → List ℕ → Result TokenError (List ℕ)
guard_length expected text =
    if eqb (length text % 2 ^ 32) expected then ok text else err bad_ciphertext

-- `decryptAESGCM`
unfoldable pub decrypt_aes_gcm : Crypto → List ℕ → List ℕ → Result TokenError (List ℕ)
decrypt_aes_gcm c key bytes = do
  header ← or_fail (cut 4 bytes) bad_ciphertext
  body ← or_fail (cut nonce_size (header.1)) bad_ciphertext
  text ← or_fail (c.open_sealed key (body.0) (body.1) (header.0)) bad_ciphertext
  guard_length (uint32 (header.0)) text

abbrev or_jti : ℕ → ℕ → ℕ
or_jti jti fresh = if eqb jti 0 then fresh else jti

-- The session that is encoded: times and an identifier are given where it has none.
abbrev pub completed : ℕ → ℕ → Session → Session
completed now fresh s = record (with_times now s) { jti = or_jti s.jti fresh }

-- The text in the two layers, of the slug, the session and its ciphertext.
abbrev pub v2_payload : Crypto → Codecs → List ℕ → Session → List ℕ → List ℕ
v2_payload c codecs slug s ciphertext =
    encode (
      codecs.outer.marshal (record {
        slug = slug;
        expires_at = s.expires_at;
        inner_hash = encode (c.sha256 ciphertext);
      }))
    ++ b'|' ∷ encode ciphertext

unfoldable pub seal_session :
    Crypto → Codecs → List ℕ → List ℕ → Option (List ℕ) → Session → Result TokenError (List ℕ)
seal_session c codecs secret slug nonce s = do
  key ← or_fail (c.derive_key secret slug) key_failed
  nonce ← or_fail nonce random_failed
  let ciphertext = encrypt_aes_gcm c key nonce (codecs.inner.marshal s)
  ok (v2_prefix ++ sign c secret (v2_payload c codecs slug s ciphertext))

-- `EncodeSessionV2`, with a fresh identifier and a nonce at hand.
unfoldable pub encode_session_v2 :
    Crypto
    → Codecs
    → List ℕ
    → List ℕ
    → ℕ
    → ℕ
    → Option (List ℕ)
    → Session
    → Result TokenError (List ℕ)
encode_session_v2 c codecs secret slug now fresh nonce s =
    if eqb s.user_id 0 || eqb s.workspace_id 0
    then err identity_required
    else if is_empty slug
    then err slug_required
    else seal_session c codecs secret slug nonce (completed now fresh s)

abbrev pub strip_prefix : List ℕ → List ℕ → Option (List ℕ)
strip_prefix [] s = some s
strip_prefix (p ∷ ps) [] = none
strip_prefix (p ∷ ps) (b ∷ s) = if eqb p b then strip_prefix ps s else none

abbrev pub guard_same : List ℕ → List ℕ → TokenError → Result TokenError (Unit {0})
guard_same a b e = if a == b then ok tt else err e

unfoldable pub open_inner :
    Crypto → Codecs → List ℕ → List ℕ → OuterClaims → List ℕ → Result TokenError Session
open_inner c codecs secret slug outer encoded = do
  ciphertext ← or_fail (decode encoded) bad_base64
  guard_same outer.inner_hash (encode (c.sha256 ciphertext)) hash_mismatch
  key ← or_fail (c.derive_key secret slug) key_failed
  text ← decrypt_aes_gcm c key ciphertext
  or_fail (codecs.inner.unmarshal text) bad_json

-- `DecodeSessionV2`
unfoldable pub decode_session_v2 :
    Crypto → Codecs → List ℕ → List ℕ → ℕ → List ℕ → Result TokenError Session
decode_session_v2 c codecs secret slug now token = do
  signed ← or_fail (strip_prefix v2_prefix token) not_v2
  payload ← check_signature c secret signed
  layers ← or_fail (split_two b'|' payload) bad_structure
  outer ← open_payload codecs.outer (layers.0)
  guard_same outer.slug slug binding_mismatch
  guard_expiry (ltb outer.expires_at now)
  open_inner c codecs secret slug outer (layers.1)

abbrev pub as_v1 : Result TokenError Session → Option (Session × Bool)
as_v1 (ok s) = some (s, true)
as_v1 (err e) = none

abbrev pub as_v2 : Result TokenError Session → Option (Session × Bool) → Option (Session × Bool)
as_v2 (ok s) fallback = some (s, false)
as_v2 (err e) fallback = fallback

-- `SessionFromRequestV2`: the session of the cookie, if there is one, and whether it is of the first
-- kind.
unfoldable pub session_from_request_v2 :
    Crypto → Json Session → Codecs → List ℕ → List ℕ → ℕ → Option (List ℕ) → Option (Session × Bool)
session_from_request_v2 c v1 codecs secret slug now none = none
session_from_request_v2 c v1 codecs secret slug now (some value) =
    as_v2 (decode_session_v2 c codecs secret slug now value)
      (as_v1 (decode_session c v1 secret now value))
