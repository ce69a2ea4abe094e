-- ===== src/Auth/Codec.antt =====
-- The signed texts of apps/api/internal/auth: `<payload>.<base64url(HMAC of the payload)>`, and what
-- the packages that make them are relied on for.
use lecrm.Common.{
  ℕ, Option, none, some, List, [], ◌∷◌, ◌++◌, ◌==◌, codes_eq, eqb, if◌then◌else◌, ◌≡◌, arith, All,
  Result, ok, err, beq_refl, eqb_iff, codes_beq_iff, Option-cases, inl, inr,
}
use lecrm.Encoding.Base64.{encode, IsByte}
use lecrm.Encoding.Split.{Free}

-- encoding/json on one type; `none` is its error.
pub record Json (A : Type 0) : Type 0 where
  pub marshal : A → List ℕ
  pub unmarshal : List ℕ → Option A

-- Bytes that decode to the value.
abbrev pub RoundTrips : {A : Type 0} → Json A → A → Type 0
RoundTrips json a = All IsByte (json.marshal a) × (json.unmarshal (json.marshal a) ≡ some a)

-- crypto/hmac with SHA-256, crypto/sha256, and HKDF as `deriveKey` calls it, of secret and slug.
pub record Crypto : Type 0 where
  pub hmac : List ℕ → List ℕ → List ℕ
  pub sha256 : List ℕ → List ℕ
  pub derive_key : List ℕ → List ℕ → Option (List ℕ)
  -- `Seal` and `Open` of AES-GCM: key, nonce, text, additional data
  pub seal : List ℕ → List ℕ → List ℕ → List ℕ → List ℕ
  pub open_sealed : List ℕ → List ℕ → List ℕ → List ℕ → Option (List ℕ)

-- `Open` gives back what `Seal` took, and the results are bytes.
pub record IsCrypto (c : Crypto) : Type 0 where
  pub hmac_bytes : (key text : List ℕ) → All IsByte (c.hmac key text)
  pub sha256_bytes : (text : List ℕ) → All IsByte (c.sha256 text)
  pub seal_bytes :
      (key nonce text aad : List ℕ) → All IsByte text → All IsByte (c.seal key nonce text aad)
  pub open-seal :
      (key nonce text aad : List ℕ)
      → c.open_sealed key nonce (c.seal key nonce text aad) aad ≡ some text

abbrev add_byte : ℕ → Option (List ℕ × List ℕ) → Option (List ℕ × List ℕ)
add_byte b none = none
add_byte b (some (before, after)) = some (b ∷ before, after)

-- `strings.SplitN` into two; `none` where the separator is missing.
unfoldable pub split_two : ℕ → List ℕ → Option (List ℕ × List ℕ)
split_two sep [] = none
split_two sep (b ∷ s) =
    let rest = split_two sep s in if eqb b sep then some ([], s) else add_byte b rest

-- What a signed text can fail by.
pub data TokenError : Type 0 where
  identity_required slug_required incomplete_request random_failed key_failed : TokenError
  not_v2 bad_format bad_signature bad_structure bad_base64 bad_json : TokenError
  binding_mismatch expired hash_mismatch bad_ciphertext : TokenError

unfoldable pub sign : Crypto → List ℕ → List ℕ → List ℕ
sign c secret payload = payload ++ b'.' ∷ encode (c.hmac secret payload)

abbrev pub with_signature : Crypto → List ℕ → Option (List ℕ × List ℕ) → Result TokenError (List ℕ)
with_signature c secret none = err bad_format
with_signature c secret (some (payload, sig)) =
    if encode (c.hmac secret payload) == sig then ok payload else err bad_signature

-- The payload of a text that is signed with the secret.
unfoldable pub check_signature : Crypto → List ℕ → List ℕ → Result TokenError (List ℕ)
check_signature c secret value = with_signature c secret (split_two b'.' value)

abbrev pub or_fail {ℓ} : {A : Type ℓ} → Option A → TokenError → Result TokenError A
or_fail none e = err e
or_fail (some a) e = ok a

pub split_two-append :
    (sep : ℕ) (before after : List ℕ)
    → Free sep before
    → split_two sep (before ++ sep ∷ after) ≡ some (before, after)
unfolding split_two
split_two-append sep [] after free = ground arith
split_two-append sep (b ∷ before) after free =
    ground (arith, split_two-append sep before after free.1)

pub append-split_two :
    (sep : ℕ) (s before after : List ℕ)
    → split_two sep s ≡ some (before, after)
    → s ≡ before ++ sep ∷ after
unfolding split_two
append-split_two sep [] before after e = cc
append-split_two sep (b ∷ s) [] after e = ground (arith, eqb_iff b sep)
append-split_two sep (b ∷ s) (c ∷ before) after e =
    ground (arith, append-split_two sep s before after)

-- What was signed with a secret is accepted under it.
pub check_signature-sign :
    (c : Crypto) (secret payload : List ℕ)
    → Free b'.' payload
    → check_signature c secret (sign c secret payload) ≡ ok payload
unfolding check_signature sign
check_signature-sign c secret payload free = ground (
  arith,
  split_two-append b'.' payload (encode (c.hmac secret payload)) free,
  beq_refl (encode (c.hmac secret payload)),
)

-- Only what is signed with the secret is accepted.
pub check_signature_sound :
    (c : Crypto) (secret value payload : List ℕ)
    → check_signature c secret value ≡ ok payload
    → value ≡ sign c secret payload
unfolding check_signature sign
check_signature_sound c secret value payload good = elim (Option-cases (split_two b'.' value)) [
  | inl whole ↦ ground (arith, whole)
  | inr ((before, after), parts) ↦ ground (
    arith,
    append-split_two b'.' value before after parts,
    (codes_beq_iff (encode (c.hmac secret before)) after).0,
  )
]
