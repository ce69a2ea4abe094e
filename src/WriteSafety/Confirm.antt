-- ===== src/WriteSafety/Confirm.antt =====
-- The confirmation tokens (writesafety.go). A text is a list of bytes; a time is in Unix seconds.
pub mod Handshake
use lecrm.Common.{
  ℕ, ◌+◌, Bool, true, false, ◌||◌, not, Option, none, some, List, [], ◌∷◌, ◌++◌, ltb, eqb,
  codes_beq, is_empty, if◌then◌else◌,
}
use lecrm.Common.Int.{ℤ, pos, negsuc}
use lecrm.Encoding.Base64.{encode, decode}
use lecrm.Encoding.Decimal.{format_int, parse_int}
use lecrm.Encoding.Split.{split, join}

-- `crypto/hmac` with SHA-256, and the text of a UUID (google/uuid).
pub record Crypto : Type 0 where
  pub hmac : List ℕ → List ℕ → List ℕ
  pub uuid_text : ℕ → List ℕ

-- In seconds.
abbrev pub confirm_token_ttl : ℕ
confirm_token_ttl = 600

abbrev pub confirm_token_version : List ℕ
confirm_token_version = b'v' ∷ b'1' ∷ []

pub record Confirmer : Type 0 where
  pub secret : List ℕ

-- `NewConfirmer`; `none` is the error of an empty secret.
unfoldable pub new_confirmer : List ℕ → Option Confirmer
new_confirmer secret = if is_empty secret then none else some (record { secret = secret })

-- The fields, each but the last followed by a NUL.
unfoldable pub message : Crypto → ℕ → List ℕ → List ℕ → ℕ → List ℕ
message crypto ws operation digest exp =
    join 0 (confirm_token_version ∷ crypto.uuid_text ws ∷ operation ∷ digest ∷ format_int exp ∷ [])

unfoldable pub sign : Crypto → Confirmer → ℕ → List ℕ → List ℕ → ℕ → List ℕ
sign crypto c ws operation digest exp =
    crypto.hmac c.secret (message crypto ws operation digest exp)

-- `Issue`
unfoldable pub issue : Crypto → Confirmer → ℕ → List ℕ → List ℕ → ℕ → List ℕ
issue crypto c ws operation digest now =
    let exp = now + confirm_token_ttl in
    join b'.'
      (confirm_token_version ∷ format_int exp ∷ encode (sign crypto c ws operation digest exp) ∷ [])

abbrev same_bytes : Option (List ℕ) → List ℕ → Bool
same_bytes none want = false
same_bytes (some got) want = codes_beq got want

-- An expiry before 1970 is past.
abbrev verify_parts :
    Crypto → Confirmer → ℕ → List ℕ → List ℕ → ℕ → List ℕ → Option ℤ → List ℕ → Bool
verify_parts crypto c ws operation digest now version none signature = false
verify_parts crypto c ws operation digest now version (some (negsuc n)) signature = false
verify_parts crypto c ws operation digest now version (some (pos exp)) signature =
    if not (codes_beq version confirm_token_version)
    then false
    else if ltb exp now
    then false
    else same_bytes (decode signature) (sign crypto c ws operation digest exp)

abbrev verify_split : Crypto → Confirmer → ℕ → List ℕ → List ℕ → ℕ → List (List ℕ) → Bool
verify_split crypto c ws operation digest now (version ∷ exp ∷ signature ∷ []) =
    verify_parts crypto c ws operation digest now version (parse_int exp) signature
verify_split crypto c ws operation digest now _ = false

-- `Verify`: true for nil, false for ErrConfirmationInvalid, its one error.
unfoldable pub verify : Crypto → Confirmer → List ℕ → ℕ → List ℕ → List ℕ → ℕ → Bool
verify crypto c token ws operation digest now =
    verify_split crypto c ws operation digest now (split b'.' token)
