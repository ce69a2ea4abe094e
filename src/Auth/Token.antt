-- ===== src/Auth/Token.antt =====
-- The service tokens (apps/api/internal/auth/service_token.go): `lecrm_<slug>_<random>`, stored as
-- an argon2id hash. argon2, base64.RawStdEncoding and the `%d` formats of fmt are parameters; random
-- bytes are given, `none` where the source fails.
pub mod Hash
use lecrm.Common.{
  ℕ, zero, suc, ◌+◌, ◌*◌, ◌/◌, ◌%◌, ◌<◌, Bool, true, false, ◌&&◌, ◌||◌, not, Option, none, some,
  List, [], ◌∷◌, ◌++◌, all, length, is_empty, ltb, leb, eqb, ◌==◌, codes_eq, if◌then◌else◌, Result,
  ok, err, ◌>>=◌, ◌>>◌,
}
use lecrm.Common.Text.{codes}
use lecrm.Encoding.Base64.{encode, decode}
use lecrm.Encoding.Hex.{hex}
use lecrm.Encoding.Split.{split, join}
use lecrm.Auth.Codec.{split_two}
use lecrm.Auth.SessionV2.{strip_prefix, cut}

-- The cost of a hash: iterations, memory, threads.
pub record Cost : Type 0 where
  pub time : ℕ
  pub memory : ℕ
  pub threads : ℕ

pub record Argon : Type 0 where
  -- `IDKey` of password, salt, cost and length
  pub id_key : List ℕ → List ℕ → Cost → ℕ → List ℕ
  pub encode_std : List ℕ → List ℕ
  pub decode_std : List ℕ → Option (List ℕ)
  -- `v=%d` and `m=%d,t=%d,p=%d`, printed and scanned
  pub print_version : ℕ → List ℕ
  pub scan_version : List ℕ → Option ℕ
  pub print_cost : Cost → List ℕ
  pub scan_cost : List ℕ → Option Cost

abbrev pub argon_cost : Cost
argon_cost = record { time = 1; memory = 65536; threads = 4 }

abbrev pub argon_key_len : ℕ
argon_key_len = 32

-- `argon2.Version`
abbrev pub argon_version : ℕ
argon_version = 19

pub data ServiceTokenError : Type 0 where
  slug_required random_failed invalid_format malformed_hash hash_mismatch : ServiceTokenError
  workspace_mismatch load_failed no_match : ServiceTokenError
  name_required invalid_actor_type insert_failed delete_failed token_not_found : ServiceTokenError

abbrev pub or_fail {ℓ} : {A : Type ℓ} → Option A → ServiceTokenError → Result ServiceTokenError A
or_fail none e = err e
or_fail (some a) e = ok a

abbrev pub token_prefix : List ℕ
token_prefix = codes "lecrm_"

abbrev pub hash_name : List ℕ
hash_name = codes "argon2id"

-- `hashToken`
unfoldable pub hash_token : Argon → List ℕ → List ℕ → List ℕ
hash_token argon salt plaintext = join b'$' (
    []
    ∷ hash_name
    ∷ argon.print_version argon_version
    ∷ argon.print_cost argon_cost
    ∷ argon.encode_std salt
    ∷ argon.encode_std (argon.id_key plaintext salt argon_cost argon_key_len)
    ∷ [])

-- `GenerateServiceToken`: the plaintext and its hash.
unfoldable pub generate_service_token :
    Argon → List ℕ → Option (List ℕ) → Option (List ℕ) → Result ServiceTokenError (List ℕ × List ℕ)
generate_service_token argon slug random salt = if is_empty slug then err slug_required else do
  bytes ← or_fail random random_failed
  salt ← or_fail salt random_failed
  let plaintext = token_prefix ++ (slug ++ b'_' ∷ encode bytes)
  ok (plaintext, hash_token argon salt plaintext)

-- A letter in lower case, a digit or a hyphen.
abbrev pub is_slug_byte : ℕ → Bool
is_slug_byte c = (leb b'a' c && leb c b'z') || (leb b'0' c && leb c b'9') || eqb c b'-'

abbrev guard_slug : Option (List ℕ × List ℕ) → Option (List ℕ)
guard_slug none = none
guard_slug (some (slug, rest)) =
    if is_empty slug || is_empty rest
    then none
    else if all is_slug_byte slug && leb (length slug) 63
    then some slug
    else none

abbrev slug_in : Option (List ℕ) → Option (List ℕ)
slug_in none = none
slug_in (some rest) = guard_slug (split_two b'_' rest)

-- `WorkspaceSlugFromToken`; `none` is its one error.
unfoldable pub workspace_slug_from_token : List ℕ → Option (List ℕ)
workspace_slug_from_token token = slug_in (strip_prefix token_prefix token)

pub record ArgonParsed : Type 0 where
  pub salt : List ℕ
  pub hash : List ℕ
  pub cost : Cost

abbrev guard_hash : Bool → Result ServiceTokenError (Unit {0})
guard_hash fine = if fine then ok tt else err malformed_hash

abbrev parse_parts : Argon → List (List ℕ) → Result ServiceTokenError ArgonParsed
parse_parts argon (empty ∷ name ∷ version ∷ cost ∷ salt ∷ hash ∷ []) = do
  guard_hash (is_empty empty && name == hash_name)
  v ← or_fail (argon.scan_version version) malformed_hash
  guard_hash (eqb v argon_version)
  cost ← or_fail (argon.scan_cost cost) malformed_hash
  salt ← or_fail (argon.decode_std salt) malformed_hash
  hash ← or_fail (argon.decode_std hash) malformed_hash
  ok (record { salt = salt; hash = hash; cost = cost })
parse_parts argon _ = err malformed_hash

-- `parseArgonHash`
unfoldable pub parse_argon_hash : Argon → List ℕ → Result ServiceTokenError ArgonParsed
parse_argon_hash argon s = parse_parts argon (split b'$' s)

abbrev compare_hash : Argon → List ℕ → ArgonParsed → Result ServiceTokenError (Unit {0})
compare_hash argon token p =
    if argon.id_key token p.salt p.cost (length p.hash) == p.hash then ok tt else err hash_mismatch

-- `VerifyServiceToken`
unfoldable pub verify_service_token : Argon → List ℕ → List ℕ → Result ServiceTokenError (Unit {0})
verify_service_token argon token stored = do
  parsed ← parse_argon_hash argon stored
  compare_hash argon token parsed

abbrev hex_of_first : Option (List ℕ × List ℕ) → List ℕ
hex_of_first none = []
hex_of_first (some (first, rest)) = hex first

abbrev hex_of_bytes : Option (List ℕ) → List ℕ
hex_of_bytes none = []
hex_of_bytes (some bytes) = hex_of_first (cut 8 bytes)

abbrev fingerprint_parts : Option (List ℕ × List ℕ) → List ℕ
fingerprint_parts none = []
fingerprint_parts (some (slug, rest)) =
    if is_empty slug || is_empty rest then [] else hex_of_bytes (decode rest)

abbrev fingerprint_rest : Option (List ℕ) → List ℕ
fingerprint_rest none = []
fingerprint_rest (some rest) = fingerprint_parts (split_two b'_' rest)

-- `FingerprintToken`
unfoldable pub fingerprint_token : List ℕ → List ℕ
fingerprint_token token = fingerprint_rest (strip_prefix token_prefix token)
