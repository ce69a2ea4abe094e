-- ===== src/Tests/Identity.antt =====
-- A workspace with one user, and toy versions of the packages that the sessions rest on.
use lecrm.Common.{
  ℕ, true, false, Option, none, some, List, [], ◌∷◌, ◌++◌, codes_eq, ◌≡◌, refl, ok, err, arith,
}
use lecrm.Common.Text.{codes, to_lower, trim_space, trim_left, is_space}
use lecrm.Encoding.Base64.{encode, symbol}
use lecrm.Auth.Codec.{Json, Crypto, IsCrypto, sign, split_two}
use lecrm.Auth.Session.{Session, AuthRequest}
use lecrm.Auth.SessionV2.{
  OuterClaims, Codecs, put_uint32, encrypt_aes_gcm, completed, seal_session, encode_session_v2,
}
use lecrm.Auth.SessionV2.Binding.{CanSeal, session_from_request_v2-encode_session_v2}
use lecrm.Auth.Cookie.{subdomain_from_host, strip_suffix}
use lecrm.Auth.Store.{Workspace}
use lecrm.Auth.Handlers.{Config, Faults, World, request_session}

-- A digest of one byte, and a cipher that hides nothing.
abbrev pub toy_crypto : Crypto
toy_crypto = record {
  hmac = λ key text. 7 ∷ [];
  sha256 = λ text. 8 ∷ [];
  derive_key = λ secret slug. some (9 ∷ []);
  seal = λ key nonce text aad. text;
  open_sealed = λ key nonce text aad. some text;
}

toy_crypto-IsCrypto : IsCrypto toy_crypto
toy_crypto-IsCrypto = record {
  hmac_bytes = λ key text. omega arith;
  sha256_bytes = λ text. omega arith;
  seal_bytes = λ key nonce text aad plain. plain;
  open-seal = λ key nonce text aad. refl;
}

abbrev marshal_session : Session → List ℕ
marshal_session s = s.user_id ∷ s.workspace_id ∷ s.jti ∷ s.issued_at ∷ s.expires_at ∷ []

abbrev unmarshal_session : List ℕ → Option Session
unmarshal_session (u ∷ w ∷ j ∷ i ∷ e ∷ []) =
    some (record { user_id = u; workspace_id = w; jti = j; issued_at = i; expires_at = e })
unmarshal_session _ = none

abbrev pub session_json : Json Session
session_json = record { marshal = marshal_session; unmarshal = unmarshal_session }

-- The slug of the claims is that of the toy workspace.
abbrev marshal_outer : OuterClaims → List ℕ
marshal_outer o = o.expires_at ∷ o.slug ++ o.inner_hash

abbrev unmarshal_outer : List ℕ → Option OuterClaims
unmarshal_outer (e ∷ a ∷ b ∷ c ∷ d ∷ hash) =
    some (record { slug = a ∷ b ∷ c ∷ d ∷ []; expires_at = e; inner_hash = hash })
unmarshal_outer _ = none

abbrev pub codecs : Codecs
codecs = record {
  inner = session_json;
  outer = record { marshal = marshal_outer; unmarshal = unmarshal_outer };
}

abbrev pub secret : List ℕ
secret = codes "secret"

abbrev pub acme : List ℕ
acme = codes "acme"

abbrev pub session : Session
session = record { user_id = 3; workspace_id = 1; jti = 5; issued_at = 10; expires_at = 100 }

abbrev pub nonce : List ℕ
nonce = 0 ∷ 1 ∷ 2 ∷ 3 ∷ 4 ∷ 5 ∷ 6 ∷ 7 ∷ 8 ∷ 9 ∷ 10 ∷ 11 ∷ []

pub can_seal : CanSeal toy_crypto codecs secret acme (9 ∷ []) nonce (completed 10 6 session)
unfolding encrypt_aes_gcm put_uint32 encode symbol
can_seal = record {
  laws = toy_crypto-IsCrypto;
  keyed = refl;
  sized = refl;
  nonce_bytes = omega arith;
  inner_trips = (omega arith, refl);
  outer_trips = (omega arith, refl);
}

unfoldable pub token : List ℕ
unfolding encrypt_aes_gcm put_uint32 encode symbol sign
token = elim (encode_session_v2 toy_crypto codecs secret acme 10 6 (some nonce) session) [
  | ok text ↦ text
  | err e ↦ []
]

pub token_made :
    encode_session_v2 toy_crypto codecs secret acme 10 6 (some nonce) session ≡ ok token
unfolding token encode_session_v2 seal_session encrypt_aes_gcm put_uint32 encode symbol sign
token_made = refl

-- A request of a login that is always the same.
abbrev pub request : AuthRequest
request = record {
  state = codes "s";
  code_verifier = codes "v";
  workspace_subdomain = acme;
  redirect_uri = codes "r";
  issued_at = 5;
}

abbrev request_json : Json AuthRequest
request_json = record { marshal = λ r. 1 ∷ []; unmarshal = λ text. some request }

abbrev pub config : Config
config = record {
  crypto = toy_crypto;
  v1 = session_json;
  codecs = codecs;
  request = request_json;
  session_secret = secret;
  state_secret = secret;
  domain_tld = codes "test";
  cookie_secure = true;
  callback_path = codes "/auth/callback";
  sum64 = λ jti. jti;
}

abbrev pub host : List ℕ
host = codes "acme.test"

abbrev pub workspaces : List Workspace
workspaces = record { id = 1; slug = acme; tombstoned = false } ∷ []

abbrev pub no_faults : Faults
no_faults = record {
  point_query = false;
  revocation = false;
  workspace = false;
  user = false;
  grant = false;
  member = false;
  profile = false;
  accessible = false;
}

abbrev pub world : World
world = record {
  directory = record { users = []; members = [] };
  workspaces = workspaces;
  grants = [];
  revocations = record { sessions = []; users = [] };
  cache = none;
}

pub named : subdomain_from_host host config.domain_tld ≡ some acme
unfolding subdomain_from_host strip_suffix split_two to_lower trim_space trim_left is_space
named = refl

pub is_session : request_session config 60 acme (some token) ≡ some (completed 10 6 session, false)
is_session =
    session_from_request_v2-encode_session_v2 toy_crypto session_json codecs secret acme acme
      (9 ∷ []) nonce token 10 6 60 session can_seal token_made
