-- ===== src/Auth/Handlers.antt =====
-- The routes under /auth (apps/api/internal/auth/handlers.go). A response is its status, the cookies
-- that it sets and what it says; the URL of the identity provider is left out. The random source,
-- the identity provider and the fresh identifiers are parameters of a call.

pub mod Urls
pub mod Switch
pub mod Logout
use lecrm.Common.{
  ℕ, ◌+◌, ◌*◌, ◌/◌, Bool, true, false, ◌&&◌, ◌||◌, not, Option, none, some, List, [], ◌∷◌, ◌++◌,
  is_empty, ltb, eqb, ◌==◌, codes_eq, if◌then◌else◌, Result, ok, err,
}
use lecrm.Common.Int.{ℤ, negsuc}
use lecrm.Common.Text.{codes}
use lecrm.Members.{Directory}
use lecrm.Auth.Codec.{Json, Crypto}
use lecrm.Auth.Session.{Session, AuthRequest, encode_auth_request, decode_auth_request}
use lecrm.Auth.SessionV2.{Codecs, encode_session_v2, session_from_request_v2}
use lecrm.Auth.Cookie.{
  CookieScope, Cookie, CookieError, build_session_cookie, build_state_cookie, clear_session_cookie,
  subdomain_from_host,
}
use lecrm.Auth.Revocation.{
  Revocations, RevocationCache, is_revoked, revoke_session, revoke_all_user_sessions,
}
use lecrm.Auth.Store.Accessible.{get_user_profile}
use lecrm.Auth.Store.{
  Workspace, IntegratorGrant, StoreError, workspace_not_found, workspace_by_slug, upsert_user,
  ensure_member_with_role, integrator_grant_exists,
}

-- What a `Handler` is made of.
pub record Config : Type 0 where
  pub crypto : Crypto
  pub v1 : Json Session
  pub codecs : Codecs
  pub request : Json AuthRequest
  pub session_secret : List ℕ
  pub state_secret : List ℕ
  pub domain_tld : List ℕ
  pub cookie_secure : Bool
  pub callback_path : List ℕ
  pub sum64 : ℕ → ℕ

-- The tables that the routes use, and the cache of the revocations, if there is one.
pub record World : Type 0 where
  pub directory : Directory
  pub workspaces : List Workspace
  pub grants : List IntegratorGrant
  pub revocations : Revocations
  pub cache : Option RevocationCache

-- Which statements fail.
pub record Faults : Type 0 where
  pub point_query : Bool
  pub revocation : Bool
  pub workspace : Bool
  pub user : Bool
  pub grant : Bool
  pub member : Bool
  pub profile : Bool
  pub accessible : Bool

-- A workspace to switch to.
pub record WorkspaceEntry : Type 0 where
  pub slug : List ℕ
  pub role : List ℕ
  pub url : List ℕ

pub data Said : Type 0 where
  nothing : Said
  -- the user, the workspace and the slug, the e-mail address and the name
  identity : ℕ → ℕ → List ℕ → List ℕ × List ℕ → Said
  switches : List WorkspaceEntry → Said

pub record Response : Type 0 where
  pub status : ℕ
  pub cookies : List Cookie
  pub said : Said

abbrev pub refuse : ℕ → Response
refuse status = record { status = status; cookies = []; said = nothing }

abbrev pub or_false : Result (Unit {0}) Bool → Bool
or_false (ok b) = b
or_false (err e) = false

abbrev checked : Config → Faults → ℕ → World → Option RevocationCache → Session → Bool
checked cfg faults now w none s = false
checked cfg faults now w (some rc) s =
    or_false
      (is_revoked cfg.sum64 faults.point_query now w.revocations rc s.jti s.user_id s.issued_at)

-- `isRevoked`: false where there is no cache, and where the query fails.
unfoldable pub session_revoked : Config → Faults → ℕ → World → Session → Bool
session_revoked cfg faults now w s = checked cfg faults now w w.cache s

abbrev pub scope_of : Config → List ℕ → CookieScope
scope_of cfg slug = record {
  workspace_subdomain = slug;
  domain_tld = cfg.domain_tld;
  secure = cfg.cookie_secure;
}

abbrev pub request_session : Config → ℕ → List ℕ → Option (List ℕ) → Option (Session × Bool)
request_session cfg now slug cookie =
    session_from_request_v2 cfg.crypto cfg.v1 cfg.codecs cfg.session_secret slug now cookie

abbrev pub cookie_list : Result CookieError Cookie → List Cookie
cookie_list (ok c) = c ∷ []
cookie_list (err e) = []

abbrev upgraded_cookie : {E : Type 0} → Config → List ℕ → Result E (List ℕ) → List Cookie
upgraded_cookie cfg slug (err e) = []
upgraded_cookie cfg slug (ok token) = cookie_list (build_session_cookie (scope_of cfg slug) token)

-- The cookie that replaces one of the first kind.
abbrev upgrade : Config → ℕ → ℕ → Option (List ℕ) → List ℕ → Session × Bool → List Cookie
upgrade cfg now fresh random slug (s, needs_upgrade) =
    if needs_upgrade
    then upgraded_cookie cfg slug
        (encode_session_v2 cfg.crypto cfg.codecs cfg.session_secret slug now fresh random s)
    else []

-- The profile of the user of a session, empty where it cannot be read.
abbrev pub profile_or_empty : Result StoreError (List ℕ × List ℕ) → List ℕ × List ℕ
profile_or_empty (ok profile) = profile
profile_or_empty (err e) = ([], [])

abbrev pub profile_of : Faults → World → Session → List ℕ × List ℕ
profile_of faults w s =
    profile_or_empty (get_user_profile faults.profile s.user_id w.directory.users)

abbrev me_session :
    Config → Faults → ℕ → ℕ → Option (List ℕ) → World → List ℕ → Option (Session × Bool) → Response
me_session cfg faults now fresh random w slug none = refuse 401
me_session cfg faults now fresh random w slug (some (s, needs_upgrade)) =
    if session_revoked cfg faults now w s then refuse 401 else record {
      status = 200;
      cookies = upgrade cfg now fresh random slug (s, needs_upgrade);
      said = identity s.user_id s.workspace_id slug (profile_of faults w s);
    }

abbrev me_slug :
    Config → Faults → ℕ → ℕ → Option (List ℕ) → Option (List ℕ) → World → Option (List ℕ) → Response
me_slug cfg faults now fresh random cookie w none = refuse 404
me_slug cfg faults now fresh random cookie w (some slug) =
    me_session cfg faults now fresh random w slug (request_session cfg now slug cookie)

-- `Me`, of the host and the session cookie.
unfoldable pub me :
    Config → Faults → ℕ → ℕ → Option (List ℕ) → List ℕ → Option (List ℕ) → World → Response
me cfg faults now fresh random host cookie w =
    me_slug cfg faults now fresh random cookie w (subdomain_from_host host cfg.domain_tld)

abbrev with_revocations : World → Revocations × Bool → World
with_revocations w (db, done) = record w { revocations = db }

-- `revokeJTI`, for a session that has an identifier.
abbrev revoke_jti : Faults → World → Option (Session × Bool) → World
revoke_jti faults w none = w
revoke_jti faults w (some (s, needs_upgrade)) =
    if eqb s.jti 0
    then w
    else with_revocations w
        (revoke_session faults.revocation s.jti s.user_id s.expires_at w.revocations)

abbrev cleared : Result CookieError Cookie → Response
cleared (ok c) = record { status = 204; cookies = c ∷ []; said = nothing }
cleared (err e) = refuse 500

abbrev logout_slug :
    Config → Faults → ℕ → Option (List ℕ) → World → Option (List ℕ) → Response × World
logout_slug cfg faults now cookie w none = (refuse 404, w)
logout_slug cfg faults now cookie w (some slug) = (
  cleared (clear_session_cookie (scope_of cfg slug)),
  revoke_jti faults w (request_session cfg now slug cookie),
)

-- `Logout`
unfoldable pub logout : Config → Faults → ℕ → List ℕ → Option (List ℕ) → World → Response × World
logout cfg faults now host cookie w =
    logout_slug cfg faults now cookie w (subdomain_from_host host cfg.domain_tld)

abbrev revoked_status : World → Revocations × Bool → Response × World
revoked_status w (db, true) = (refuse 204, record w { revocations = db })
revoked_status w (db, false) = (refuse 500, w)

-- A body that does not decode, and one with no UUID, are both `none`.
abbrev revoke_target : Faults → World → Session → Option ℕ → Response × World
revoke_target faults w s none = (refuse 400, w)
revoke_target faults w s (some target) =
    revoked_status w (revoke_session faults.revocation target s.user_id s.expires_at w.revocations)

-- A route that only a session in force can take.
abbrev pub with_live :
    Config
    → Faults
    → ℕ
    → World
    → (Session → Response × World)
    → Option (Session × Bool)
    → Response × World
with_live cfg faults now w next none = (refuse 401, w)
with_live cfg faults now w next (some (s, needs_upgrade)) =
    if session_revoked cfg faults now w s then (refuse 401, w) else next s

abbrev pub with_slug :
    Config
    → Faults
    → ℕ
    → Option (List ℕ)
    → World
    → (Session → Response × World)
    → Option (List ℕ)
    → Response × World
with_slug cfg faults now cookie w next none = (refuse 404, w)
with_slug cfg faults now cookie w next (some slug) =
    with_live cfg faults now w next (request_session cfg now slug cookie)

-- `Revoke`, of the identifier in the body.
unfoldable pub revoke :
    Config → Faults → ℕ → List ℕ → Option (List ℕ) → Option ℕ → World → Response × World
revoke cfg faults now host cookie target w =
    with_slug cfg faults now cookie w (λ s. revoke_target faults w s target)
      (subdomain_from_host host cfg.domain_tld)

-- `RevokeAll`
unfoldable pub revoke_all :
    Config → Faults → ℕ → List ℕ → Option (List ℕ) → World → Response × World
revoke_all cfg faults now host cookie w =
    with_slug cfg faults now cookie w
      (λ s.
        revoked_status w (revoke_all_user_sessions faults.revocation now s.user_id w.revocations))
      (subdomain_from_host host cfg.domain_tld)
