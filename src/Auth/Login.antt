-- ===== src/Auth/Login.antt =====
-- The OIDC login (apps/api/internal/auth/handlers.go: Login, Callback; oidc.go: BuildAuthURL,
-- Exchange). The identity provider is a parameter: the claims that it gives for a code and a verifier.
-- The clock counts nanoseconds here, and sessions whole seconds of it.
pub mod Finished
pub mod LoggedIn
use lecrm.Common.{
  ℕ, ◌/◌, Bool, true, false, ◌&&◌, ◌||◌, not, Option, none, some, List, [], ◌∷◌, ◌++◌, is_empty,
  ◌==◌, codes_eq, if◌then◌else◌, Result, ok, err,
}
use lecrm.Common.Int.{ℤ, negsuc}
use lecrm.Common.Text.{codes}
use lecrm.Members.{Directory}
use lecrm.Auth.Session.{Session, AuthRequest, encode_auth_request, decode_auth_request}
use lecrm.Auth.SessionV2.{encode_session_v2}
use lecrm.Auth.Codec.{TokenError}
use lecrm.Auth.Cookie.{
  Cookie, CookieError, build_session_cookie, build_state_cookie, subdomain_from_host,
}
use lecrm.Auth.Store.{
  StoreError, workspace_not_found, workspace_by_slug, upsert_user, ensure_member_with_role,
  integrator_grant_exists,
}
use lecrm.Auth.Handlers.Urls.{redirect_uri_for}
use lecrm.Auth.Handlers.{Config, World, Faults, Response, nothing, refuse, scope_of, cookie_list}

pub record Claims : Type 0 where
  pub issuer : List ℕ
  pub subject : List ℕ
  pub email : List ℕ
  pub name : List ℕ

-- The random texts of a login, the moment, the identifiers at hand and PostgreSQL's `lower`.
pub record Call : Type 0 where
  pub now : ℕ
  pub state : Option (List ℕ)
  pub verifier : Option (List ℕ)
  pub fresh_user : ℕ
  pub fresh_jti : ℕ
  pub random : Option (List ℕ)
  pub lower : List ℕ → List ℕ

-- `rp.CodeExchange`: code, verifier and redirect URI to claims.
abbrev pub Exchange : Type 0
Exchange = List ℕ → List ℕ → List ℕ → Option Claims

abbrev login_cookie : Result CookieError Cookie → Response
login_cookie (ok c) = record { status = 302; cookies = c ∷ []; said = nothing }
login_cookie (err e) = refuse 500

abbrev signed_request : Config → List ℕ → Result TokenError (List ℕ) → Response
signed_request cfg slug (err e) = refuse 500
signed_request cfg slug (ok token) = login_cookie (build_state_cookie (scope_of cfg slug) token)

abbrev login_request :
    Config → Call → List ℕ → List ℕ → Option (List ℕ) → Option (List ℕ) → Response
login_request cfg call host slug (some state) (some verifier) = signed_request cfg slug (
    encode_auth_request cfg.crypto cfg.request cfg.state_secret (record {
      state = state;
      code_verifier = verifier;
      workspace_subdomain = slug;
      redirect_uri = redirect_uri_for cfg slug host;
      issued_at = call.now;
    }))
login_request cfg call host slug _ _ = refuse 500

abbrev login_workspace : Config → Call → List ℕ → List ℕ → Result StoreError ℕ → Response
login_workspace cfg call host slug (ok id) =
    login_request cfg call host slug call.state call.verifier
login_workspace cfg call host slug (err workspace_not_found) = refuse 404
login_workspace cfg call host slug (err e) = refuse 500

abbrev login_slug : Config → Faults → Call → List ℕ → World → Option (List ℕ) → Response
login_slug cfg faults call host w none = refuse 404
login_slug cfg faults call host w (some slug) =
    login_workspace cfg call host slug (workspace_by_slug faults.workspace slug w.workspaces)

-- `Login`
unfoldable pub login : Config → Faults → Call → List ℕ → World → Response
login cfg faults call host w =
    login_slug cfg faults call host w (subdomain_from_host host cfg.domain_tld)

abbrev expire : Cookie → Cookie
expire c = record c { max_age = negsuc 0 }

abbrev expired_cookies : List Cookie → List Cookie
expired_cookies [] = []
expired_cookies (c ∷ cookies) = expire c ∷ []

abbrev set_session : Config → List ℕ → Result CookieError Cookie → Response
set_session cfg slug (err e) = refuse 500
set_session cfg slug (ok c) = record {
  status = 302;
  cookies = c ∷ expired_cookies (cookie_list (build_state_cookie (scope_of cfg slug) []));
  said = nothing;
}

abbrev give_session : Config → List ℕ → Result TokenError (List ℕ) → Response
give_session cfg slug (err e) = refuse 500
give_session cfg slug (ok token) =
    set_session cfg slug (build_session_cookie (scope_of cfg slug) token)

abbrev pub seconds : ℕ → ℕ
seconds nanoseconds = nanoseconds / 1000000000

abbrev pub new_session : ℕ → ℕ → Session
new_session user ws = record {
  user_id = user;
  workspace_id = ws;
  jti = 0;
  issued_at = 0;
  expires_at = 0;
}

abbrev joined :
    Config
    → Call
    → List ℕ
    → ℕ
    → ℕ
    → World
    → Result StoreError (Unit {0}) × Directory
    → Response × World
joined cfg call slug ws user w (err e, d) = (refuse 500, record w { directory = d })
joined cfg call slug ws user w (ok u, d) = (
  give_session cfg slug (
      encode_session_v2 cfg.crypto cfg.codecs cfg.session_secret slug (seconds call.now)
        call.fresh_jti call.random (new_session user ws)),
  record w { directory = d },
)

abbrev pub granted_role : Result StoreError Bool → List ℕ
granted_role (ok true) = codes "integrator"
granted_role (ok false) = codes "member"
granted_role (err e) = codes "member"

abbrev known_user :
    Config
    → Faults
    → Call
    → List ℕ
    → ℕ
    → Claims
    → World
    → Result StoreError ℕ × Directory
    → Response × World
known_user cfg faults call slug ws claims w (err e, d) = (refuse 500, record w { directory = d })
known_user cfg faults call slug ws claims w (ok user, d) = joined cfg call slug ws user w (
    ensure_member_with_role faults.member (seconds call.now) ws user
      (granted_role (integrator_grant_exists faults.grant call.lower ws claims.email w.grants)) d)

abbrev known_workspace :
    Config → Faults → Call → List ℕ → Claims → World → Result StoreError ℕ → Response × World
known_workspace cfg faults call slug claims w (err e) = (refuse 500, w)
known_workspace cfg faults call slug claims w (ok ws) =
    known_user cfg faults call slug ws claims w (
      upsert_user faults.user call.fresh_user claims.issuer claims.subject claims.email claims.name
        w.directory)

abbrev exchanged : Config → Faults → Call → List ℕ → World → Option Claims → Response × World
exchanged cfg faults call slug w none = (refuse 500, w)
exchanged cfg faults call slug w (some claims) =
    if is_empty claims.issuer || is_empty claims.subject
    then (refuse 500, w)
    else known_workspace cfg faults call slug claims w
        (workspace_by_slug faults.workspace slug w.workspaces)

-- The parameters of the query of a callback, empty where they are missing.
pub record Query : Type 0 where
  pub error : List ℕ
  pub state : List ℕ
  pub code : List ℕ

abbrev checked_request :
    Config
    → Faults
    → Call
    → Exchange
    → List ℕ
    → Query
    → World
    → Result TokenError AuthRequest
    → Response × World
checked_request cfg faults call exchange slug query w (err e) = (refuse 400, w)
checked_request cfg faults call exchange slug query w (ok req) =
    if not (req.workspace_subdomain == slug)
    then (refuse 400, w)
    else if not (is_empty query.error)
    then (refuse 400, w)
    else if not (query.state == req.state)
    then (refuse 400, w)
    else if is_empty query.code
    then (refuse 400, w)
    else exchanged cfg faults call slug w (exchange query.code req.code_verifier req.redirect_uri)

abbrev callback_cookie :
    Config → Faults → Call → Exchange → List ℕ → Query → World → Option (List ℕ) → Response × World
callback_cookie cfg faults call exchange slug query w none = (refuse 400, w)
callback_cookie cfg faults call exchange slug query w (some value) =
    checked_request cfg faults call exchange slug query w
      (decode_auth_request cfg.crypto cfg.request cfg.state_secret call.now value)

abbrev callback_slug :
    Config
    → Faults
    → Call
    → Exchange
    → Option (List ℕ)
    → Query
    → World
    → Option (List ℕ)
    → Response × World
callback_slug cfg faults call exchange cookie query w none = (refuse 404, w)
callback_slug cfg faults call exchange cookie query w (some slug) =
    callback_cookie cfg faults call exchange slug query w cookie

-- `Callback`, of the host, the state cookie and the query.
unfoldable pub callback :
    Config → Faults → Call → Exchange → List ℕ → Option (List ℕ) → Query → World → Response × World
callback cfg faults call exchange host cookie query w =
    callback_slug cfg faults call exchange cookie query w (subdomain_from_host host cfg.domain_tld)
