-- ===== src/Auth/Middleware.antt =====
-- What a request under /v1 passes first (apps/api/internal/workspace/middleware.go, resolver.go), and
-- the routes behind it as they are mounted (apps/api/internal/http/server.go,
-- apps/api/cmd/lecrm-api/main.go).
pub mod Identity
pub mod Anonymous
use lecrm.Common.{
  ℕ, Bool, true, false, ◌&&◌, ◌||◌, not, Option, none, some, List, [], ◌∷◌, is_empty, ◌==◌,
  codes_eq, if◌then◌else◌, Result, ok, err,
}
use lecrm.Rbac.Middleware as Gates
use lecrm.Rbac.Middleware.{Method, RoleLookup, Response}
use lecrm.Rbac.Admission.{crm_route}
use lecrm.Auth.Codec.{Json}
use lecrm.Auth.Session.{Session}
use lecrm.Auth.Cookie.{subdomain_of}
use lecrm.Auth.Token.{Argon, ServiceTokenError}
use lecrm.Auth.TokenStore.{TokenRow, BearerActor, authenticate}
use lecrm.Auth.TokenStore.Admin.{CreateServiceTokenInput, handle_create, handle_delete}
use lecrm.Auth.Store.{
  Workspace, StoreError, workspace_not_found, missing_argument, statement_failed, or_not_found,
}
use lecrm.Auth.Handlers.{Config, request_session}

pub record HttpRequest : Type 0 where
  pub method : Method
  pub host : List ℕ
  -- the Authorization header, empty where there is none
  pub authorization : List ℕ
  -- the value of the session cookie
  pub cookie : Option (List ℕ)

-- What the middleware is made with, the moment, and which statements fail.
pub record Edge : Type 0 where
  pub config : Config
  pub argon : Argon
  pub json : Json (List (List ℕ))
  pub workspaces : List Workspace
  pub now : ℕ
  pub resolve_fails : Bool
  pub load_fails : Bool
  pub touch_fails : Bool

pub data MiddlewareError : Type 0 where
  subdomain_required workspace_unknown resolve_failed invalid_bearer : MiddlewareError

abbrev pub refused_status : MiddlewareError → ℕ
refused_status subdomain_required = 400
refused_status workspace_unknown = 404
refused_status resolve_failed = 500
refused_status invalid_bearer = 401

-- What the context of a request carries on.
pub record Scoped : Type 0 where
  pub workspace : ℕ
  pub slug : List ℕ
  pub bearer : Option BearerActor

unfoldable pub find_live : List ℕ → List Workspace → Option ℕ
find_live slug [] = none
find_live slug (w ∷ workspaces) =
    let rest = find_live slug workspaces in
    if w.slug == slug && not w.tombstoned then some w.id else rest

-- `WorkspaceBySlugFull`, which finds no workspace that was tombstoned.
unfoldable pub workspace_by_slug_full : Bool → List ℕ → List Workspace → Result StoreError ℕ
workspace_by_slug_full fails slug workspaces =
    if is_empty slug
    then err missing_argument
    else if fails
    then err statement_failed
    else or_not_found (find_live slug workspaces)

abbrev with_bearer :
    ℕ
    → List ℕ
    → Result ServiceTokenError (Option BearerActor) × List TokenRow
    → Result MiddlewareError Scoped × List TokenRow
with_bearer ws slug (ok bearer, rows) =
    (ok (record { workspace = ws; slug = slug; bearer = bearer }), rows)
with_bearer ws slug (err e, rows) = (err invalid_bearer, rows)

abbrev in_workspace :
    Edge
    → HttpRequest
    → List ℕ
    → List TokenRow
    → Result StoreError ℕ
    → Result MiddlewareError Scoped × List TokenRow
in_workspace edge r slug rows (err workspace_not_found) = (err workspace_unknown, rows)
in_workspace edge r slug rows (err e) = (err resolve_failed, rows)
in_workspace edge r slug rows (ok ws) =
    if is_empty r.authorization
    then (ok (record { workspace = ws; slug = slug; bearer = none }), rows)
    else with_bearer ws slug (
        authenticate edge.argon edge.json edge.load_fails edge.touch_fails edge.now ws slug
          r.authorization rows)

abbrev in_slug :
    Edge
    → HttpRequest
    → List TokenRow
    → Option (List ℕ)
    → Result MiddlewareError Scoped × List TokenRow
in_slug edge r rows none = (err subdomain_required, rows)
in_slug edge r rows (some slug) =
    in_workspace edge r slug rows (workspace_by_slug_full edge.resolve_fails slug edge.workspaces)

-- `MiddlewareWithBearer`
unfoldable pub middleware :
    Edge → HttpRequest → List TokenRow → Result MiddlewareError Scoped × List TokenRow
middleware edge r rows = in_slug edge r rows (subdomain_of r.host edge.config.domain_tld)

abbrev pub gate_session : Option (Session × Bool) → Option Gates.Session
gate_session none = none
gate_session (some (s, old)) = some (record { workspace_id = s.workspace_id; user_id = s.user_id })

abbrev pub gate_bearer : Option BearerActor → Option Gates.BearerActor
gate_bearer none = none
gate_bearer (some actor) = some (record { scopes = actor.scopes; actor_type = actor.actor_type })

-- What the gates look at; the session is decoded for the slug of the workspace.
abbrev pub gate_request : Edge → HttpRequest → Scoped → Gates.Request
gate_request edge r scoped = record {
  method = r.method;
  workspace = some scoped.workspace;
  bearer = gate_bearer scoped.bearer;
  session = gate_session (request_session edge.config edge.now scoped.slug r.cookie);
}

abbrev behind :
    {A : Type 0}
    → (Scoped → A)
    → Result MiddlewareError Scoped × List TokenRow
    → Result MiddlewareError A × List TokenRow
behind next (ok scoped, rows) = (ok (next scoped), rows)
behind next (err e, rows) = (err e, rows)

-- A request on the CRM routes.
unfoldable pub serve_crm :
    Edge
    → RoleLookup
    → HttpRequest
    → List TokenRow
    → Result MiddlewareError Response × List TokenRow
serve_crm edge store r rows =
    behind (λ scoped. crm_route store (gate_request edge r scoped) none) (middleware edge r rows)

abbrev create_behind :
    Edge
    → Bool
    → ℕ
    → Option (List ℕ)
    → Option (List ℕ)
    → Option CreateServiceTokenInput
    → Result MiddlewareError Scoped × List TokenRow
    → ℕ × Option (List ℕ) × List TokenRow
create_behind edge fails id random salt body (err e, rows) = (refused_status e, none, rows)
create_behind edge fails id random salt body (ok scoped, rows) =
    handle_create edge.argon edge.json fails id random salt scoped.workspace scoped.slug body rows

-- POST /v1/workspace/tokens
unfoldable pub serve_create_token :
    Edge
    → Bool
    → ℕ
    → Option (List ℕ)
    → Option (List ℕ)
    → Option CreateServiceTokenInput
    → HttpRequest
    → List TokenRow
    → ℕ × Option (List ℕ) × List TokenRow
serve_create_token edge fails id random salt body r rows =
    create_behind edge fails id random salt body (middleware edge r rows)

abbrev delete_behind :
    Bool → Option ℕ → Result MiddlewareError Scoped × List TokenRow → ℕ × List TokenRow
delete_behind fails id (err e, rows) = (refused_status e, rows)
delete_behind fails id (ok scoped, rows) = handle_delete fails scoped.workspace id rows

-- DELETE /v1/workspace/tokens/{id}
unfoldable pub serve_delete_token :
    Edge → Bool → Option ℕ → HttpRequest → List TokenRow → ℕ × List TokenRow
serve_delete_token edge fails id r rows = delete_behind fails id (middleware edge r rows)
