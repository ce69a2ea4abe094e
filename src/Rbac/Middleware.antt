-- ===== src/Rbac/Middleware.antt =====
-- Who a request acts as, and what it may do (apps/api/internal/rbac/middleware.go, context.go).
-- What was found upstream is the request: the workspace, the verified bearer actor, the decoded
-- session. The role store is a parameter. Logging is left out.
use lecrm.Common.{
  ℕ, String, Bool, true, false, Option, none, some, List, ◌==◌, nat_eq, Result, ok, err,
  if◌then◌else◌,
}
use lecrm.Rbac.{Role, role_none, role_integrator, at_least, role_from_scopes}

pub data Method : Type 0 where
  get head options post put patch delete : Method
  other : String → Method

pub record BearerActor : Type 0 where
  pub scopes : List (List ℕ)
  pub actor_type : String

pub record Session : Type 0 where
  pub workspace_id : ℕ
  pub user_id : ℕ

pub record Request : Type 0 where
  pub method : Method
  -- the id of the workspace in the context
  pub workspace : Option ℕ
  pub bearer : Option BearerActor
  pub session : Option Session

-- `UserID` is 0 for a service token.
pub record Principal : Type 0 where
  pub role : Role
  pub user_id : ℕ
  pub actor_type : String
  pub is_service_token : Bool

-- `RoleLookup`: the stored role of a user in a workspace, none, or an error.
abbrev pub RoleLookup : Type 0
RoleLookup = ℕ → ℕ → Result (Unit {0}) (Option Role)

pub data Response : Type 0 where
  workspace_context_missing role_lookup_failed : Response
  authentication_required insufficient_role : Response
  -- the handler behind the gates runs, for this principal
  handled : Option Principal → Response

-- The status of a response that a gate writes.
abbrev pub status : Response → ℕ
status workspace_context_missing = 500
status role_lookup_failed = 500
status authentication_required = 401
status insufficient_role = 403
status (handled p) = 200

abbrev pub Handler : Type 0
Handler = Request → Option Principal → Response

abbrev pub actor_type_of : Role → String
actor_type_of role_integrator = "integrator"
actor_type_of _ = "human_api"

-- A request that no path resolves goes on as it came, with the principal `p` that it had, if any.
unfoldable pub with_role :
    Handler → Request → Option Principal → ℕ → Result (Unit {0}) (Option Role) → Response
with_role next r p user (err e) = role_lookup_failed
with_role next r p user (ok none) = next r p
with_role next r p user (ok (some role)) = next r (
    some (record {
      role = role;
      user_id = user;
      actor_type = actor_type_of role;
      is_service_token = false;
    }))

unfoldable pub with_session :
    RoleLookup → Handler → Request → Option Principal → ℕ → Option Session → Response
with_session store next r p ws none = next r p
with_session store next r p ws (some s) =
    if s.workspace_id == ws then with_role next r p s.user_id (store ws s.user_id) else next r p

unfoldable pub with_workspace :
    RoleLookup → Handler → Request → Option Principal → Option ℕ → Response
with_workspace store next r p none = workspace_context_missing
with_workspace store next r p (some ws) = elim r.bearer [
  | some actor ↦ next r (
      some (record {
        role = role_from_scopes actor.scopes;
        user_id = 0;
        actor_type = actor.actor_type;
        is_service_token = true;
      }))
  | none ↦ with_session store next r p ws r.session
]

-- `Resolver.Resolve`
unfoldable pub resolve : RoleLookup → Handler → Handler
unfolding with_workspace with_session with_role
resolve store next r p = with_workspace store next r p r.workspace

abbrev pub is_none_role : Role → Bool
is_none_role role_none = true
is_none_role _ = false

-- `RequireRole`
unfoldable pub require_role : Role → Handler → Handler
unfolding at_least
require_role min next r none = authentication_required
require_role min next r (some p) =
    if is_none_role p.role
    then authentication_required
    else if at_least p.role min
    then next r (some p)
    else insufficient_role

abbrev pub min_role : Method → Role → Role → Role
min_role get reading writing = reading
min_role head reading writing = reading
min_role options reading writing = reading
min_role _ reading writing = writing

-- `RequireRoleByMethod`
unfoldable pub require_role_by_method : Role → Role → Handler → Handler
unfolding require_role
require_role_by_method reading writing next r p =
    require_role (min_role r.method reading writing) next r p
