-- ===== src/Tests/Access.antt =====
-- The gates of the routes, on a workspace with one admin.
use lecrm.Common.{ℕ, true, none, some, List, [], ◌∷◌, ok, if◌then◌else◌, eqb}
use lecrm.Common.Text.{codes}
use lecrm.Rbac.{role_admin}
use lecrm.Rbac.Middleware.{delete, BearerActor, Session, Request, RoleLookup}
use lecrm.WriteSafety.Authorize as Capability

-- User 3 is an admin of workspace 1.
abbrev store : RoleLookup
store ws user = ok (if eqb user 3 then some role_admin else none)

abbrev admin_session : Session
admin_session = record { workspace_id = 1; user_id = 3 }

abbrev foreign_session : Session
foreign_session = record { workspace_id = 2; user_id = 3 }

abbrev deletion : Request
deletion = record {
  method = delete;
  workspace = some 1;
  bearer = none;
  session = some admin_session;
}

abbrev foreign_deletion : Request
foreign_deletion = record deletion { session = some foreign_session }

abbrev reader_scopes : List (List ℕ)
reader_scopes = codes "contacts:read" ∷ []

abbrev writer_scopes : List (List ℕ)
writer_scopes = codes "contacts:read" ∷ codes " Deals:Write" ∷ []

abbrev reader : BearerActor
reader = record { scopes = reader_scopes; actor_type = "integrator" }

abbrev token_deletion : Request
token_deletion = record deletion { bearer = some reader }

abbrev agent : Capability.Principal
agent = record {
  workspace_id = 1;
  schema = "ws_one";
  role = Capability.role_admin;
  actor_type = "mcp";
  scopes = writer_scopes;
  is_service_token = true;
  read_role = "";
}
