-- ===== src/Auth/Handlers/Switch.antt =====
-- The workspaces that the caller can switch to (apps/api/internal/auth/handlers.go: Workspaces).
pub mod Reaches
use lecrm.Common.{ℕ, Bool, Option, none, some, List, [], map, if◌then◌else◌, Result, ok, err}
use lecrm.Auth.Session.{Session}
use lecrm.Auth.Cookie.{subdomain_from_host}
use lecrm.Auth.Store.{StoreError}
use lecrm.Auth.Store.Accessible.{AccessibleWorkspace, list_accessible_workspaces}
use lecrm.Auth.Handlers.{
  Config, World, Faults, WorkspaceEntry, switches, Response, refuse, session_revoked,
  request_session, profile_of,
}
use lecrm.Auth.Handlers.Urls.{workspace_url}

abbrev pub entry_of : Config → List ℕ → AccessibleWorkspace → WorkspaceEntry
entry_of cfg host a = record { slug = a.slug; role = a.role; url = workspace_url cfg a.slug host }

abbrev pub listed : Config → List ℕ → Result StoreError (List AccessibleWorkspace) → Response
listed cfg host (err e) = refuse 500
listed cfg host (ok rows) = record {
  status = 200;
  cookies = [];
  said = switches (map (entry_of cfg host) rows);
}

abbrev pub list_for :
    Config
    → Faults
    → (List ℕ → List ℕ → Bool)
    → (List ℕ → List ℕ)
    → List ℕ
    → World
    → Session
    → Response
list_for cfg faults before lower host w s = listed cfg host (
    list_accessible_workspaces faults.accessible before lower s.user_id (profile_of faults w s).0
      w.workspaces w.directory.members w.grants)

abbrev pub list_live :
    Config
    → Faults
    → (List ℕ → List ℕ → Bool)
    → (List ℕ → List ℕ)
    → ℕ
    → List ℕ
    → World
    → Option (Session × Bool)
    → Response
list_live cfg faults before lower now host w none = refuse 401
list_live cfg faults before lower now host w (some (s, needs_upgrade)) =
    if session_revoked cfg faults now w s
    then refuse 401
    else list_for cfg faults before lower host w s

abbrev pub list_slug :
    Config
    → Faults
    → (List ℕ → List ℕ → Bool)
    → (List ℕ → List ℕ)
    → ℕ
    → List ℕ
    → Option (List ℕ)
    → World
    → Option (List ℕ)
    → Response
list_slug cfg faults before lower now host cookie w none = refuse 404
list_slug cfg faults before lower now host cookie w (some slug) =
    list_live cfg faults before lower now host w (request_session cfg now slug cookie)

-- `Workspaces`
unfoldable pub workspaces :
    Config
    → Faults
    → (List ℕ → List ℕ → Bool)
    → (List ℕ → List ℕ)
    → ℕ
    → List ℕ
    → Option (List ℕ)
    → World
    → Response
workspaces cfg faults before lower now host cookie w =
    list_slug cfg faults before lower now host cookie w (subdomain_from_host host cfg.domain_tld)
