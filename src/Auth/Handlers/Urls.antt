-- ===== src/Auth/Handlers/Urls.antt =====
-- The URLs of a workspace (apps/api/internal/auth/handlers.go: redirectURIFor, workspaceURL).
use lecrm.Common.{ℕ, Option, none, some, List, [], ◌∷◌, ◌++◌, if◌then◌else◌}
use lecrm.Common.Text.{codes}
use lecrm.Auth.Codec.{split_two}
use lecrm.Auth.Handlers.{Config}

abbrev port_part : Option (List ℕ × List ℕ) → List ℕ
port_part none = []
port_part (some (before, port)) = b':' ∷ port

-- Scheme and host; the port of the request is kept where there is no TLS.
abbrev pub base_url : Config → List ℕ → List ℕ → List ℕ
base_url cfg slug host =
    let name = slug ++ b'.' ∷ cfg.domain_tld in
    if cfg.cookie_secure
    then codes "https://" ++ name
    else codes "http://" ++ (name ++ port_part (split_two b':' host))

-- `redirectURIFor`
unfoldable pub redirect_uri_for : Config → List ℕ → List ℕ → List ℕ
redirect_uri_for cfg slug host = base_url cfg slug host ++ cfg.callback_path

-- `workspaceURL`
unfoldable pub workspace_url : Config → List ℕ → List ℕ → List ℕ
workspace_url cfg slug host = base_url cfg slug host ++ b'/' ∷ []
