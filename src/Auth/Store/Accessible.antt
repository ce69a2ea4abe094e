-- ===== src/Auth/Store/Accessible.antt =====
-- The profile of a user, and the workspaces that the user can switch to
-- (apps/api/internal/auth/store.go). The order of the slugs is the database's: `before` is a parameter.
use lecrm.Common.{
  ℕ, Bool, Option, none, some, List, [], ◌∷◌, any, ◌==◌, nat_eq, codes_eq, if◌then◌else◌, Result,
  ok, err,
}
use lecrm.Common.Text.{codes}
use lecrm.Members.{User, Membership, find_role}
use lecrm.Auth.Store.{Workspace, IntegratorGrant, StoreError, statement_failed, is_grant}

-- `COALESCE` of a text with the empty one.
abbrev pub or_empty : Option (List ℕ) → List ℕ
or_empty none = []
or_empty (some text) = text

unfoldable pub find_profile : ℕ → List User → List ℕ × List ℕ
find_profile user [] = ([], [])
find_profile user (u ∷ users) =
    let rest = find_profile user users in
    if u.id == user then (or_empty u.email, or_empty u.display_name) else rest

-- `GetUserProfile`: e-mail address and name, empty for a user who is not there.
unfoldable pub get_user_profile : Bool → ℕ → List User → Result StoreError (List ℕ × List ℕ)
get_user_profile fails user users =
    if fails then err statement_failed else ok (find_profile user users)

pub record AccessibleWorkspace : Type 0 where
  pub slug : List ℕ
  pub role : List ℕ

-- The role that is shown: that of a grant, or else that of the membership.
unfoldable pub accessible_role :
    (List ℕ → List ℕ)
    → ℕ
    → List ℕ
    → List Membership
    → List IntegratorGrant
    → Workspace
    → Option (List ℕ)
accessible_role lower user email members grants w =
    if w.tombstoned
    then none
    else if any (is_grant lower w.id email) grants
    then some (codes "integrator")
    else find_role w.id user members

abbrev add_row : Workspace → Option (List ℕ) → List AccessibleWorkspace → List AccessibleWorkspace
add_row w none rest = rest
add_row w (some role) rest = record { slug = w.slug; role = role } ∷ rest

unfoldable pub select_accessible :
    (List ℕ → List ℕ)
    → ℕ
    → List ℕ
    → List Membership
    → List IntegratorGrant
    → List Workspace
    → List AccessibleWorkspace
select_accessible lower user email members grants [] = []
select_accessible lower user email members grants (w ∷ workspaces) =
    add_row w (accessible_role lower user email members grants w)
      (select_accessible lower user email members grants workspaces)

unfoldable pub place_workspace :
    (List ℕ → List ℕ → Bool)
    → AccessibleWorkspace
    → List AccessibleWorkspace
    → List AccessibleWorkspace
place_workspace before a [] = a ∷ []
place_workspace before a (b ∷ rest) =
    let placed = place_workspace before a rest in
    if before b.slug a.slug then b ∷ placed else a ∷ b ∷ rest

-- `ORDER BY w.slug`
unfoldable pub sort_workspaces :
    (List ℕ → List ℕ → Bool) → List AccessibleWorkspace → List AccessibleWorkspace
sort_workspaces before [] = []
sort_workspaces before (a ∷ rest) = place_workspace before a (sort_workspaces before rest)

-- `ListAccessibleWorkspaces`
unfoldable pub list_accessible_workspaces :
    Bool
    → (List ℕ → List ℕ → Bool)
    → (List ℕ → List ℕ)
    → ℕ
    → List ℕ
    → List Workspace
    → List Membership
    → List IntegratorGrant
    → Result StoreError (List AccessibleWorkspace)
list_accessible_workspaces fails before lower user email workspaces members grants =
    if fails
    then err statement_failed
    else ok (sort_workspaces before (select_accessible lower user email members grants workspaces))
