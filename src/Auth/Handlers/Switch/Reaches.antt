-- ===== src/Auth/Handlers/Switch/Reaches.antt =====
-- Which workspaces are shown, and with which role.
use lecrm.Common.{
  ℕ, Bool, true, false, ◌&&◌, ◌||◌, not, Option, none, some, List, [], ◌∷◌, map, any, is_empty,
  ◌==◌, codes_eq, codes_beq_iff, nat_eq, All, ok, ◌≡◌, ◌⊎◌, inl, inr, refl, ap, ◌∙◌, arith,
  Option-cases, Bool-cases,
}
use lecrm.Common.Text.{codes}
use lecrm.Members.{Membership, find_role}
use lecrm.Auth.Session.{Session}
use lecrm.Auth.Cookie.{subdomain_from_host}
use lecrm.Auth.Store.{
  Workspace, IntegratorGrant, role_rank, is_valid_role, higher_role, joined_role, is_grant,
  integrator_grant_exists,
}
use lecrm.Auth.Store.Accessible.{
  AccessibleWorkspace, get_user_profile, accessible_role, select_accessible, place_workspace,
  sort_workspaces, list_accessible_workspaces,
}
use lecrm.Auth.Handlers.{Config, World, Faults, WorkspaceEntry, switches, request_session}
use lecrm.Auth.Handlers.Switch.{entry_of, workspaces}
use lecrm.Auth.Login.{granted_role}

abbrev pub shows : List ℕ → List ℕ → WorkspaceEntry → Bool
shows slug role e = e.slug == slug && e.role == role

abbrev pub is_some : Option (List ℕ) → Bool
is_some none = false
is_some (some role) = true

-- The roles that the table of the members takes.
abbrev pub HasRoles : List Membership → Type 0
HasRoles = All (λ m. is_valid_role m.role ≡ true)

module _ (lower : List ℕ → List ℕ) (user : ℕ) (email : List ℕ) (members : List Membership)
    (grants : List IntegratorGrant) where
  -- The role that a login at the workspace leaves the user with.
  abbrev pub role_after_login : Workspace → List ℕ
  role_after_login w =
      joined_role (granted_role (integrator_grant_exists false lower w.id email grants))
        (find_role w.id user members)

  -- A workspace that is live, where the user is a member or has a grant.
  abbrev pub reaches : List ℕ → List ℕ → Workspace → Bool
  reaches slug role w =
      w.slug == slug
      && not w.tombstoned
      && (any (is_grant lower w.id email) grants || is_some (find_role w.id user members))
      && role_after_login w == role

higher_role-integrator :
    (role : List ℕ)
    → is_valid_role role ≡ true
    → higher_role (codes "integrator") role ≡ codes "integrator"
unfolding is_valid_role role_rank
higher_role-integrator role valid = ground (arith, (codes_beq_iff role (codes "integrator")).0)

higher_role-member :
    (role : List ℕ) → is_valid_role role ≡ true → higher_role (codes "member") role ≡ role
unfolding is_valid_role role_rank
higher_role-member role valid = ground (arith, (codes_beq_iff role (codes "member")).0)

find_role-HasRoles :
    (ws user : ℕ) (role : List ℕ) (members : List Membership)
    → HasRoles members
    → find_role ws user members ≡ some role
    → is_valid_role role ≡ true
unfolding find_role
find_role-HasRoles ws user role [] roles h = cc
find_role-HasRoles ws user role (m ∷ members) roles h =
    ground (arith, find_role-HasRoles ws user role members roles.1)

any-place_workspace :
    (before : List ℕ → List ℕ → Bool) (test : AccessibleWorkspace → Bool) (a : AccessibleWorkspace)
    (rest : List AccessibleWorkspace)
    → any test (place_workspace before a rest) ≡ (test a || any test rest)
unfolding place_workspace
any-place_workspace before test a [] = refl
any-place_workspace before test a (b ∷ rest) =
    ground (arith, any-place_workspace before test a rest)

any-sort_workspaces :
    (before : List ℕ → List ℕ → Bool) (test : AccessibleWorkspace → Bool)
    (rows : List AccessibleWorkspace)
    → any test (sort_workspaces before rows) ≡ any test rows
unfolding sort_workspaces
any-sort_workspaces before test [] = refl
any-sort_workspaces before test (a ∷ rows) =
    any-place_workspace before test a (sort_workspaces before rows)
    ∙ ap (λ b. test a || b) (any-sort_workspaces before test rows)

abbrev shows_row : List ℕ → List ℕ → AccessibleWorkspace → Bool
shows_row slug role a = a.slug == slug && a.role == role

any-entry_of :
    (cfg : Config) (host slug role : List ℕ) (rows : List AccessibleWorkspace)
    → any (shows slug role) (map (entry_of cfg host) rows) ≡ any (shows_row slug role) rows
any-entry_of cfg host slug role [] = refl
any-entry_of cfg host slug role (a ∷ rows) = ground (arith, any-entry_of cfg host slug role rows)

module _ (lower : List ℕ → List ℕ) (user : ℕ) (email : List ℕ) (members : List Membership)
    (grants : List IntegratorGrant) (given : is_empty email ≡ false)
    (roles : HasRoles members) where
  -- The role that is shown is the one after a login.
  accessible_role-cases :
      (w : Workspace)
      → ((accessible_role lower user email members grants w ≡ none)
          × ((slug role : List ℕ) → reaches lower user email members grants slug role w ≡ false))
        ⊎ ((accessible_role lower user email members grants w
              ≡ some (role_after_login lower user email members grants w))
            × ((slug role : List ℕ)
                → reaches lower user email members grants slug role w
                  ≡ (w.slug == slug && role_after_login lower user email members grants w == role)))
  unfolding accessible_role integrator_grant_exists
  accessible_role-cases w = elim (Bool-cases w.tombstoned) [
    | inl gone ↦ inl (ground (arith, gone), λ slug role. ground (arith, gone))
    | inr live ↦ elim (Bool-cases (any (is_grant lower w.id email) grants)) [
      | inl granted ↦ elim (Option-cases (find_role w.id user members)) [
        | inl outside ↦ inr (
          ground (arith, live, granted, outside, given),
          λ slug role. ground (arith, live, granted, outside, given),
        )
        | inr (stored, inside) ↦
            let kept =
              higher_role-integrator stored
                (find_role-HasRoles w.id user stored members roles inside) in
            inr (
              ground (arith, live, granted, inside, given, kept),
              λ slug role. ground (arith, live, granted, inside, given, kept),
            )
      ]
      | inr ungranted ↦ elim (Option-cases (find_role w.id user members)) [
        | inl outside ↦ inl (
          ground (arith, live, ungranted, outside),
          λ slug role. ground (arith, live, ungranted, outside),
        )
        | inr (stored, inside) ↦
            let kept =
              higher_role-member stored
                (find_role-HasRoles w.id user stored members roles inside) in
            inr (
              ground (arith, live, ungranted, inside, given, kept),
              λ slug role. ground (arith, live, ungranted, inside, given, kept),
            )
      ]
    ]
  ]

  any-select_accessible :
      (slug role : List ℕ) (ws : List Workspace)
      → any (shows_row slug role) (select_accessible lower user email members grants ws)
        ≡ any (reaches lower user email members grants slug role) ws
  unfolding select_accessible
  any-select_accessible slug role [] = refl
  any-select_accessible slug role (w ∷ ws) = elim (accessible_role-cases w) [
    | inl (hidden, not_reached) ↦
        ground (arith, hidden, not_reached slug role, any-select_accessible slug role ws)
    | inr (shown, reached) ↦
        ground (arith, shown, reached slug role, any-select_accessible slug role ws)
  ]

-- Whatever the session that asks, a slug is shown with a role exactly if it is that of a live workspace
-- where the user is a member or has a grant, and the role is the one that a login there would leave the
-- user with. The members have real roles, the user's e-mail address is known, and the look-ups of the
-- profile and of the grant do not fail.
pub workspaces-reaches :
    (cfg : Config) (faults : Faults) (before : List ℕ → List ℕ → Bool) (lower : List ℕ → List ℕ)
    (now : ℕ) (host own cookie email name : List ℕ) (w : World) (s : Session) (old : Bool)
    (entries : List WorkspaceEntry) (slug role : List ℕ)
    → subdomain_from_host host cfg.domain_tld ≡ some own
    → request_session cfg now own (some cookie) ≡ some (s, old)
    → get_user_profile faults.profile s.user_id w.directory.users ≡ ok (email, name)
    → is_empty email ≡ false
    → HasRoles w.directory.members
    → workspaces cfg faults before lower now host (some cookie) w
      ≡ record { status = 200; cookies = []; said = switches entries }
    → any (shows slug role) entries
      ≡ any (reaches lower s.user_id email w.directory.members w.grants slug role) w.workspaces
unfolding workspaces list_accessible_workspaces
workspaces-reaches cfg faults before lower now host own cookie email name w s old entries slug role
      named is_session known given roles answered =
    let rows = select_accessible lower s.user_id email w.directory.members w.grants w.workspaces in
    ground (
      arith,
      named,
      is_session,
      known,
      answered,
      any-entry_of cfg host slug role (sort_workspaces before rows),
      any-sort_workspaces before (shows_row slug role) rows,
      any-select_accessible lower s.user_id email w.directory.members w.grants given roles slug role
          w.workspaces,
    )
