-- ===== src/Rbac.antt =====
-- Roles and the permissions that they carry (apps/api/internal/rbac/role.go).
-- A Go `Role` is an int; the five that are declared are the ones that the code produces.
pub mod Order
pub mod Middleware
pub mod Admission
use lecrm.Common.{
  ℕ, String, Bool, true, false, ◌&&◌, ◌||◌, not, List, [], ◌∷◌, leb, eqb, codes_beq, codes_eq, ◌==◌,
  if◌then◌else◌,
}
use lecrm.Common.Text.{codes, trim_space, to_lower, contains_text}

pub data Role : Type 0 where
  role_none role_member role_admin role_owner role_integrator : Role

-- The number behind the role.
abbrev pub level : Role → ℕ
level role_none = 0
level role_member = 1
level role_admin = 2
level role_owner = 3
level role_integrator = 4

-- `Role.String`
unfoldable pub text_of_role : Role → String
text_of_role role_none = "none"
text_of_role role_member = "member"
text_of_role role_admin = "admin"
text_of_role role_owner = "owner"
text_of_role role_integrator = "integrator"

-- `ParseRole`
unfoldable pub parse_role : List ℕ → Role × Bool
unfolding trim_space to_lower
parse_role s =
    let word = to_lower (trim_space s) in
    if codes_beq word (codes "member")
    then (role_member, true)
    else if codes_beq word (codes "admin")
    then (role_admin, true)
    else if codes_beq word (codes "owner")
    then (role_owner, true)
    else if codes_beq word (codes "integrator")
    then (role_integrator, true)
    else (role_none, false)

-- `Role.AtLeast`
unfoldable pub at_least : Role → Role → Bool
at_least r min = leb (level min) (level r) && not (eqb (level r) 0)

pub record Permissions : Type 0 where
  pub can_read : Bool
  pub can_write : Bool
  pub can_manage_members : Bool
  pub can_manage_tokens : Bool
  pub can_delete_workspace : Bool

-- `PermissionsFor`
unfoldable pub permissions_for : Role → Permissions
unfolding at_least
permissions_for r = record {
  can_read = at_least r role_member;
  can_write = at_least r role_admin;
  can_manage_members = at_least r role_owner;
  can_manage_tokens = at_least r role_owner;
  can_delete_workspace = at_least r role_owner;
}

-- Whether one scope grants writing.
unfoldable pub grants_write : List ℕ → Bool
grants_write scope =
    let s = to_lower (trim_space scope) in
    codes_beq s (codes "*") || contains_text s (codes "write")

-- `roleFromScopes`
unfoldable pub role_from_scopes : List (List ℕ) → Role
unfolding grants_write
role_from_scopes [] = role_member
role_from_scopes (s ∷ scopes) = if grants_write s then role_admin else role_from_scopes scopes
