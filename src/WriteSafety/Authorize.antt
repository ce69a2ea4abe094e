-- ===== src/WriteSafety/Authorize.antt =====
-- The principal of an operation and the gate before a write (capability.go, writesafety.go).
use lecrm.Common.{
  ℕ, ◌≤◌, String, Bool, true, ◌&&◌, ◌||◌, not, Option, none, some, List, [], ◌∷◌, any, is_empty,
  ◌≡◌, ◌⊎◌, ◌↔◌, refl, arith, leb, eqb, codes_beq, if◌then◌else◌,
}
use lecrm.Common.Text.{codes, trim_space, to_lower, contains_text}
use lecrm.Rbac

-- `capability.Role`; it has no integrator.
pub data Role : Type 0 where
  role_none role_member role_admin role_owner : Role

abbrev pub level : Role → ℕ
level role_none = 0
level role_member = 1
level role_admin = 2
level role_owner = 3

-- `Role.AtLeast`
unfoldable pub at_least : Role → Role → Bool
at_least r min = leb (level min) (level r) && not (eqb (level r) 0)

pub record Principal : Type 0 where
  pub workspace_id : ℕ
  pub schema : String
  pub role : Role
  pub actor_type : String
  pub scopes : List (List ℕ)
  pub is_service_token : Bool
  pub read_role : String

pub data AuthError : Type 0 where
  unauthenticated forbidden read_only_scope : AuthError

-- `authorize`; `none` is a nil error.
unfoldable pub authorize : Principal → Role → Option AuthError
unfolding at_least
authorize p min =
    if eqb (level p.role) 0
    then some unauthenticated
    else if not (at_least p.role min)
    then some forbidden
    else none

unfoldable pub scope_writes : List ℕ → Bool
scope_writes scope =
    let s = to_lower (trim_space scope) in
    codes_beq s (codes "*") || contains_text s (codes "write")

-- `RoleFromScopes`
unfoldable pub role_from_scopes : List (List ℕ) → Role
role_from_scopes [] = role_member
role_from_scopes (s ∷ scopes) = if scope_writes s then role_admin else role_from_scopes scopes

-- `AuthorizeWrite`
unfoldable pub authorize_write : Principal → Option AuthError
unfolding authorize at_least
authorize_write p =
    if eqb (level p.role) 0
    then some unauthenticated
    else if not (is_empty p.scopes) && not (at_least (role_from_scopes p.scopes) role_admin)
    then some read_only_scope
    else authorize p role_admin

-- The role of the capability layer as a role of the transport layer.
abbrev pub to_rbac : Role → Rbac.Role
to_rbac role_none = Rbac.role_none
to_rbac role_member = Rbac.role_member
to_rbac role_admin = Rbac.role_admin
to_rbac role_owner = Rbac.role_owner

-- One token has the same role over REST and over MCP.
role_from_scopes_agree :
    (scopes : List (List ℕ)) → to_rbac (role_from_scopes scopes) ≡ Rbac.role_from_scopes scopes
unfolding role_from_scopes Rbac.role_from_scopes scope_writes
role_from_scopes_agree [] = refl
role_from_scopes_agree (s ∷ scopes) = ground (arith, role_from_scopes_agree scopes)

role_from_scopes_writes :
    (scopes : List (List ℕ))
    → at_least (role_from_scopes scopes) role_admin ≡ any scope_writes scopes
unfolding role_from_scopes at_least
role_from_scopes_writes [] = refl
role_from_scopes_writes (s ∷ scopes) = ground (arith, role_from_scopes_writes scopes)

-- A write is authorized exactly for a role of admin or owner whose scopes, if it carries any, hold one
-- that grants writing.
authorize_write_iff :
    (p : Principal)
    → (authorize_write p ≡ none)
      ↔ ((level role_admin ≤ level p.role) × ((p.scopes ≡ []) ⊎ (any scope_writes p.scopes ≡ true)))
unfolding authorize_write
authorize_write_iff p = ground (arith, role_from_scopes_writes p.scopes)
