-- ===== src/Rbac/Order.antt =====
-- The hierarchy of roles, and what a scope set can reach.
use lecrm.Common.{
  ℕ, Bool, true, false, List, [], ◌∷◌, any, ◌≡◌, ◌↔◌, refl, arith, Bool-cases, inl, inr,
}
use lecrm.Common.Text.{codes}
use lecrm.Rbac.{
  Role, role_none, text_of_role, parse_role, at_least, permissions_for, grants_write,
  role_from_scopes,
}

-- A role that is written by its name is read back, and `none` is refused.
abbrev pub is_real : Role → Bool
is_real role_none = false
is_real _ = true

pub parse_role-text_of_role : (r : Role) → parse_role (codes (text_of_role r)) ≡ (r, is_real r)
unfolding parse_role text_of_role
parse_role-text_of_role role_none = refl
parse_role-text_of_role r = refl

-- A text that is no role parses as `none`, and only such a text does.
pub parse_role_refuses : (s : List ℕ) → ((parse_role s).1 ≡ false) ↔ ((parse_role s).0 ≡ role_none)
unfolding parse_role
parse_role_refuses s = ground arith

-- More rank is never fewer permissions, and equal permissions at each gate are the ranks' order.
pub permissions_for_mono :
    (r s : Role)
    → at_least r s ≡ true
    → ((permissions_for s).can_read ≡ true → (permissions_for r).can_read ≡ true)
      × ((permissions_for s).can_write ≡ true → (permissions_for r).can_write ≡ true)
      × ((permissions_for s).can_manage_members ≡ true
          → (permissions_for r).can_manage_members ≡ true)
      × ((permissions_for s).can_manage_tokens ≡ true
          → (permissions_for r).can_manage_tokens ≡ true)
      × ((permissions_for s).can_delete_workspace ≡ true
          → (permissions_for r).can_delete_workspace ≡ true)
unfolding permissions_for
permissions_for_mono r s h = ground arith

-- A scope set never reaches more than admin: a token cannot manage members or tokens, nor delete the
-- workspace. It reads, and it writes exactly when one of its scopes grants writing.
role_from_scopes_capped :
    (scopes : List (List ℕ))
    → let p = permissions_for (role_from_scopes scopes) in
      (p.can_read ≡ true)
      × (p.can_write ≡ any grants_write scopes)
      × (p.can_manage_members ≡ false)
      × (p.can_manage_tokens ≡ false)
      × (p.can_delete_workspace ≡ false)
unfolding permissions_for role_from_scopes
role_from_scopes_capped [] = (refl, refl, refl, refl, refl)
role_from_scopes_capped (s ∷ scopes) = elim (Bool-cases (grants_write s)) [
  | inl grants ↦ rw grants (refl, refl, refl, refl, refl)
  | inr no_grant ↦ rw no_grant (role_from_scopes_capped scopes)
]
