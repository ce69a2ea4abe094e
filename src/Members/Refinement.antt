-- ===== src/Members/Refinement.antt =====
-- The store of the members is a map from a workspace and a user to a role.
use lecrm.Common.{
  ℕ, Bool, true, false, ◌&&◌, Option, none, some, List, [], ◌∷◌, ◌++◌, ◌==◌, nat_eq, any,
  if◌then◌else◌, Result, ok, ◌≡◌, refl, ◌∙◌, ap, arith, eqb_iff,
}
use lecrm.Rbac.{Role}
use lecrm.Rbac.Order.{is_real, parse_role-text_of_role}
use lecrm.Rbac.Middleware.{RoleLookup}
use lecrm.Members.{
  Membership, Directory, is_of, find_role, known_role, decode_role, lookup_role, encoded,
  MemberError, set_role, delete_member, update_role, remove_member, invitee, invitation,
  upsert_member, invite,
}

abbrev pub is_at : ℕ → ℕ → ℕ → ℕ → Bool
is_at ws user ws' user' = ws == ws' && user == user'

module _ (ws user : ℕ) (role : List ℕ) (at_ws at_user : ℕ) where
  pub find_role-set_role :
      (members : List Membership)
      → find_role at_ws at_user (set_role ws user role members) ≡ (
          if is_at ws user at_ws at_user
          then (if any (is_of ws user) members then some role else none)
          else find_role at_ws at_user members)
  unfolding find_role set_role
  find_role-set_role [] = ground arith
  find_role-set_role (m ∷ members) = ground (
    arith,
    find_role-set_role members,
    eqb_iff m.workspace_id ws,
    eqb_iff m.user_id user,
    eqb_iff m.workspace_id at_ws,
    eqb_iff m.user_id at_user,
    eqb_iff ws at_ws,
    eqb_iff user at_user,
  )

module _ (ws user at_ws at_user : ℕ) where
  pub find_role-delete_member :
      (members : List Membership)
      → find_role at_ws at_user (delete_member ws user members)
        ≡ (if is_at ws user at_ws at_user then none else find_role at_ws at_user members)
  unfolding find_role delete_member
  find_role-delete_member [] = ground arith
  find_role-delete_member (m ∷ members) = ground (
    arith,
    find_role-delete_member members,
    eqb_iff m.workspace_id ws,
    eqb_iff m.user_id user,
    eqb_iff m.workspace_id at_ws,
    eqb_iff m.user_id at_user,
    eqb_iff ws at_ws,
    eqb_iff user at_user,
  )

-- The role that a real role is written as.
pub decode_role-encoded :
    (role : Role) → is_real role ≡ true → decode_role (some (encoded role)) ≡ ok (some role)
decode_role-encoded role real =
    ap known_role (parse_role-text_of_role role) ∙ ap (λ known. known_role (role, known)) real

module _ (now ws user : ℕ) (role : List ℕ) (at_ws at_user : ℕ) where
  find_role-append :
      (members : List Membership)
      → any (is_of ws user) members ≡ false
      → find_role at_ws at_user (members ++ invitation now ws user role ∷ [])
        ≡ (if is_at ws user at_ws at_user then some role else find_role at_ws at_user members)
  unfolding find_role
  find_role-append [] new = ground arith
  find_role-append (m ∷ members) new = ground (
    arith,
    find_role-append members,
    eqb_iff m.workspace_id ws,
    eqb_iff m.user_id user,
    eqb_iff m.workspace_id at_ws,
    eqb_iff m.user_id at_user,
    eqb_iff ws at_ws,
    eqb_iff user at_user,
  )

  pub find_role-upsert_member :
      (members : List Membership)
      → find_role at_ws at_user (upsert_member now ws user role members)
        ≡ (if is_at ws user at_ws at_user then some role else find_role at_ws at_user members)
  find_role-upsert_member members =
      ground
        (arith, find_role-append members, find_role-set_role ws user role at_ws at_user members)

-- What a look-up answers after a role is written over what it found.
abbrev pub written : Role → Option (List ℕ) → Result (Unit {0}) (Option Role)
written role none = ok none
written role (some text) = ok (some role)

abbrev is_found : Option (List ℕ) → Bool
is_found none = false
is_found (some text) = true

any-find_role :
    (ws user : ℕ) (members : List Membership)
    → any (is_of ws user) members ≡ is_found (find_role ws user members)
unfolding find_role
any-find_role ws user [] = refl
any-find_role ws user (m ∷ members) = ground (arith, any-find_role ws user members)

abbrev pub looked_up : Directory × Option MemberError → RoleLookup
looked_up change = lookup_role false (change.0)

module _ (ws : ℕ) (role : Role) (d : Directory) (at_ws at_user : ℕ) where
  pub lookup_role-update_role :
      (user : ℕ)
      → is_real role ≡ true
      → looked_up (update_role false ws user role d) at_ws at_user ≡ (
          if is_at ws user at_ws at_user
          then written role (find_role ws user d.members)
          else lookup_role false d at_ws at_user)
  unfolding lookup_role update_role
  lookup_role-update_role user real = ground (
    arith,
    find_role-set_role ws user (encoded role) at_ws at_user d.members,
    any-find_role ws user d.members,
    decode_role-encoded role,
  )

  pub lookup_role-remove_member :
      (user : ℕ)
      → looked_up (remove_member false ws user d) at_ws at_user
        ≡ (if is_at ws user at_ws at_user then ok none else lookup_role false d at_ws at_user)
  unfolding lookup_role remove_member
  lookup_role-remove_member user =
      ground (arith, find_role-delete_member ws user at_ws at_user d.members)

  lookup_role-invite :
      (lower : List ℕ → List ℕ) (fresh now : ℕ) (email : List ℕ)
      → is_real role ≡ true
      → looked_up (invite false lower fresh now ws email role d) at_ws at_user ≡ (
          if is_at ws ((invitee lower fresh email d.users).1) at_ws at_user
          then ok (some role)
          else lookup_role false d at_ws at_user)
  unfolding lookup_role invite
  lookup_role-invite lower fresh now email real = ground (
    arith,
    find_role-upsert_member now ws ((invitee lower fresh email d.users).1) (encoded role) at_ws
        at_user d.members,
    decode_role-encoded role,
  )

-- The store of the members implements a map from a workspace and a user to a role. Where the
-- statements do not fail and the role written is a real one, each look-up afterwards answers: after an
-- update, the new role at the member updated if it was there, and nothing if it was not; after a
-- removal, nothing at the one removed; after an invitation, the role of the invitation at the user
-- that it is for, in the workspace that invites; and at every other place what it answered before.
pub lookup_role-IsMap :
    (ws user : ℕ) (role : Role) (lower : List ℕ → List ℕ) (fresh now : ℕ) (email : List ℕ)
    (d : Directory) (at_ws at_user : ℕ)
    → is_real role ≡ true
    → (looked_up (update_role false ws user role d) at_ws at_user ≡ (
        if is_at ws user at_ws at_user
        then written role (find_role ws user d.members)
        else lookup_role false d at_ws at_user))
      × (looked_up (remove_member false ws user d) at_ws at_user
          ≡ (if is_at ws user at_ws at_user then ok none else lookup_role false d at_ws at_user))
      × (looked_up (invite false lower fresh now ws email role d) at_ws at_user ≡ (
          if is_at ws ((invitee lower fresh email d.users).1) at_ws at_user
          then ok (some role)
          else lookup_role false d at_ws at_user))
lookup_role-IsMap ws user role lower fresh now email d at_ws at_user real = (
  lookup_role-update_role ws role d at_ws at_user user real,
  lookup_role-remove_member ws role d at_ws at_user user,
  lookup_role-invite ws role d at_ws at_user lower fresh now email real,
)
