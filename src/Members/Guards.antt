-- ===== src/Members/Guards.antt =====
-- A change of a member's role and a removal, as the handler makes them
-- (apps/api/internal/members/handler.go: updateRole, removeMember).
use lecrm.Common.{ℕ, Bool, false, Option, none, some, List, ◌==◌, nat_eq, ◌≡◌, refl, arith}
use lecrm.Rbac.{Role, parse_role}
use lecrm.Members.{Directory, find_role, encoded, update_role, remove_member}
use lecrm.Members.Handler.{handle_update_role, handle_remove_member}
use lecrm.Members.Refinement.{find_role-set_role, find_role-delete_member}

module _ (fails : Bool) (ws actor : ℕ) (d : Directory) where
  update_role-Spares :
      (target : ℕ) (role : Role)
      → (target == actor) ≡ false
      → find_role ws actor ((update_role fails ws target role d).0).members
        ≡ find_role ws actor d.members
  unfolding update_role
  update_role-Spares target role other =
      ground (arith, find_role-set_role ws target (encoded role) ws actor d.members)

  remove_member-Spares :
      (target : ℕ)
      → (target == actor) ≡ false
      → find_role ws actor ((remove_member fails ws target d).0).members
        ≡ find_role ws actor d.members
  unfolding remove_member
  remove_member-Spares target other =
      ground (arith, find_role-delete_member ws target ws actor d.members)

  handle_update_role-Spares :
      (target : Option ℕ) (body : Option (List ℕ))
      → find_role ws actor ((handle_update_role fails ws target actor body d).0).members
        ≡ find_role ws actor d.members
  unfolding handle_update_role
  handle_update_role-Spares none body = refl
  handle_update_role-Spares (some target) none = ground arith
  handle_update_role-Spares (some target) (some text) =
      ground (arith, update_role-Spares target ((parse_role text).0))

  handle_remove_member-Spares :
      (target : Option ℕ)
      → find_role ws actor ((handle_remove_member fails ws target actor d).0).members
        ≡ find_role ws actor d.members
  unfolding handle_remove_member
  handle_remove_member-Spares none = refl
  handle_remove_member-Spares (some target) = ground (arith, remove_member-Spares target)

-- Whoever asks, and whatever the request holds, neither a change of a role nor a removal touches the
-- role that the user of the session has in the workspace, whether the statement fails or not.
handlers-SpareActor :
    (fails : Bool) (ws actor : ℕ) (target : Option ℕ) (body : Option (List ℕ)) (d : Directory)
    → (find_role ws actor ((handle_update_role fails ws target actor body d).0).members
        ≡ find_role ws actor d.members)
      × (find_role ws actor ((handle_remove_member fails ws target actor d).0).members
          ≡ find_role ws actor d.members)
handlers-SpareActor fails ws actor target body d = (
  handle_update_role-Spares fails ws actor d target body,
  handle_remove_member-Spares fails ws actor d target,
)
