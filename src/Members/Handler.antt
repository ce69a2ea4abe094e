-- ===== src/Members/Handler.antt =====
-- The handlers of the members (apps/api/internal/members/handler.go). A response is its status; the
-- workspace of the request is there, and decoding the session and the body happens before.
use lecrm.Common.{
  ℕ, Bool, true, false, Option, none, some, List, ◌==◌, nat_eq, codes_eq, is_empty, if◌then◌else◌,
}
use lecrm.Common.Text.{codes, trim_space, contains_text}
use lecrm.Rbac.{Role, role_member, parse_role}
use lecrm.Members.{
  Directory, MemberError, encoded, update_role, remove_member, invite, member_not_found,
  statement_failed,
}

abbrev pub change_status : ℕ → Option MemberError → ℕ
change_status good none = good
change_status good (some member_not_found) = 404
change_status good (some statement_failed) = 500

abbrev with_status : ℕ → Directory × Option MemberError → Directory × ℕ
with_status good (d, e) = (d, change_status good e)

abbrev pub role_update : Bool → ℕ → ℕ → Role × Bool → Directory → Directory × ℕ
role_update fails ws target (role, false) d = (d, 400)
role_update fails ws target (role, true) d = with_status 200 (update_role fails ws target role d)

-- `updateRole` of the handler: the member of the path, the user of the session (0 where there is none)
-- and the role of the body, if it decodes.
unfoldable pub handle_update_role :
    Bool → ℕ → Option ℕ → ℕ → Option (List ℕ) → Directory → Directory × ℕ
handle_update_role fails ws none actor body d = (d, 400)
handle_update_role fails ws (some target) actor body d =
    if actor == 0
    then (d, 401)
    else if target == actor
    then (d, 400)
    else elim body [ none ↦ (d, 400) | some role ↦ role_update fails ws target (parse_role role) d ]

-- `removeMember` of the handler.
unfoldable pub handle_remove_member : Bool → ℕ → Option ℕ → ℕ → Directory → Directory × ℕ
handle_remove_member fails ws none actor d = (d, 400)
handle_remove_member fails ws (some target) actor d =
    if actor == 0
    then (d, 401)
    else if target == actor
    then (d, 400)
    else with_status 204 (remove_member fails ws target d)

abbrev role_or_member : List ℕ → List ℕ
role_or_member text =
    let word = trim_space text in if is_empty word then encoded role_member else word

abbrev pub role_invite :
    Bool → (List ℕ → List ℕ) → ℕ → ℕ → ℕ → List ℕ → Role × Bool → Directory → Directory × ℕ
role_invite fails lower fresh now ws email (role, false) d = (d, 400)
role_invite fails lower fresh now ws email (role, true) d =
    with_status 201 (invite fails lower fresh now ws email role d)

-- `invite` of the handler, of the address and the role of the body, if it decodes. No user of the
-- session is asked for.
unfoldable pub handle_invite :
    Bool → (List ℕ → List ℕ) → ℕ → ℕ → ℕ → Option (List ℕ × List ℕ) → Directory → Directory × ℕ
handle_invite fails lower fresh now ws none d = (d, 400)
handle_invite fails lower fresh now ws (some (address, role)) d =
    let email = trim_space address in
    if is_empty email
    then (d, 400)
    else if contains_text email (codes "@")
    then role_invite fails lower fresh now ws email (parse_role (role_or_member role)) d
    else (d, 400)
