-- ===== src/Tests/Directory.antt =====
-- A workspace with an owner and an admin.
use lecrm.Common.{
  List, ◌&&◌, any, ℕ, String, false, none, some, [], ◌∷◌, ◌+◌, ◌≡◌, refl, if◌then◌else◌, ok,
}
use lecrm.Common.Text.{codes, to_lower, trim_space, contains_text}
use lecrm.Rbac.{role_owner, parse_role, text_of_role}
use lecrm.Rbac.Middleware.{delete, Session, Request, authentication_required}
use lecrm.Rbac.Admission.{crm_route}
use lecrm.Members.{
  User, Membership, Directory, find_role, set_role, find_user, invitee, lookup_role, update_role,
  remove_member, invite,
}
use lecrm.Members.Roster.{Member, is_listed, find_id, list_members}
use lecrm.Members.Handler.{handle_remove_member, handle_invite}
use lecrm.Members.Refinement.{is_at, written, looked_up, lookup_role-IsMap}
use lecrm.Members.Listing.{IsKeyed, IsInOrder, shows, has_role, is_user, list_members-IsListing}
use lecrm.Members.Access.{crm_route-handle_remove_member}

abbrev user_with : ℕ → String → User
user_with id address = record {
  id = id;
  issuer = codes "idp";
  subject = codes address;
  email = some (codes address);
  display_name = none;
}

abbrev member_with : ℕ → String → Membership
member_with user role = record {
  workspace_id = 1;
  user_id = user;
  role = codes role;
  invited_at = 10 + user;
  joined_at = some 20;
}

abbrev directory : Directory
directory = record {
  users = user_with 3 "Ann@x.org" ∷ user_with 4 "bob@x.org" ∷ [];
  members = member_with 3 "owner" ∷ member_with 4 "admin" ∷ [];
}

-- An owner who invites the own address is demoted.
invited_self :
    find_role 1 3
      ((handle_invite false to_lower 9 50 1 (some (codes " ann@x.org", [])) directory).0).members
    ≡ some (codes "member")
unfolding handle_invite trim_space contains_text parse_role invite find_role set_role find_user
    to_lower text_of_role
invited_self = refl

lookup_role-IsMap_example :
    (looked_up (update_role false 1 4 role_owner directory) 1 4 ≡ (
      if is_at 1 4 1 4
      then written role_owner (find_role 1 4 directory.members)
      else lookup_role false directory 1 4))
    × (looked_up (remove_member false 1 4 directory) 1 4
        ≡ (if is_at 1 4 1 4 then ok none else lookup_role false directory 1 4))
    × (looked_up (invite false to_lower 9 50 1 (codes "cy@x.org") role_owner directory) 1 4 ≡ (
        if is_at 1 ((invitee to_lower 9 (codes "cy@x.org") directory.users).1) 1 4
        then ok (some role_owner)
        else lookup_role false directory 1 4))
lookup_role-IsMap_example =
    lookup_role-IsMap 1 4 role_owner to_lower 9 50 (codes "cy@x.org") directory 1 4 refl

abbrev removed_session : Session
removed_session = record { workspace_id = 1; user_id = 4 }

abbrev late_request : Request
late_request = record {
  workspace = some 1;
  bearer = none;
  session = some removed_session;
  method = delete;
}

crm_route-handle_remove_member_example :
    crm_route
      (lookup_role false ((handle_remove_member false 1 (some 4) 3 directory).0))
      late_request
      none
    ≡ authentication_required
unfolding handle_remove_member remove_member
crm_route-handle_remove_member_example =
    crm_route-handle_remove_member false 1 3 4 directory late_request removed_session refl refl refl
      refl refl

directory-IsKeyed : IsKeyed directory.members
unfolding IsKeyed
directory-IsKeyed = (refl, (refl, tt))

list_members-IsListing_example :
    (listed : List Member) × (list_members false 1 directory ≡ ok listed)
    × IsInOrder listed
    × ((user : ℕ) (role : List ℕ)
        → any (shows user role) listed ≡ (
            has_role role (find_role 1 user directory.members)
            && is_listed role
            && is_user (find_id user directory.users)))
list_members-IsListing_example = list_members-IsListing 1 directory directory-IsKeyed
