-- ===== src/Members.antt =====
-- The members of a workspace (apps/api/internal/members/store.go), and the rows of core.users and
-- core.workspace_members that they are. `fails` says that the statement, or one of the transaction,
-- fails. PostgreSQL's `lower` and a new identifier are parameters.
pub mod Roster
pub mod Handler
pub mod Refinement
pub mod Guards
pub mod Access
pub mod Listing
use lecrm.Common.{
  ℕ, ◌+◌, String, Bool, true, false, ◌&&◌, ◌||◌, not, ltb, Option, none, some, List, [], ◌∷◌, ◌++◌,
  ◌==◌, nat_eq, codes_eq, any, is_empty, if◌then◌else◌, Result, ok, err,
}
use lecrm.Common.Text.{codes, trim_space, contains_text}
use lecrm.Rbac.{Role, role_none, role_member, text_of_role, parse_role}
use lecrm.Rbac.Middleware.{RoleLookup}

-- A row of core.users.
pub record User : Type 0 where
  pub id : ℕ
  pub issuer : List ℕ
  pub subject : List ℕ
  pub email : Option (List ℕ)
  pub display_name : Option (List ℕ)

-- A row of core.workspace_members; `joined_at` is null for a pending invitation.
pub record Membership : Type 0 where
  pub workspace_id : ℕ
  pub user_id : ℕ
  pub role : List ℕ
  pub invited_at : ℕ
  pub joined_at : Option ℕ

-- The users in the order of their creation.
pub record Directory : Type 0 where
  pub users : List User
  pub members : List Membership

pub data MemberError : Type 0 where
  member_not_found statement_failed : MemberError

abbrev pub is_of : ℕ → ℕ → Membership → Bool
is_of ws user m = m.workspace_id == ws && m.user_id == user

unfoldable pub find_role : ℕ → ℕ → List Membership → Option (List ℕ)
find_role ws user [] = none
find_role ws user (m ∷ members) =
    let rest = find_role ws user members in if is_of ws user m then some m.role else rest

abbrev pub known_role : Role × Bool → Result (Unit {0}) (Option Role)
known_role (role, true) = ok (some role)
known_role (role, false) = err tt

abbrev pub decode_role : Option (List ℕ) → Result (Unit {0}) (Option Role)
decode_role none = ok none
decode_role (some text) = known_role (parse_role text)

-- `LookupRole`, as the role store of the gates: a role that is not known is an error.
unfoldable pub lookup_role : Bool → Directory → RoleLookup
lookup_role fails d ws user = if fails then err tt else decode_role (find_role ws user d.members)

abbrev pub encoded : Role → List ℕ
encoded role = codes (text_of_role role)

unfoldable pub set_role : ℕ → ℕ → List ℕ → List Membership → List Membership
set_role ws user role [] = []
set_role ws user role (m ∷ members) =
    let rest = set_role ws user role members in
    if is_of ws user m then record m { role = role } ∷ rest else m ∷ rest

unfoldable pub delete_member : ℕ → ℕ → List Membership → List Membership
delete_member ws user [] = []
delete_member ws user (m ∷ members) =
    let rest = delete_member ws user members in if is_of ws user m then rest else m ∷ rest

abbrev affected : ℕ → ℕ → Directory → Option MemberError
affected ws user d = if any (is_of ws user) d.members then none else some member_not_found

-- `UpdateRole`
unfoldable pub update_role : Bool → ℕ → ℕ → Role → Directory → Directory × Option MemberError
update_role fails ws user role d =
    if fails
    then (d, some statement_failed)
    else (record d { members = set_role ws user (encoded role) d.members }, affected ws user d)

-- `RemoveMember`
unfoldable pub remove_member : Bool → ℕ → ℕ → Directory → Directory × Option MemberError
remove_member fails ws user d =
    if fails
    then (d, some statement_failed)
    else (record d { members = delete_member ws user d.members }, affected ws user d)

abbrev pub has_email : (List ℕ → List ℕ) → List ℕ → Option (List ℕ) → Bool
has_email lower email none = false
has_email lower email (some e) = lower e == lower email

-- The first user with the address.
unfoldable pub find_user : (List ℕ → List ℕ) → List ℕ → List User → Option ℕ
find_user lower email [] = none
find_user lower email (u ∷ users) =
    let rest = find_user lower email users in
    if has_email lower email u.email then some u.id else rest

-- `inviteIssuer`
abbrev pub invite_issuer : List ℕ
invite_issuer = codes "lecrm-invite"

-- The insertion of a placeholder, which updates the one that has its issuer and subject.
unfoldable pub insert_user : (List ℕ → List ℕ) → ℕ → List ℕ → List User → List User × ℕ
insert_user lower fresh email [] = (
  record {
    id = fresh;
    issuer = invite_issuer;
    subject = lower email;
    email = some email;
    display_name = none;
  }
      ∷ [],
  fresh,
)
insert_user lower fresh email (u ∷ users) =
    let (rest, id) = insert_user lower fresh email users in
    if u.issuer == invite_issuer && u.subject == lower email
    then (record u { email = some email } ∷ users, u.id)
    else (u ∷ rest, id)

-- The user that an invitation is for.
abbrev pub invitee : (List ℕ → List ℕ) → ℕ → List ℕ → List User → List User × ℕ
invitee lower fresh email users = elim (find_user lower email users) [
  | some id ↦ (users, id)
  | none ↦ insert_user lower fresh email users
]

abbrev pub invitation : ℕ → ℕ → ℕ → List ℕ → Membership
invitation now ws user role = record {
  workspace_id = ws;
  user_id = user;
  role = role;
  invited_at = now;
  joined_at = none;
}

-- `INSERT … ON CONFLICT (workspace_id, user_id) DO UPDATE SET role`
abbrev pub upsert_member : ℕ → ℕ → ℕ → List ℕ → List Membership → List Membership
upsert_member now ws user role members =
    if any (is_of ws user) members
    then set_role ws user role members
    else members ++ invitation now ws user role ∷ []

-- `Invite`
unfoldable pub invite :
    Bool
    → (List ℕ → List ℕ)
    → ℕ
    → ℕ
    → ℕ
    → List ℕ
    → Role
    → Directory
    → Directory × Option MemberError
invite fails lower fresh now ws email role d =
    if fails
    then (d, some statement_failed)
    else (let (users, id) = invitee lower fresh email d.users in
        (
          record { users = users; members = upsert_member now ws id (encoded role) d.members },
          none,
        ))
