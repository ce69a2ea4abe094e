-- ===== src/Auth/Store.antt =====
-- What a login reads and writes (apps/api/internal/auth/store.go), on the tables of the members.
-- `fails` says that the statement fails; PostgreSQL's `lower` and a new identifier are parameters.
pub mod Accessible
pub mod Identity
use lecrm.Common.{
  ℕ, Bool, false, ◌&&◌, ◌||◌, not, Option, none, some, List, [], ◌∷◌, any, is_empty, ltb, ◌==◌,
  nat_eq, codes_eq, if◌then◌else◌, Result, ok, err, ◌≡◌, arith, eqb_iff,
}
use lecrm.Common.Text.{codes}
use lecrm.Members.{User, Membership, Directory, is_of, find_role}

-- A row of core.workspaces, and one of core.integrator_grants.
pub record Workspace : Type 0 where
  pub id : ℕ
  pub slug : List ℕ
  pub tombstoned : Bool

pub record IntegratorGrant : Type 0 where
  pub workspace_id : ℕ
  pub email : List ℕ

pub data StoreError : Type 0 where
  workspace_not_found missing_argument unknown_role statement_failed : StoreError

unfoldable pub find_workspace : List ℕ → List Workspace → Option ℕ
find_workspace slug [] = none
find_workspace slug (w ∷ workspaces) =
    let rest = find_workspace slug workspaces in if w.slug == slug then some w.id else rest

abbrev pub or_not_found : Option ℕ → Result StoreError ℕ
or_not_found none = err workspace_not_found
or_not_found (some id) = ok id

-- `WorkspaceBySlug`, which does not ask whether the workspace was tombstoned.
unfoldable pub workspace_by_slug : Bool → List ℕ → List Workspace → Result StoreError ℕ
workspace_by_slug fails slug workspaces =
    if is_empty slug
    then err missing_argument
    else if fails
    then err statement_failed
    else or_not_found (find_workspace slug workspaces)

-- `NULLIF(text, '')`, and `COALESCE` of it with what was there.
abbrev pub null_if_empty : List ℕ → Option (List ℕ)
null_if_empty [] = none
null_if_empty (b ∷ text) = some (b ∷ text)

abbrev or_old : Option (List ℕ) → Option (List ℕ) → Option (List ℕ)
or_old none old = old
or_old (some new) old = some new

-- `INSERT … ON CONFLICT (issuer, subject) DO UPDATE`
unfoldable pub put_user : ℕ → List ℕ → List ℕ → List ℕ → List ℕ → List User → ℕ × List User
put_user fresh issuer subject email name [] = (
  fresh,
  record {
    id = fresh;
    issuer = issuer;
    subject = subject;
    email = null_if_empty email;
    display_name = null_if_empty name;
  }
      ∷ [],
)
put_user fresh issuer subject email name (u ∷ users) =
    let (id, rest) = put_user fresh issuer subject email name users in
    if u.issuer == issuer && u.subject == subject
    then (
      u.id,
      record u {
        email = or_old (null_if_empty email) u.email;
        display_name = or_old (null_if_empty name) u.display_name;
      }
          ∷ users,
    )
    else (id, u ∷ rest)

abbrev with_users : Directory → ℕ × List User → Result StoreError ℕ × Directory
with_users d (id, users) = (ok id, record d { users = users })

-- `UpsertUser`
unfoldable pub upsert_user :
    Bool → ℕ → List ℕ → List ℕ → List ℕ → List ℕ → Directory → Result StoreError ℕ × Directory
upsert_user fails fresh issuer subject email name d =
    if is_empty issuer || is_empty subject
    then (err missing_argument, d)
    else if fails
    then (err statement_failed, d)
    else with_users d (put_user fresh issuer subject email name d.users)

-- `roleRankCase`
unfoldable pub role_rank : List ℕ → ℕ
role_rank role =
    if role == codes "member"
    then 1
    else if role == codes "admin"
    then 2
    else if role == codes "owner"
    then 3
    else if role == codes "integrator"
    then 4
    else 0

-- `validRoles`
unfoldable pub is_valid_role : List ℕ → Bool
is_valid_role role =
    role == codes "member"
    || role == codes "admin"
    || role == codes "owner"
    || role == codes "integrator"

abbrev pub higher_role : List ℕ → List ℕ → List ℕ
higher_role role stored = if ltb (role_rank stored) (role_rank role) then role else stored

abbrev or_now : ℕ → Option ℕ → Option ℕ
or_now now none = some now
or_now now (some t) = some t

-- `INSERT … ON CONFLICT (workspace_id, user_id) DO UPDATE`
unfoldable pub put_member : ℕ → ℕ → ℕ → List ℕ → List Membership → List Membership
put_member now ws user role [] =
    record {
      workspace_id = ws;
      user_id = user;
      role = role;
      invited_at = now;
      joined_at = some now;
    }
    ∷ []
put_member now ws user role (m ∷ members) =
    let rest = put_member now ws user role members in
    if is_of ws user m
    then record m { role = higher_role role m.role; joined_at = or_now now m.joined_at } ∷ members
    else m ∷ rest

-- `EnsureMemberWithRole`
unfoldable pub ensure_member_with_role :
    Bool → ℕ → ℕ → ℕ → List ℕ → Directory → Result StoreError (Unit {0}) × Directory
ensure_member_with_role fails now ws user role d =
    if not (is_valid_role role)
    then (err unknown_role, d)
    else if fails
    then (err statement_failed, d)
    else (ok tt, record d { members = put_member now ws user role d.members })

abbrev pub is_grant : (List ℕ → List ℕ) → ℕ → List ℕ → IntegratorGrant → Bool
is_grant lower ws email g = g.workspace_id == ws && lower g.email == lower email

-- `IntegratorGrantExists`
unfoldable pub integrator_grant_exists :
    Bool → (List ℕ → List ℕ) → ℕ → List ℕ → List IntegratorGrant → Result StoreError Bool
integrator_grant_exists fails lower ws email grants =
    if is_empty email
    then ok false
    else if fails
    then err statement_failed
    else ok (any (is_grant lower ws email) grants)

abbrev pub joined_role : List ℕ → Option (List ℕ) → List ℕ
joined_role role none = role
joined_role role (some stored) = higher_role role stored

-- A membership that is ensured keeps a higher role, and no other membership changes.
pub find_role-put_member :
    (now ws user at_ws at_user : ℕ) (role : List ℕ) (members : List Membership)
    → find_role at_ws at_user (put_member now ws user role members) ≡ (
        if ws == at_ws && user == at_user
        then some (joined_role role (find_role ws user members))
        else find_role at_ws at_user members)
unfolding find_role put_member
find_role-put_member now ws user at_ws at_user role [] = ground arith
find_role-put_member now ws user at_ws at_user role (m ∷ members) = ground (
  arith,
  find_role-put_member now ws user at_ws at_user role members,
  eqb_iff m.workspace_id ws,
  eqb_iff m.user_id user,
  eqb_iff m.workspace_id at_ws,
  eqb_iff m.user_id at_user,
  eqb_iff ws at_ws,
  eqb_iff user at_user,
)
