-- ===== src/Members/Roster.antt =====
-- The listing of the members (apps/api/internal/members/store.go: ListMembers).
use lecrm.Common.{
  ℕ, Bool, true, false, ◌&&◌, ◌||◌, not, ltb, Option, none, some, List, [], ◌∷◌, ◌==◌, nat_eq,
  codes_eq, if◌then◌else◌, Result, ok, err,
}
use lecrm.Common.Text.{codes}
use lecrm.Members.{User, Membership, Directory, MemberError, statement_failed}

-- `Member`
pub record Member : Type 0 where
  pub user_id : ℕ
  pub email : Option (List ℕ)
  pub display_name : Option (List ℕ)
  pub role : List ℕ
  pub invited_at : ℕ
  pub joined_at : Option ℕ
  pub pending : Bool

unfoldable pub find_id : ℕ → List User → Option User
find_id id [] = none
find_id id (u ∷ users) = let rest = find_id id users in if u.id == id then some u else rest

abbrev is_null : Option ℕ → Bool
is_null none = true
is_null (some t) = false

abbrev pub join_user : Membership → Option User → List Member → List Member
join_user m none listed = listed
join_user m (some u) listed =
    record {
      user_id = m.user_id;
      email = u.email;
      display_name = u.display_name;
      role = m.role;
      invited_at = m.invited_at;
      joined_at = m.joined_at;
      pending = is_null m.joined_at;
    }
    ∷ listed

abbrev pub is_listed : List ℕ → Bool
is_listed role = not (role == codes "integrator")

unfoldable pub select_members : ℕ → List User → List Membership → List Member
select_members ws users [] = []
select_members ws users (m ∷ members) =
    let rest = select_members ws users members in
    if m.workspace_id == ws && is_listed m.role
    then join_user m (find_id m.user_id users) rest
    else rest

-- `ORDER BY m.invited_at, m.user_id`
abbrev pub comes_before : Member → Member → Bool
comes_before m n =
    ltb m.invited_at n.invited_at || (m.invited_at == n.invited_at && ltb m.user_id n.user_id)

unfoldable pub place_member : Member → List Member → List Member
place_member m [] = m ∷ []
place_member m (n ∷ listed) =
    let rest = place_member m listed in if comes_before n m then n ∷ rest else m ∷ n ∷ listed

unfoldable pub sort_members : List Member → List Member
sort_members [] = []
sort_members (m ∷ listed) = place_member m (sort_members listed)

-- `ListMembers`
unfoldable pub list_members : Bool → ℕ → Directory → Result MemberError (List Member)
list_members fails ws d =
    if fails then err statement_failed else ok (sort_members (select_members ws d.users d.members))
