-- ===== src/Members/Listing.antt =====
-- Whom the listing of the members shows, and in which order (apps/api/internal/members/store.go:
-- ListMembers, LookupRole).
use lecrm.Common.{
  ℕ, Bool, true, false, ◌&&◌, ◌||◌, Option, none, some, List, [], ◌∷◌, ◌==◌, nat_eq, codes_eq, any,
  ok, ◌≡◌, refl, sym, ◌∙◌, ap, arith, eqb_iff, Bool-cases, inl, inr,
}
use lecrm.Members.{User, Membership, Directory, is_of, find_role}
use lecrm.Members.Roster.{
  Member, find_id, join_user, is_listed, select_members, comes_before, place_member, sort_members,
  list_members,
}

-- The primary key of the table: no two rows have one workspace and one user.
unfoldable pub IsKeyed : List Membership → Type 0
IsKeyed [] = Unit
IsKeyed (m ∷ members) = (any (is_of m.workspace_id m.user_id) members ≡ false) × IsKeyed members

abbrev pub shows : ℕ → List ℕ → Member → Bool
shows user role m = m.user_id == user && m.role == role

abbrev pub has_role : List ℕ → Option (List ℕ) → Bool
has_role role none = false
has_role role (some stored) = stored == role

abbrev pub is_user : Option User → Bool
is_user none = false
is_user (some u) = true

-- No member comes before the one in front of it.
unfoldable pub IsInOrder : List Member → Type 0
IsInOrder [] = Unit
IsInOrder (m ∷ []) = Unit
IsInOrder (m ∷ n ∷ listed) = (comes_before n m ≡ false) × IsInOrder (n ∷ listed)

any-place_member :
    (test : Member → Bool) (m : Member) (listed : List Member)
    → any test (place_member m listed) ≡ (test m || any test listed)
unfolding place_member
any-place_member test m [] = refl
any-place_member test m (n ∷ listed) = ground (arith, any-place_member test m listed)

any-sort_members :
    (test : Member → Bool) (listed : List Member) → any test (sort_members listed) ≡ any test listed
unfolding sort_members
any-sort_members test [] = refl
any-sort_members test (m ∷ listed) =
    any-place_member test m (sort_members listed)
    ∙ ap (λ b. test m || b) (any-sort_members test listed)

place_member-IsInOrder :
    (m : Member) (listed : List Member) → IsInOrder listed → IsInOrder (place_member m listed)
unfolding place_member IsInOrder
place_member-IsInOrder m [] order = tt
place_member-IsInOrder m (n ∷ []) order = ground (arith, eqb_iff m.invited_at n.invited_at)
place_member-IsInOrder m (n ∷ k ∷ listed) order = ground (
  arith,
  place_member-IsInOrder m (k ∷ listed),
  eqb_iff m.invited_at n.invited_at,
  eqb_iff n.invited_at m.invited_at,
)

sort_members-IsInOrder : (listed : List Member) → IsInOrder (sort_members listed)
unfolding sort_members IsInOrder
sort_members-IsInOrder [] = tt
sort_members-IsInOrder (m ∷ listed) =
    place_member-IsInOrder m (sort_members listed) (sort_members-IsInOrder listed)

-- The rows after a member's are not that member's.
absent_later :
    (ws user : ℕ) (m : Membership) (members : List Membership)
    → m.workspace_id ≡ ws
    → m.user_id ≡ user
    → any (is_of m.workspace_id m.user_id) members ≡ false
    → any (is_of ws user) members ≡ false
absent_later ws user m members same_ws same_user absent =
    ap (λ w. any (is_of w user) members) (sym same_ws)
    ∙ ap (λ u. any (is_of m.workspace_id u) members) (sym same_user)
    ∙ absent

any-join_user :
    (user : ℕ) (role : List ℕ) (m : Membership) (found : Option User) (listed : List Member)
    → any (shows user role) (join_user m found listed)
      ≡ (is_user found && m.user_id == user && m.role == role || any (shows user role) listed)
any-join_user user role m none listed = refl
any-join_user user role m (some u) listed = ground arith

module _ (ws user : ℕ) (role : List ℕ) (users : List User) where
  select_members-none :
      (members : List Membership)
      → any (is_of ws user) members ≡ false
      → any (shows user role) (select_members ws users members) ≡ false
  unfolding select_members
  select_members-none [] absent = refl
  select_members-none (m ∷ members) absent = ground (
    arith,
    select_members-none members,
    any-join_user user role m (find_id m.user_id users) (select_members ws users members),
    eqb_iff m.workspace_id ws,
    eqb_iff m.user_id user,
  )

  same_user : (m : Membership) → is_of ws user m ≡ true → m.user_id ≡ user
  same_user m this = ground (arith, eqb_iff m.user_id user)

  same_workspace : (m : Membership) → is_of ws user m ≡ true → m.workspace_id ≡ ws
  same_workspace m this = ground (arith, eqb_iff m.workspace_id ws)

  is_listed_role : (m : Membership) → (m.role == role) ≡ true → is_listed m.role ≡ is_listed role
  is_listed_role m same = ap is_listed ((codes_eq.same_iff m.role role).0 same)

  any-select_members :
      (members : List Membership)
      → IsKeyed members
      → any (shows user role) (select_members ws users members) ≡ (
          has_role role (find_role ws user members)
          && is_listed role
          && is_user (find_id user users))
  unfolding select_members IsKeyed find_role
  any-select_members [] keyed = refl
  any-select_members (m ∷ members) keyed = elim (Bool-cases (is_of ws user m)) [
    | inl this ↦ ground (
      arith,
      select_members-none members,
      absent_later ws user m members,
      any-join_user user role m (find_id m.user_id users) (select_members ws users members),
      ap (λ u. is_user (find_id u users)) (same_user m this),
      same_user m this,
      same_workspace m this,
      is_listed_role m,
    )
    | inr other ↦ ground (
      arith,
      any-select_members members (keyed.1),
      any-join_user user role m (find_id m.user_id users) (select_members ws users members),
    )
  ]

-- On a table that keeps its primary key, and where the query does not fail, a user is listed with a
-- role exactly when that is the role stored for the user in the workspace, it is not the integrator's,
-- and the user is there; and the members come in the order of invitation, those of one moment in the
-- order of their identifiers.
pub list_members-IsListing :
    (ws : ℕ) (d : Directory)
    → IsKeyed d.members
    → (listed : List Member) × (list_members false ws d ≡ ok listed)
      × IsInOrder listed
      × ((user : ℕ) (role : List ℕ)
          → any (shows user role) listed ≡ (
              has_role role (find_role ws user d.members)
              && is_listed role
              && is_user (find_id user d.users)))
unfolding list_members
list_members-IsListing ws d keyed = (
  sort_members (select_members ws d.users d.members),
  refl,
  sort_members-IsInOrder (select_members ws d.users d.members),
  λ user role.
      any-sort_members (shows user role) (select_members ws d.users d.members)
      ∙ any-select_members ws user role d.users d.members keyed,
)
