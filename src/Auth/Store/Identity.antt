-- ===== src/Auth/Store/Identity.antt =====
-- Whom an issuer and a subject name (apps/api/internal/auth/store.go: UpsertUser).
use lecrm.Common.{
  ℕ, Bool, false, ◌&&◌, Option, none, some, List, [], ◌∷◌, ◌==◌, codes_eq, codes_beq_iff, beq_refl,
  if◌then◌else◌, ok, ◌≡◌, refl, ◌∙◌, arith,
}
use lecrm.Members.{User, Directory}
use lecrm.Auth.Store.{put_user, upsert_user}

-- The user of an issuer and a subject.
unfoldable pub find_identity : List ℕ → List ℕ → List User → Option ℕ
find_identity issuer subject [] = none
find_identity issuer subject (u ∷ users) =
    let rest = find_identity issuer subject users in
    if u.issuer == issuer && u.subject == subject then some u.id else rest

abbrev pub or_fresh : ℕ → Option ℕ → ℕ
or_fresh fresh none = fresh
or_fresh fresh (some user) = user

put_user-known :
    (fresh : ℕ) (issuer subject email name : List ℕ) (users : List User)
    → (put_user fresh issuer subject email name users).0
      ≡ or_fresh fresh (find_identity issuer subject users)
unfolding put_user find_identity
put_user-known fresh issuer subject email name [] = refl
put_user-known fresh issuer subject email name (u ∷ users) =
    ground (arith, put_user-known fresh issuer subject email name users)

find_identity-put_user :
    (fresh : ℕ) (issuer subject email name i s : List ℕ) (users : List User)
    → find_identity i s (put_user fresh issuer subject email name users).1 ≡ (
        if issuer == i && subject == s
        then some (put_user fresh issuer subject email name users).0
        else find_identity i s users)
unfolding put_user find_identity
find_identity-put_user fresh issuer subject email name i s [] = ground arith
find_identity-put_user fresh issuer subject email name i s (u ∷ users) = ground (
  arith,
  find_identity-put_user fresh issuer subject email name i s users,
  codes_beq_iff u.issuer issuer,
  codes_beq_iff u.subject subject,
  codes_beq_iff u.issuer i,
  codes_beq_iff u.subject s,
  codes_beq_iff issuer i,
  codes_beq_iff subject s,
)

-- Afterwards the issuer and the subject name the user, who is the one of before if there was one, and
-- every other issuer and subject name whom they named before.
pub record IsIdentified (fresh user : ℕ) (issuer subject : List ℕ) (users users' : List User)
    : Type 0 where
  pub is_user : user ≡ or_fresh fresh (find_identity issuer subject users)
  pub names : find_identity issuer subject users' ≡ some user
  pub others :
      (i s : List ℕ)
      → (issuer == i && subject == s) ≡ false
      → find_identity i s users' ≡ find_identity i s users

pub upsert_user-IsIdentified :
    (fails : Bool) (fresh user : ℕ) (issuer subject email name : List ℕ) (d d' : Directory)
    → upsert_user fails fresh issuer subject email name d ≡ (ok user, d')
    → IsIdentified fresh user issuer subject d.users d'.users
unfolding upsert_user
upsert_user-IsIdentified fails fresh user issuer subject email name d d' e =
    let put = put_user fresh issuer subject email name d.users in
    let same : user ≡ put.0 = ground arith in
    let after : d'.users ≡ put.1 = ground arith in
    record {
      is_user = same ∙ put_user-known fresh issuer subject email name d.users;
      names = rw after (
          rw same (
            find_identity-put_user fresh issuer subject email name issuer subject d.users
            ∙ rw (beq_refl issuer) (rw (beq_refl subject) refl)));
      others = λ i s other.
          rw after
            (find_identity-put_user fresh issuer subject email name i s d.users ∙ rw other refl);
    }
