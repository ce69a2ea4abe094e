-- ===== src/Auth/Login/Finished.antt =====
-- A login from the claims of the user on (apps/api/internal/auth/handlers.go: Callback).
use lecrm.Common.{
  subst, sym, ℕ, Bool, some, List, [], ◌∷◌, nat_eq, codes_eq, Result, ok, Result-cases, ◌≡◌, inl,
  inr, ap, arith, beq_refl,
}
use lecrm.Members.{Directory, find_role}
use lecrm.Auth.Codec.{TokenError}
use lecrm.Auth.SessionV2.{encode_session_v2}
use lecrm.Auth.Cookie.{Cookie, build_session_cookie, build_state_cookie}
use lecrm.Auth.Store.{
  StoreError, upsert_user, ensure_member_with_role, integrator_grant_exists, joined_role,
  find_role-put_member,
}
use lecrm.Auth.Store.Identity.{IsIdentified, upsert_user-IsIdentified}
use lecrm.Auth.Handlers.{Config, World, Faults, Response, scope_of, cookie_list}
use lecrm.Auth.Login.{
  Claims, Call, known_workspace, expired_cookies, granted_role, new_session, seconds,
}

-- The members of the directory are those that a user's insertion found.
upsert_user-members :
    (fails : Bool) (fresh user : ℕ) (issuer subject email name : List ℕ) (d d' : Directory)
    → upsert_user fails fresh issuer subject email name d ≡ (ok user, d')
    → d'.members ≡ d.members
unfolding upsert_user
upsert_user-members fails fresh user issuer subject email name d d' e = ground arith

ensure_member_with_role-joins :
    (fails : Bool) (now ws user : ℕ) (role : List ℕ) (d d' : Directory)
    → ensure_member_with_role fails now ws user role d ≡ (ok tt, d')
    → find_role ws user d'.members ≡ some (joined_role role (find_role ws user d.members))
unfolding ensure_member_with_role
ensure_member_with_role-joins fails now ws user role d d' e =
    ground
      (arith, find_role-put_member now ws user ws user role d.members, beq_refl ws, beq_refl user)

-- The users stay.
ensure_member_with_role-users :
    (fails : Bool) (now ws user : ℕ) (role : List ℕ) (d : Directory)
    → (ensure_member_with_role fails now ws user role d).1.users ≡ d.users
unfolding ensure_member_with_role
ensure_member_with_role-users fails now ws user role d = ground arith

module _ (cfg : Config) (faults : Faults) (call : Call) (slug : List ℕ) (claims : Claims)
    (w : World) where
  abbrev upserted : Result StoreError ℕ × Directory
  upserted =
      upsert_user faults.user call.fresh_user claims.issuer claims.subject claims.email claims.name
        w.directory

  abbrev sealed : ℕ → ℕ → Result TokenError (List ℕ)
  sealed ws user =
      encode_session_v2 cfg.crypto cfg.codecs cfg.session_secret slug (seconds call.now)
        call.fresh_jti call.random (new_session user ws)

  abbrev ensured : ℕ → ℕ → Result StoreError (Unit {0}) × Directory
  ensured ws user =
      ensure_member_with_role faults.member (seconds call.now) ws user
        (granted_role (integrator_grant_exists faults.grant call.lower ws claims.email w.grants))
        upserted.1

  -- The last part of a login, from the claims on.
  pub record Finished (ws user : ℕ) (response : Response) (after : World) : Type 0 where
    pub token : List ℕ
    pub identified :
        IsIdentified call.fresh_user user claims.issuer claims.subject w.directory.users
          after.directory.users
    pub session_cookie : Cookie
    pub joined :
        find_role ws user after.directory.members
        ≡ some (
            joined_role
              (granted_role
                (integrator_grant_exists faults.grant call.lower ws claims.email w.grants))
              (find_role ws user w.directory.members))
    pub issued : sealed ws user ≡ ok token
    pub built : build_session_cookie (scope_of cfg slug) token ≡ ok session_cookie
    pub set : (rest : List Cookie) × (response.cookies ≡ session_cookie ∷ rest)

  pub known_workspace-Finished :
      (ws : ℕ)
      → ((known_workspace cfg faults call slug claims w (ok ws)).0).status ≡ 302
      → (user : ℕ) × Finished ws user
          ((known_workspace cfg faults call slug claims w (ok ws)).0)
          ((known_workspace cfg faults call slug claims w (ok ws)).1)
  known_workspace-Finished ws done = elim (Result-cases (upserted.0)) [
    | inr (e, failed) ↦ absurd (ground (arith, failed, done))
    | inl (user, known) ↦ elim (Result-cases (ensured ws user).0) [
      | inr (e, failed) ↦ absurd (ground (arith, known, failed, done))
      | inl (u, member) ↦ elim (Result-cases (sealed ws user)) [
        | inr (e, failed) ↦ absurd (ground (arith, known, member, failed, done))
        | inl (token, made) ↦ elim (Result-cases (build_session_cookie (scope_of cfg slug) token)) [
          | inr (e, failed) ↦ absurd (ground (arith, known, member, made, failed, done))
          | inl (c, baked) ↦ (
            user,
            record {
              token = token;
              identified =
                  subst
                    (IsIdentified call.fresh_user user claims.issuer claims.subject
                      w.directory.users)
                    (sym (
                      ground (
                        arith,
                        known,
                        member,
                        ensure_member_with_role-users faults.member (seconds call.now) ws user
                            (granted_role (
                              integrator_grant_exists faults.grant call.lower ws claims.email
                                w.grants))
                            upserted.1,
                      )))
                    (upsert_user-IsIdentified faults.user call.fresh_user user claims.issuer
                      claims.subject claims.email claims.name w.directory upserted.1
                      (ap (λ r. (r, upserted.1)) known));
              session_cookie = c;
              joined = ground (
                arith,
                known,
                member,
                ensure_member_with_role-joins faults.member (seconds call.now) ws user
                    (granted_role
                      (integrator_grant_exists faults.grant call.lower ws claims.email w.grants))
                    upserted.1 (ensured ws user).1 (ap (λ r. (r, (ensured ws user).1)) member),
                ap (find_role ws user) (
                    upsert_user-members faults.user call.fresh_user user claims.issuer
                      claims.subject claims.email claims.name w.directory upserted.1
                      (ap (λ r. (r, upserted.1)) known)),
              );
              issued = made;
              built = baked;
              set = (
                expired_cookies (cookie_list (build_state_cookie (scope_of cfg slug) [])),
                ground (arith, known, member, made, baked),
              );
            },
          )
        ]
      ]
    ]
  ]
