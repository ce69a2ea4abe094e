-- ===== src/Auth/Handlers/Logout.antt =====
-- Sessions that were ended (apps/api/internal/auth/handlers.go: Logout, Revoke, RevokeAll, Me).
use lecrm.Common.{
  ℕ, ◌≤◌, ◌<◌, Bool, true, false, ◌||◌, Option, some, List, [], ◌∷◌, ◌++◌, any, ltb, eqb_iff,
  nat_eq, lookup, lookup-insert, ◌≡◌, ◌≢◌, refl, ap, ◌∙◌, arith, beq_refl,
}
use lecrm.Auth.Session.{Session}
use lecrm.Auth.Cookie.{subdomain_from_host}
use lecrm.Auth.Revocation.{
  SessionRevocation, Revocations, RevocationCache, has_jti, revoke_session,
  revoke_all_user_sessions, refresh, is_older, is_active,
}
use lecrm.Auth.Revocation.Complete.{revoked_in, is_revoked-refresh}
use lecrm.Auth.Handlers.{
  Config, World, Faults, session_revoked, request_session, me, logout, revoke, revoke_all,
}

-- The world once the cache has been refreshed, without a failure.
abbrev pub refreshed : Config → ℕ → RevocationCache → World → World
refreshed cfg t rc w = record w { cache = some (refresh cfg.sum64 false false t w.revocations rc) }

session_revoked-refreshed :
    (cfg : Config) (faults : Faults) (t now : ℕ) (rc : RevocationCache) (w : World) (s : Session)
    → faults.point_query ≡ false
    → t ≤ now
    → session_revoked cfg faults now (refreshed cfg t rc w) s
      ≡ revoked_in now w.revocations s.jti s.user_id s.issued_at
unfolding session_revoked
session_revoked-refreshed cfg faults t now rc w s works le = rw works (
    ground
      (arith, is_revoked-refresh cfg.sum64 t now w.revocations rc s.jti s.user_id s.issued_at le))

any-append :
    (test : SessionRevocation → Bool) (rows : List SessionRevocation) (row : SessionRevocation)
    → any test (rows ++ row ∷ []) ≡ (any test rows || test row)
any-append test [] row = ground arith
any-append test (r ∷ rows) row = ground (arith, any-append test rows row)

-- No row of an identifier is active if there is none.
absent-is_active :
    (now jti : ℕ) (rows : List SessionRevocation)
    → any (has_jti jti) rows ≡ false
    → any (is_active now jti) rows ≡ false
absent-is_active now jti [] h = refl
absent-is_active now jti (row ∷ rows) h = ground (arith, absent-is_active now jti rows)

-- A revocation that is new lasts until the moment that it was given.
revoked_in-revoke_session :
    (now jti by expires user issued : ℕ) (db : Revocations)
    → any (has_jti jti) db.sessions ≡ false
    → revoked_in now ((revoke_session false jti by expires db).0) jti user issued
      ≡ (is_older issued (lookup user db.users) || ltb now expires)
unfolding revoke_session
revoked_in-revoke_session now jti by expires user issued db new = ground (
  arith,
  new,
  any-append (is_active now jti) db.sessions
      (record { jti = jti; user_id = by; expires_at = expires }),
  absent-is_active now jti db.sessions new,
  beq_refl jti,
)

logout_revokes :
    (cfg : Config) (faults : Faults) (now : ℕ) (host slug : List ℕ) (cookie : Option (List ℕ))
    (w : World) (s : Session) (old : Bool)
    → faults.revocation ≡ false
    → subdomain_from_host host cfg.domain_tld ≡ some slug
    → request_session cfg now slug cookie ≡ some (s, old)
    → s.jti ≢ 0
    → ((logout cfg faults now host cookie w).1).revocations
      ≡ (revoke_session false s.jti s.user_id s.expires_at w.revocations).0
unfolding logout
logout_revokes cfg faults now host slug cookie w s old works named is_session given =
    ground (arith, works, named, is_session, eqb_iff s.jti 0)

-- A session that was logged out no longer opens the profile: once the cache has been refreshed, the
-- same cookie at the same host is answered by 401 at every moment before the session expires, where
-- the session has an identifier that was not revoked before and the statements do not fail.
pub me-logout :
    (cfg : Config) (faults : Faults) (now t later fresh : ℕ) (random : Option (List ℕ))
    (host slug : List ℕ) (cookie : Option (List ℕ)) (w : World) (rc : RevocationCache) (s : Session)
    (old : Bool)
    → faults.revocation ≡ false
    → faults.point_query ≡ false
    → subdomain_from_host host cfg.domain_tld ≡ some slug
    → request_session cfg now slug cookie ≡ some (s, old)
    → request_session cfg later slug cookie ≡ some (s, old)
    → s.jti ≢ 0
    → any (has_jti s.jti) w.revocations.sessions ≡ false
    → t ≤ later
    → later < s.expires_at
    → (me cfg faults later fresh random host cookie
        (refreshed cfg t rc ((logout cfg faults now host cookie w).1))).status
      ≡ 401
unfolding me
me-logout cfg faults now t later fresh random host slug cookie w rc s old works queried named before
      still given new refreshed_by early =
    let after = (logout cfg faults now host cookie w).1 in
    let ended : revoked_in later after.revocations s.jti s.user_id s.issued_at ≡ true =
      ap (λ db. revoked_in later db s.jti s.user_id s.issued_at)
        (logout_revokes cfg faults now host slug cookie w s old works named before given)
      ∙ ground (
        arith,
        revoked_in-revoke_session later s.jti s.user_id s.expires_at s.user_id s.issued_at
            w.revocations new,
      ) in
    ground (
      arith,
      named,
      still,
      session_revoked-refreshed cfg faults t later rc after s queried refreshed_by,
      ended,
    )

revoke_writes :
    (cfg : Config) (faults : Faults) (now target : ℕ) (host slug : List ℕ)
    (cookie : Option (List ℕ)) (w : World) (s : Session) (old : Bool)
    → subdomain_from_host host cfg.domain_tld ≡ some slug
    → request_session cfg now slug cookie ≡ some (s, old)
    → ((revoke cfg faults now host cookie (some target) w).0).status ≡ 204
    → ((revoke cfg faults now host cookie (some target) w).1).revocations
      ≡ (revoke_session false target s.user_id s.expires_at w.revocations).0
unfolding revoke revoke_session
revoke_writes cfg faults now target host slug cookie w s old named is_session done =
    ground (arith, named, is_session)

-- What a session revokes by its identifier stays revoked exactly until the session that asked expires,
-- whoever the revoked session is of and whenever it expires: then, if the revocation is new and the
-- user's sessions were not revoked altogether, it is in force again.
pub revoked_in-revoke :
    (cfg : Config) (faults : Faults) (now later target user issued : ℕ) (host slug : List ℕ)
    (cookie : Option (List ℕ)) (w : World) (s : Session) (old : Bool)
    → subdomain_from_host host cfg.domain_tld ≡ some slug
    → request_session cfg now slug cookie ≡ some (s, old)
    → ((revoke cfg faults now host cookie (some target) w).0).status ≡ 204
    → any (has_jti target) w.revocations.sessions ≡ false
    → revoked_in later
        (((revoke cfg faults now host cookie (some target) w).1).revocations)
        target
        user
        issued
      ≡ (is_older issued (lookup user w.revocations.users) || ltb later s.expires_at)
revoked_in-revoke cfg faults now later target user issued host slug cookie w s old named is_session
      done new =
    ap (λ db. revoked_in later db target user issued)
      (revoke_writes cfg faults now target host slug cookie w s old named is_session done)
    ∙ revoked_in-revoke_session later target s.user_id s.expires_at user issued w.revocations new

revoke_all_writes :
    (cfg : Config) (faults : Faults) (now : ℕ) (host slug : List ℕ) (cookie : Option (List ℕ))
    (w : World) (s : Session) (old : Bool)
    → subdomain_from_host host cfg.domain_tld ≡ some slug
    → request_session cfg now slug cookie ≡ some (s, old)
    → ((revoke_all cfg faults now host cookie w).0).status ≡ 204
    → lookup s.user_id (((revoke_all cfg faults now host cookie w).1).revocations).users ≡ some now
unfolding revoke_all revoke_all_user_sessions
revoke_all_writes cfg faults now host slug cookie w s old named is_session done = ground (
  arith,
  named,
  is_session,
  lookup-insert s.user_id s.user_id now w.revocations.users,
  beq_refl s.user_id,
)

-- After all sessions of a user were revoked, and the cache has been refreshed, no session of that user
-- that was issued until then opens the profile, at whatever host and from whatever cookie, where the
-- point query does not fail.
pub me-revoke_all :
    (cfg : Config) (faults : Faults) (now t later fresh : ℕ) (random : Option (List ℕ))
    (host slug at_host at_slug : List ℕ) (cookie at_cookie : Option (List ℕ)) (w : World)
    (rc : RevocationCache) (s other : Session) (old at_old : Bool)
    → faults.point_query ≡ false
    → subdomain_from_host host cfg.domain_tld ≡ some slug
    → request_session cfg now slug cookie ≡ some (s, old)
    → ((revoke_all cfg faults now host cookie w).0).status ≡ 204
    → subdomain_from_host at_host cfg.domain_tld ≡ some at_slug
    → request_session cfg later at_slug at_cookie ≡ some (other, at_old)
    → other.user_id ≡ s.user_id
    → other.issued_at ≤ now
    → t ≤ later
    → (me cfg faults later fresh random at_host at_cookie
        (refreshed cfg t rc ((revoke_all cfg faults now host cookie w).1))).status
      ≡ 401
unfolding me
me-revoke_all cfg faults now t later fresh random host slug at_host at_slug cookie at_cookie w rc s
      other old at_old queried named before done at_named still same issued refreshed_by =
    let after = (revoke_all cfg faults now host cookie w).1 in
    let ended : is_older other.issued_at (lookup other.user_id after.revocations.users) ≡ true =
      rw same (
        rw (revoke_all_writes cfg faults now host slug cookie w s old named before done)
          (ground arith)) in
    ground (
      arith,
      at_named,
      still,
      session_revoked-refreshed cfg faults t later rc after other queried refreshed_by,
      ended,
    )
