-- ===== src/Auth/Login/LoggedIn.antt =====
-- What a login that goes through rests on, and what it leaves behind
-- (apps/api/internal/auth/handlers.go: Callback).
use lecrm.Common.{
  subst, ℕ, some, List, ◌∷◌, nat_eq, codes_eq, codes_beq_iff, ok, Option-cases, Result-cases, ◌≡◌,
  inl, inr, sym, ap, ◌∙◌, arith,
}
use lecrm.Members.{find_role}
use lecrm.Auth.Session.{AuthRequest, decode_auth_request}
use lecrm.Auth.SessionV2.{encode_session_v2}
use lecrm.Auth.Cookie.{Cookie, build_session_cookie, subdomain_from_host}
use lecrm.Auth.Store.{workspace_by_slug, integrator_grant_exists, joined_role}
use lecrm.Auth.Store.Identity.{IsIdentified}
use lecrm.Auth.Handlers.{Config, World, Faults, Response, scope_of}
use lecrm.Auth.Login.{
  Claims, Call, Exchange, Query, callback, callback_cookie, known_workspace, granted_role,
  new_session, seconds,
}
use lecrm.Auth.Login.Finished.{known_workspace-Finished}

-- A user who was logged in.
pub record LoggedIn (cfg : Config) (faults : Faults) (call : Call) (exchange : Exchange)
    (host : List ℕ) (cookie : List ℕ) (query : Query) (w : World) (response : Response)
    (after : World) : Type 0 where
  pub slug : List ℕ
  pub request : AuthRequest
  pub claims : Claims
  pub workspace : ℕ
  pub user : ℕ
  pub token : List ℕ
  pub session_cookie : Cookie
  -- the host names the workspace that the signed request of the login is for
  pub named : subdomain_from_host host cfg.domain_tld ≡ some slug
  pub requested :
      decode_auth_request cfg.crypto cfg.request cfg.state_secret call.now cookie ≡ ok request
  pub bound : request.workspace_subdomain ≡ slug
  pub same_state : query.state ≡ request.state
  pub vouched : exchange query.code request.code_verifier request.redirect_uri ≡ some claims
  pub found : workspace_by_slug faults.workspace slug w.workspaces ≡ ok workspace
  -- the user is the one of the claims' issuer and subject, of before the login or new
  pub identified :
      IsIdentified call.fresh_user user claims.issuer claims.subject w.directory.users
        after.directory.users
  -- the user has at least the role that the grants give, and keeps a higher one
  pub joined :
      find_role workspace user after.directory.members
      ≡ some (
          joined_role
            (granted_role
              (integrator_grant_exists faults.grant call.lower workspace claims.email w.grants))
            (find_role workspace user w.directory.members))
  -- the cookie is bound to that workspace, and holds a session of that user there
  pub issued :
      encode_session_v2 cfg.crypto cfg.codecs cfg.session_secret slug
        (seconds call.now)
        call.fresh_jti
        call.random
        (new_session user workspace)
      ≡ ok token
  pub built : build_session_cookie (scope_of cfg slug) token ≡ ok session_cookie
  pub set : (rest : List Cookie) × (response.cookies ≡ session_cookie ∷ rest)

module _ (cfg : Config) (faults : Faults) (call : Call) (exchange : Exchange) (host cookie : List ℕ)
    (query : Query) (w : World) (slug : List ℕ)
    (named : subdomain_from_host host cfg.domain_tld ≡ some slug) where
  abbrev at_slug : Response × World
  at_slug = callback_cookie cfg faults call exchange slug query w (some cookie)

  finish :
      (req : AuthRequest) (claims : Claims) (ws : ℕ)
      → decode_auth_request cfg.crypto cfg.request cfg.state_secret call.now cookie ≡ ok req
      → exchange query.code req.code_verifier req.redirect_uri ≡ some claims
      → workspace_by_slug faults.workspace slug w.workspaces ≡ ok ws
      → (at_slug.0).status ≡ 302
      → LoggedIn cfg faults call exchange host cookie query w at_slug.0 at_slug.1
  finish req claims ws requested vouched found done =
      let same : at_slug ≡ known_workspace cfg faults call slug claims w (ok ws) =
        ground (arith, requested, vouched, found, done) in
      let (user, finished) =
        known_workspace-Finished cfg faults call slug claims w ws
          (ap (λ (r : Response × World). (r.0).status) (sym same) ∙ done) in
      let (rest, cookies) = finished.set in
      record {
        slug = slug;
        request = req;
        claims = claims;
        workspace = ws;
        user = user;
        token = finished.token;
        session_cookie = finished.session_cookie;
        named = named;
        requested = requested;
        bound = (codes_beq_iff req.workspace_subdomain slug).0 (ground (arith, requested, done));
        same_state = (codes_beq_iff query.state req.state).0 (ground (arith, requested, done));
        vouched = vouched;
        found = found;
        identified =
            subst (IsIdentified call.fresh_user user claims.issuer claims.subject w.directory.users)
              (sym (ap (λ (r : Response × World). (r.1).directory.users) same)) finished.identified;
        joined =
            ap (λ (r : Response × World). find_role ws user (r.1).directory.members) same
            ∙ finished.joined;
        issued = finished.issued;
        built = finished.built;
        set = (rest, ap (λ (r : Response × World). (r.0).cookies) same ∙ cookies);
      }

  for_slug :
      (at_slug.0).status ≡ 302
      → LoggedIn cfg faults call exchange host cookie query w at_slug.0 at_slug.1
  for_slug done =
      elim (Result-cases
        (decode_auth_request cfg.crypto cfg.request cfg.state_secret call.now cookie)) [
          | inr (e, refused) ↦ absurd (ground (arith, refused, done))
          | inl (req, requested) ↦
              elim (Option-cases (exchange query.code req.code_verifier req.redirect_uri)) [
                | inl unvouched ↦ absurd (ground (arith, requested, unvouched, done))
                | inr (claims, vouched) ↦
                    elim (Result-cases (workspace_by_slug faults.workspace slug w.workspaces)) [
                      | inr (e, missing) ↦
                          absurd (ground (arith, requested, vouched, missing, done))
                      | inl (ws, found) ↦ finish req claims ws requested vouched found done
                    ]
              ]
        ]

-- A callback redirects only a user who was logged in: the host names the workspace that the signed
-- request of the login was made for, not expired, whose state the query repeats; the identity provider
-- vouches for the claims by the code and the verifier of that request; the user is the one whom the
-- issuer and the subject of the claims named before, or a new one where they named none, they name that
-- user afterwards, and no other issuer and subject name another user than before; the user's role there
-- is at least the one that the grants give, and a higher one is kept; and the first cookie is a session
-- of that user in that workspace, bound to its domain.
pub callback-LoggedIn :
    (cfg : Config) (faults : Faults) (call : Call) (exchange : Exchange) (host cookie : List ℕ)
    (query : Query) (w : World)
    → ((callback cfg faults call exchange host (some cookie) query w).0).status ≡ 302
    → LoggedIn cfg faults call exchange host cookie query w
        ((callback cfg faults call exchange host (some cookie) query w).0)
        ((callback cfg faults call exchange host (some cookie) query w).1)
unfolding callback
callback-LoggedIn cfg faults call exchange host cookie query w done =
    elim (Option-cases (subdomain_from_host host cfg.domain_tld)) [
      | inl unnamed ↦ absurd (ground (arith, unnamed, done))
      | inr (slug, named) ↦
          rw named
            (for_slug cfg faults call exchange host cookie query w slug named (rw named at done))
    ]
