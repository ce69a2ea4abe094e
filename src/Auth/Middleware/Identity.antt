-- ===== src/Auth/Middleware/Identity.antt =====
-- Who a request on the CRM routes acts as, from the cookie or the header that it was given.
use lecrm.Common.{
  ℕ, ◌≤◌, ◌<◌, false, none, some, List, [], codes_eq, beq_refl, ok, ◌≡◌, ◌≢◌, ◌⊎◌, inl, inr, refl,
  ap, ◌∙◌, arith,
}
use lecrm.Rbac.{Role, role_none, role_member, role_admin, level}
use lecrm.Rbac.Middleware.{Principal, RoleLookup, min_role, handled, insufficient_role}
use lecrm.Rbac.Admission.{crm_route, crm_route_session}
use lecrm.Auth.Session.{Session}
use lecrm.Auth.SessionV2.{completed, encode_session_v2}
use lecrm.Auth.SessionV2.Binding.{CanSeal, session_from_request_v2-encode_session_v2}
use lecrm.Auth.Cookie.{scoped_domain}
use lecrm.Auth.Cookie.Scope.{IsPlain, Names, subdomain-scoped_domain}
use lecrm.Auth.Handlers.{scope_of, request_session}
use lecrm.Auth.TokenStore.{TokenRow}
use lecrm.Auth.Middleware.{
  workspace_by_slug_full, HttpRequest, Edge, Scoped, middleware, gate_request, gate_session,
  serve_crm,
}

-- A request at the host of a workspace that is there.
pub record Arrives (edge : Edge) (r : HttpRequest) (slug domain : List ℕ) (ws : ℕ) : Type 0 where
  pub given : scoped_domain (scope_of edge.config slug) ≡ ok domain
  pub plain : IsPlain domain edge.config.domain_tld
  pub names : Names r.host domain
  pub found : workspace_by_slug_full edge.resolve_fails slug edge.workspaces ≡ ok ws

pub middleware_plain :
    (edge : Edge) (r : HttpRequest) (slug domain : List ℕ) (ws : ℕ) (rows : List TokenRow)
    → Arrives edge r slug domain ws
    → r.authorization ≡ []
    → middleware edge r rows ≡ (ok (record { workspace = ws; slug = slug; bearer = none }), rows)
unfolding middleware
middleware_plain edge r slug domain ws rows here bare =
    let named =
      (subdomain-scoped_domain (scope_of edge.config slug) domain r.host here.given here.plain
        here.names).1 in
    ground (arith, named, here.found, bare)

serve_crm_plain :
    (edge : Edge) (store : RoleLookup) (r : HttpRequest) (slug domain : List ℕ) (ws : ℕ)
    (rows : List TokenRow)
    → Arrives edge r slug domain ws
    → r.authorization ≡ []
    → (serve_crm edge store r rows).0
      ≡ ok (
          crm_route store
            (gate_request edge r (record { workspace = ws; slug = slug; bearer = none }))
            none)
unfolding serve_crm
serve_crm_plain edge store r slug domain ws rows here bare =
    ground (arith, middleware_plain edge r slug domain ws rows here bare)

-- A session that was issued for a workspace opens the CRM routes of that workspace, at its host, until
-- it expires: a request with its cookie and no bearer acts as the user of the session with the role
-- that is stored, where that reaches what the method needs, and is refused with 403 where it does not.
pub serve_crm-session :
    (edge : Edge) (store : RoleLookup) (r : HttpRequest) (rows : List TokenRow)
    (slug domain key nonce token : List ℕ) (issued fresh : ℕ) (s : Session) (role : Role)
    → Arrives edge r slug domain s.workspace_id
    → r.authorization ≡ []
    → r.cookie ≡ some token
    → CanSeal edge.config.crypto edge.config.codecs edge.config.session_secret slug key nonce
        (completed issued fresh s)
    → encode_session_v2 edge.config.crypto edge.config.codecs edge.config.session_secret slug issued
        fresh
        (some nonce)
        s
      ≡ ok token
    → edge.now ≤ (completed issued fresh s).expires_at
    → store s.workspace_id s.user_id ≡ ok (some role)
    → role ≢ role_none
    → ((level (min_role r.method role_member role_admin) ≤ level role)
        × ((q : Principal) × ((serve_crm edge store r rows).0 ≡ ok (handled (some q)))
            × (q.role ≡ role)
            × (q.user_id ≡ s.user_id)))
      ⊎ ((level role < level (min_role r.method role_member role_admin))
          × ((serve_crm edge store r rows).0 ≡ ok insufficient_role))
serve_crm-session edge store r rows slug domain key nonce token issued fresh s role here bare cookie
      can made early stored real =
    let scoped : Scoped = record { workspace = s.workspace_id; slug = slug; bearer = none } in
    let request = gate_request edge r scoped in
    let decoded : request_session edge.config edge.now slug r.cookie
        ≡ some (completed issued fresh s, false) =
      rw cookie (
        session_from_request_v2-encode_session_v2 edge.config.crypto edge.config.v1
          edge.config.codecs edge.config.session_secret slug slug key nonce token issued fresh
          edge.now s can made
        ∙ ground (arith, early, beq_refl slug)) in
    let reached = serve_crm_plain edge store r slug domain s.workspace_id rows here bare in
    elim (crm_route_session store request s.workspace_id
      (record { workspace_id = s.workspace_id; user_id = s.user_id }) none role refl refl
      (ap gate_session decoded) refl stored real) [
        | inl (reaches, (q, goes, its_role, its_user, _)) ↦
            inl (reaches, (q, reached ∙ ap ok goes, its_role, its_user))
        | inr (below, stops) ↦ inr (below, reached ∙ ap ok stops)
      ]
