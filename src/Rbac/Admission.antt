-- ===== src/Rbac/Admission.antt =====
-- Which requests come through the gates of the CRM routes.
use lecrm.Common.{
  ℕ, ◌≤◌, ◌<◌, leb, Bool-cases, true, false, Option, none, some, List, [], ◌∷◌, any, ◌≡◌, ◌≢◌, ◌⊎◌,
  inl, inr, refl, arith, ok, nat_eq, eqb_iff,
}
use lecrm.Rbac.{Role, role_none, role_member, role_admin, level, grants_write, role_from_scopes}
use lecrm.Rbac.Middleware.{
  BearerActor, Session, Request, Principal, RoleLookup, authentication_required, insufficient_role,
  handled, Handler, actor_type_of, resolve, require_role_by_method, min_role,
}

-- The CRM routes: reads for members, writes for admins; the handler answers for its principal.
abbrev pub crm_route : RoleLookup → Handler
crm_route store = resolve store (require_role_by_method role_member role_admin (λ r p. handled p))

-- The least role that the method needs.
abbrev pub needed : Request → Role
needed r = min_role r.method role_member role_admin

-- Who a session acts as.
abbrev session_principal : ℕ → Role → Principal
session_principal user role = record {
  role = role;
  user_id = user;
  actor_type = actor_type_of role;
  is_service_token = false;
}

abbrev token_principal : BearerActor → Principal
token_principal actor = record {
  role = role_from_scopes actor.scopes;
  user_id = 0;
  actor_type = actor.actor_type;
  is_service_token = true;
}

-- A scope set gives one of two roles.
role_from_scopes_cases :
    (scopes : List (List ℕ))
    → ((any grants_write scopes ≡ true) × (role_from_scopes scopes ≡ role_admin))
      ⊎ ((any grants_write scopes ≡ false) × (role_from_scopes scopes ≡ role_member))
unfolding role_from_scopes
role_from_scopes_cases [] = inr (refl, refl)
role_from_scopes_cases (s ∷ scopes) = ground (arith, role_from_scopes_cases scopes)

-- A method reads or writes.
needed_cases : (r : Request) → (needed r ≡ role_member) ⊎ (needed r ≡ role_admin)
needed_cases r = ground arith

-- A session of another workspace, or of a user with no membership here, is as good as none: without a
-- bearer token the request, which comes with no principal, is refused with 401 whatever its method.
pub crm_route_foreign :
    (store : RoleLookup) (r : Request) (ws : ℕ) (s : Session)
    → r.workspace ≡ some ws
    → r.bearer ≡ none
    → r.session ≡ some s
    → (s.workspace_id ≢ ws) ⊎ (store ws s.user_id ≡ ok none)
    → crm_route store r none ≡ authentication_required
unfolding resolve require_role_by_method
crm_route_foreign store r ws s here no_bearer sess why = ground (arith, eqb_iff s.workspace_id ws)

-- A member's session comes through exactly when the stored role reaches what the method needs, and the
-- handler then acts as that user with that role; below it the answer is 403.
pub crm_route_session :
    (store : RoleLookup) (r : Request) (ws : ℕ) (s : Session) (p : Option Principal) (role : Role)
    → r.workspace ≡ some ws
    → r.bearer ≡ none
    → r.session ≡ some s
    → s.workspace_id ≡ ws
    → store ws s.user_id ≡ ok (some role)
    → role ≢ role_none
    → ((level (needed r) ≤ level role)
        × ((q : Principal) × (crm_route store r p ≡ handled (some q))
            × (q.role ≡ role)
            × (q.user_id ≡ s.user_id)
            × (q.is_service_token ≡ false)))
      ⊎ ((level role < level (needed r)) × (crm_route store r p ≡ insufficient_role))
unfolding resolve require_role_by_method
crm_route_session store r ws s p role here no_bearer sess same stored real =
    elim (Bool-cases (leb (level (needed r)) (level role))) [
      | inl reaches ↦ inl (
        ground arith,
        (
          session_principal s.user_id role,
          ground (arith, eqb_iff s.workspace_id ws),
          refl,
          refl,
          refl,
        ),
      )
      | inr below ↦ inr (ground arith, ground (arith, eqb_iff s.workspace_id ws))
    ]

-- A service token reads always, and writes exactly when a scope of its grants writing; a session that
-- came with it is not looked at.
pub crm_route_token :
    (store : RoleLookup) (r : Request) (ws : ℕ) (actor : BearerActor) (p : Option Principal)
    → r.workspace ≡ some ws
    → r.bearer ≡ some actor
    → ((needed r ≡ role_member) ⊎ (any grants_write actor.scopes ≡ true))
        × ((q : Principal) × (crm_route store r p ≡ handled (some q))
            × (q.role ≡ role_from_scopes actor.scopes)
            × (q.is_service_token ≡ true))
      ⊎ ((needed r ≡ role_admin)
          × (any grants_write actor.scopes ≡ false)
          × (crm_route store r p ≡ insufficient_role))
unfolding resolve require_role_by_method
crm_route_token store r ws actor p here bears = elim (role_from_scopes_cases actor.scopes) [
  | inl (grants, admin) ↦ inl (inr grants, (token_principal actor, ground arith, refl, refl))
  | inr (reads, member) ↦ elim (needed_cases r) [
    | inl reading ↦ inl (inl reading, (token_principal actor, ground arith, refl, refl))
    | inr writing ↦ inr (writing, reads, ground arith)
  ]
]
