-- ===== src/Members/Access.antt =====
-- What the gates of the CRM routes make of a change among the members: the handlers of
-- apps/api/internal/members/handler.go before apps/api/internal/rbac/middleware.go.
use lecrm.Common.{ℕ, Bool, false, none, some, nat_eq, ok, ◌≡◌, inr, ◌∙◌, ap, arith, eqb_iff}
use lecrm.Rbac.{role_none}
use lecrm.Rbac.Middleware.{Session, Request, authentication_required}
use lecrm.Rbac.Admission.{crm_route, crm_route_foreign}
use lecrm.Members.{Directory, lookup_role, remove_member}
use lecrm.Members.Handler.{handle_remove_member}
use lecrm.Members.Refinement.{lookup_role-remove_member}

-- A removal is answered by 204 only if its statement did not fail.
handle_remove_member-good :
    (fails : Bool) (ws actor target : ℕ) (d : Directory)
    → (handle_remove_member fails ws (some target) actor d).1 ≡ 204
    → (handle_remove_member fails ws (some target) actor d).0 ≡ (remove_member false ws target d).0
unfolding handle_remove_member remove_member
handle_remove_member-good fails ws actor target d good = ground arith

lookup_role-removed :
    (ws target : ℕ) (d : Directory)
    → lookup_role false ((remove_member false ws target d).0) ws target ≡ ok none
lookup_role-removed ws target d = ground (
  arith,
  lookup_role-remove_member ws role_none d ws target target,
  eqb_iff ws ws,
  eqb_iff target target,
)

-- Once a removal is answered by 204, the session of the member that was removed, presented without a
-- bearer token and an earlier principal on a CRM route of that workspace, is refused with 401 whatever
-- the method, where the role look-up does not fail.
pub crm_route-handle_remove_member :
    (fails : Bool) (ws actor target : ℕ) (d : Directory) (r : Request) (s : Session)
    → (handle_remove_member fails ws (some target) actor d).1 ≡ 204
    → r.workspace ≡ some ws
    → r.bearer ≡ none
    → r.session ≡ some s
    → s.user_id ≡ target
    → crm_route (lookup_role false ((handle_remove_member fails ws (some target) actor d).0)) r none
      ≡ authentication_required
crm_route-handle_remove_member fails ws actor target d r s good here no_bearer sess removed =
    crm_route_foreign (lookup_role false ((handle_remove_member fails ws (some target) actor d).0))
      r ws s here no_bearer sess
      (inr (
        ap (λ after. lookup_role false after ws s.user_id)
          (handle_remove_member-good fails ws actor target d good)
        ∙ ap (lookup_role false ((remove_member false ws target d).0) ws) removed
        ∙ lookup_role-removed ws target d))
