-- ===== src/Tests/Sessions.antt =====
-- Sessions, cookies, revocations and a login at work.
use lecrm.Common.{
  any, ℕ, ◌*◌, ◌≤◌, true, false, none, some, List, [], ◌∷◌, ◌++◌, ◌≡◌, ◌⊎◌, inl, refl, ok, arith,
  lookup,
}
use lecrm.Common.Int.{pos}
use lecrm.Common.Text.{codes, to_lower, trim_space, trim_left, is_space}
use lecrm.Encoding.Base64.{encode, decode, symbol, value}
use lecrm.Auth.Codec.{sign, check_signature, split_two}
use lecrm.Auth.Session.{open_payload, decode_auth_request}
use lecrm.Auth.SessionV2.{
  completed, v2_prefix, put_uint32, encrypt_aes_gcm, seal_session, encode_session_v2,
  session_from_request_v2,
}
use lecrm.Auth.SessionV2.Binding.{session_from_request_v2-encode_session_v2}
use lecrm.Auth.SessionV2.Authentic.{Speaks, session_from_request_v2-IsSigned}
use lecrm.Auth.Cookie.{
  CookieScope, scoped_domain, strip_suffix, subdomain_from_host, Cookie, build_session_cookie,
  build_state_cookie,
}
use lecrm.Auth.Cookie.Scope.{build_session_cookie-Matches}
use lecrm.Auth.Revocation.{new_revocation_cache, Revocations, refresh, is_revoked, revoke_session}
use lecrm.Auth.Revocation.Complete.{revoked_in, is_revoked-refresh}
use lecrm.Auth.Store.{
  find_workspace, workspace_by_slug, put_user, upsert_user, is_valid_role, put_member,
  ensure_member_with_role, integrator_grant_exists,
}
use lecrm.Members.{find_role}
use lecrm.Auth.Store.Accessible.{
  find_profile, get_user_profile, accessible_role, select_accessible, place_workspace,
  sort_workspaces, list_accessible_workspaces,
}
use lecrm.Auth.Handlers.Urls.{workspace_url}
use lecrm.Auth.Handlers.Switch.{workspaces}
use lecrm.Auth.Handlers.Switch.Reaches.{shows, HasRoles, reaches, workspaces-reaches}
use lecrm.Auth.Handlers.{World, WorkspaceEntry, switches, session_revoked, me, logout, revoke}
use lecrm.Auth.Handlers.Logout.{refreshed, me-logout, revoked_in-revoke}
use lecrm.Auth.Login.{Exchange, Call, Query, callback}
use lecrm.Auth.Login.LoggedIn.{LoggedIn, callback-LoggedIn}
use lecrm.Tests.Identity.{
  toy_crypto, session_json, codecs, secret, acme, session, nonce, token, can_seal, token_made,
  config, host, world, no_faults, named, is_session,
}

session_from_request_v2-encode_session_v2_example :
    session_from_request_v2 toy_crypto session_json codecs secret acme 60 (some token)
    ≡ some (completed 10 6 session, false)
session_from_request_v2-encode_session_v2_example =
    session_from_request_v2-encode_session_v2 toy_crypto session_json codecs secret acme acme
      (9 ∷ []) nonce token 10 6 60 session can_seal token_made

session_from_request_v2-IsSigned_example :
    ((false ≡ false)
      × ((payload : List ℕ) × (token ≡ v2_prefix ++ sign toy_crypto secret payload)
          × Speaks codecs acme 60 payload))
    ⊎ ((false ≡ true)
        × ((payload : List ℕ) × (token ≡ sign toy_crypto secret payload)
            × (open_payload session_json payload ≡ ok (completed 10 6 session))
            × (60 ≤ (completed 10 6 session).expires_at)))
session_from_request_v2-IsSigned_example =
    session_from_request_v2-IsSigned toy_crypto session_json codecs secret acme 60 token
      (completed 10 6 session) false is_session

-- The scope of the toy workspace, and its cookie.
abbrev scope : CookieScope
scope = record { workspace_subdomain = acme; domain_tld = codes "test"; secure = true }

abbrev cookie : Cookie
cookie = record {
  name = codes "lecrm_session";
  value = codes "v";
  path = codes "/";
  domain = host;
  max_age = pos 43200;
  secure = true;
}

cookie_made : build_session_cookie scope (codes "v") ≡ ok cookie
unfolding build_session_cookie scoped_domain
cookie_made = refl

domain_given : scoped_domain scope ≡ ok host
unfolding scoped_domain
domain_given = refl

build_session_cookie-Matches_example : acme ≡ acme
build_session_cookie-Matches_example =
    build_session_cookie-Matches scope scope (codes "v") cookie host cookie_made domain_given refl
      (inl refl)

-- One revoked session, and one user.
abbrev revocations : Revocations
revocations = record {
  sessions = record { jti = 5; user_id = 3; expires_at = 100 } ∷ [];
  users = (4, 20) ∷ [];
}

is_revoked-refresh_example :
    is_revoked
      (λ jti. jti * 4294967297)
      false
      60
      revocations
      (refresh (λ jti. jti * 4294967297) false false 50 revocations new_revocation_cache)
      5
      3
      10
    ≡ ok (revoked_in 60 revocations 5 3 10)
is_revoked-refresh_example =
    is_revoked-refresh (λ jti. jti * 4294967297) 50 60 revocations new_revocation_cache 5 3 10
      (omega arith)

me-logout_example :
    (me config no_faults 60 6 (some nonce) host (some token) (
      refreshed config 50 new_revocation_cache
        ((logout config no_faults 60 host (some token) world).1))).status
    ≡ 401
me-logout_example =
    me-logout config no_faults 60 50 60 6 (some nonce) host acme (some token) world
      new_revocation_cache (completed 10 6 session) false refl refl named is_session is_session
      (omega arith) refl (omega arith) (omega arith)

revoke_done : ((revoke config no_faults 60 host (some token) (some 8) world).0).status ≡ 204
unfolding revoke session_revoked revoke_session
revoke_done = grind (arith, named, is_session)

revoked_in-revoke_example :
    revoked_in 100
      (((revoke config no_faults 60 host (some token) (some 8) world).1).revocations)
      8
      7
      12
    ≡ false
unfolding lookup
revoked_in-revoke_example =
    revoked_in-revoke config no_faults 60 100 8 7 12 host acme (some token) world
      (completed 10 6 session) false named is_session revoke_done refl

-- The provider vouches for one user.
abbrev exchange : Exchange
exchange = λ code verifier uri.
    some (record { issuer = codes "i"; subject = codes "u"; email = codes "e"; name = codes "n" })

abbrev call : Call
call = record {
  now = 60000000000;
  state = none;
  verifier = none;
  fresh_user = 3;
  fresh_jti = 6;
  random = some nonce;
  lower = λ text. text;
}

abbrev query : Query
query = record { error = []; state = codes "s"; code = codes "c" }

-- The cookie of the login.
unfoldable state_cookie : List ℕ
state_cookie = sign toy_crypto secret (encode (1 ∷ []))

callback_done :
    ((callback config no_faults call exchange host (some state_cookie) query world).0).status ≡ 302
unfolding callback decode_auth_request check_signature sign split_two encode symbol decode
    subdomain_from_host strip_suffix to_lower trim_space trim_left is_space state_cookie
    workspace_by_slug find_workspace upsert_user put_user ensure_member_with_role is_valid_role
    put_member integrator_grant_exists encode_session_v2 seal_session encrypt_aes_gcm put_uint32
    build_session_cookie build_state_cookie scoped_domain value
callback_done = refl

callback-LoggedIn_example :
    LoggedIn config no_faults call exchange host state_cookie query world
      ((callback config no_faults call exchange host (some state_cookie) query world).0)
      ((callback config no_faults call exchange host (some state_cookie) query world).1)
callback-LoggedIn_example =
    callback-LoggedIn config no_faults call exchange host state_cookie query world callback_done

-- The user is an admin of one workspace, and has a grant for another one; a third was tombstoned.
abbrev switching : World
switching = record world {
  directory = record {
    users =
        record {
          id = 3;
          issuer = codes "i";
          subject = codes "u";
          email = some (codes "e");
          display_name = none;
        }
        ∷ [];
    members =
        record {
          workspace_id = 1;
          user_id = 3;
          role = codes "admin";
          invited_at = 0;
          joined_at = none;
        }
        ∷ [];
  };
  workspaces =
      record { id = 1; slug = acme; tombstoned = false }
      ∷ record { id = 2; slug = codes "beta"; tombstoned = false }
      ∷ record { id = 3; slug = codes "gone"; tombstoned = true }
      ∷ [];
  grants = record { workspace_id = 2; email = codes "e" } ∷ [];
}

abbrev entries : List WorkspaceEntry
entries =
    record { slug = acme; role = codes "admin"; url = codes "https://acme.test/" }
    ∷ record { slug = codes "beta"; role = codes "integrator"; url = codes "https://beta.test/" }
    ∷ []

answered :
    workspaces config no_faults (λ a b. false) (λ text. text) 60 host (some token) switching
    ≡ record { status = 200; cookies = []; said = switches entries }
unfolding workspaces session_revoked list_accessible_workspaces select_accessible accessible_role
    sort_workspaces place_workspace get_user_profile find_profile find_role workspace_url
answered = rw named (rw is_session refl)

known_profile : get_user_profile false 3 switching.directory.users ≡ ok (codes "e", [])
unfolding get_user_profile find_profile
known_profile = refl

switching-HasRoles : HasRoles switching.directory.members
unfolding is_valid_role
switching-HasRoles = (refl, tt)

workspaces-reaches_example :
    any (shows (codes "beta") (codes "integrator")) entries
    ≡ any
        (reaches
          (λ text. text)
          3
          (codes "e")
          switching.directory.members
          switching.grants
          (codes "beta")
          (codes "integrator"))
        switching.workspaces
workspaces-reaches_example =
    workspaces-reaches config no_faults (λ a b. false) (λ text. text) 60 host acme token (codes "e")
      [] switching (completed 10 6 session) false entries (codes "beta") (codes "integrator") named
      is_session known_profile refl switching-HasRoles answered
