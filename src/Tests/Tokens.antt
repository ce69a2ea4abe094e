-- ===== src/Tests/Tokens.antt =====
-- Service tokens, and requests that pass the middleware of the workspaces.
use lecrm.Common.{
  ℕ, zero, suc, ◌+◌, ◌-◌, ◌≤◌, ◌<◌, false, Option, none, some, List, [], ◌∷◌, ◌++◌, map, length,
  ◌≡◌, ◌≢◌, ◌⊎◌, inl, refl, ok, arith,
}
use lecrm.Common.Text.{codes, to_lower, trim_space, trim_left, is_space}
use lecrm.Encoding.Base64.{encode}
use lecrm.Encoding.Split.{Free, split, join}
use lecrm.Rbac.{role_member, role_admin, level}
use lecrm.Rbac.Middleware.{Principal, RoleLookup, handled, get, min_role, insufficient_role}
use lecrm.Auth.Codec.{Json, split_two}
use lecrm.Auth.Cookie.{scoped_domain}
use lecrm.Auth.Token.{
  Cost, Argon, hash_token, workspace_slug_from_token, parse_argon_hash, verify_service_token,
}
use lecrm.Auth.Token.Hash.{IsArgon, IsSlug}
use lecrm.Auth.TokenStore.{
  TokenRow, BearerActor, load_candidates, find_match, actor_of, decode_scopes, verify_bearer,
}
use lecrm.Auth.TokenStore.Admin.{
  CreateServiceTokenInput, validate_actor_type, remove_tokens, delete, handle_delete,
}
use lecrm.Auth.TokenStore.Access.{Admits, verify_bearer-Admits, verify_bearer-handle_delete}
use lecrm.Auth.Middleware.{
  find_live, workspace_by_slug_full, HttpRequest, Edge, serve_crm, serve_create_token,
}
use lecrm.Auth.Middleware.Identity.{Arrives, serve_crm-session}
use lecrm.Auth.Middleware.Anonymous.{IsAccepted, serve_create_token-opens}
use lecrm.Tests.Identity.{
  acme, session, nonce, token, can_seal, token_made, config, host, workspaces,
}

abbrev shift : List ℕ → List ℕ
shift = map (λ c. c + 37)

abbrev shift_back : List ℕ → List ℕ
shift_back = map (λ c. c - 37)

-- The first bytes, filled up.
unfoldable fit : ℕ → List ℕ → List ℕ
fit zero s = []
fit (suc n) [] = 0 ∷ fit n []
fit (suc n) (c ∷ s) = c ∷ fit n s

length-fit : (n : ℕ) (s : List ℕ) → length (fit n s) ≡ n
unfolding fit
length-fit zero s = refl
length-fit (suc n) [] = ground (arith, length-fit n [])
length-fit (suc n) (c ∷ s) = ground (arith, length-fit n s)

shift_back-shift : (s : List ℕ) → shift_back (shift s) ≡ s
shift_back-shift [] = refl
shift_back-shift (c ∷ s) = ground (arith, shift_back-shift s)

shift-Free : (s : List ℕ) → Free b'$' (shift s)
shift-Free [] = tt
shift-Free (c ∷ s) = ((λ e. omega arith), shift-Free s)

abbrev scan_one : List ℕ → Option ℕ
scan_one (v ∷ []) = some (v - 37)
scan_one _ = none

abbrev scan_three : List ℕ → Option Cost
scan_three (t ∷ m ∷ p ∷ []) = some (record { time = t - 37; memory = m - 37; threads = p - 37 })
scan_three _ = none

sub-add : (n : ℕ) → n + 37 - 37 ≡ n
sub-add n = omega arith

-- A key that is the start of the password.
abbrev toy_argon : Argon
toy_argon = record {
  id_key = λ text salt cost n. fit n text;
  encode_std = shift;
  decode_std = λ text. some (shift_back text);
  print_version = λ v. shift (v ∷ []);
  scan_version = scan_one;
  print_cost = λ cost. shift (cost.time ∷ cost.memory ∷ cost.threads ∷ []);
  scan_cost = scan_three;
}

toy_argon-IsArgon : IsArgon toy_argon
toy_argon-IsArgon = record {
  std_trips = λ bytes. rw (shift_back-shift bytes) refl;
  version_trips = λ v. rw (sub-add v) refl;
  cost_trips =
      λ cost. rw (sub-add cost.time) (rw (sub-add cost.memory) (rw (sub-add cost.threads) refl));
  std_plain = shift-Free;
  version_plain = λ v. shift-Free (v ∷ []);
  cost_plain = λ cost. shift-Free (cost.time ∷ cost.memory ∷ cost.threads ∷ []);
  key_length = λ text salt cost n. length-fit n text;
}

abbrev scopes_json : Json (List (List ℕ))
scopes_json = record { marshal = λ scopes. 1 ∷ []; unmarshal = λ text. some (codes "crm" ∷ []) }

abbrev plaintext : List ℕ
plaintext = codes "lecrm_acme_AAAA"

unfoldable stored : List ℕ
stored = hash_token toy_argon (1 ∷ 2 ∷ []) plaintext

abbrev row : TokenRow
row = record {
  id = 9;
  workspace_id = 1;
  name = codes "ci";
  token_hash = stored;
  actor_type = "connector";
  scopes = 1 ∷ [];
  expires_at = some 100;
  last_used_at = none;
}

abbrev actor : BearerActor
actor = record { token_id = 9; actor_type = "connector"; scopes = codes "crm" ∷ [] }

bearer_verified :
    (verify_bearer toy_argon scopes_json false false 60 1 acme plaintext (row ∷ [])).0 ≡ ok actor
unfolding verify_bearer workspace_slug_from_token split_two load_candidates find_match
    verify_service_token parse_argon_hash split join stored hash_token fit decode_scopes
bearer_verified = refl

verify_bearer-Admits_example :
    (workspace_slug_from_token plaintext ≡ some acme)
    × ((found : TokenRow) × Admits toy_argon 1 60 plaintext (row ∷ []) found
        × (actor ≡ actor_of scopes_json found))
verify_bearer-Admits_example =
    verify_bearer-Admits toy_argon scopes_json false false 60 1 acme plaintext (row ∷ []) actor
      bearer_verified

-- Beside the token is another one, which is deleted.
abbrev other : TokenRow
other = record row { id = 8 }

delete_done : (handle_delete false 1 (some 8) (other ∷ row ∷ [])).0 ≡ 204
unfolding handle_delete delete
delete_done = refl

still_verified :
    (verify_bearer toy_argon scopes_json false false 60 1 acme plaintext
      ((handle_delete false 1 (some 8) (other ∷ row ∷ [])).1)).0
    ≡ ok actor
unfolding verify_bearer workspace_slug_from_token split_two load_candidates find_match
    verify_service_token parse_argon_hash split join stored hash_token fit decode_scopes
    handle_delete delete remove_tokens
still_verified = refl

verify_bearer-handle_delete_example : actor.token_id ≢ 8
verify_bearer-handle_delete_example =
    verify_bearer-handle_delete toy_argon scopes_json false false false 60 1 8 acme plaintext
      (other ∷ row ∷ []) actor delete_done still_verified

abbrev edge : Edge
edge = record {
  config = config;
  argon = toy_argon;
  json = scopes_json;
  workspaces = workspaces;
  now = 60;
  resolve_fails = false;
  load_fails = false;
  touch_fails = false;
}

-- Everybody is a member.
abbrev store : RoleLookup
store = λ ws user. ok (some role_member)

abbrev request : HttpRequest
request = record { method = get; host = host; authorization = []; cookie = some token }

abbrev bare : HttpRequest
bare = record request { cookie = none }

arrives : Arrives edge request acme host 1
unfolding scoped_domain workspace_by_slug_full find_live to_lower trim_space trim_left is_space
arrives = record {
  given = refl;
  plain = record {
    domain_lower = refl;
    domain_trimmed = refl;
    no_colon = omega arith;
    tld_lower = refl;
    tld_trimmed = refl;
  };
  names = inl refl;
  found = refl;
}

bare-Arrives : Arrives edge bare acme host 1
bare-Arrives = record {
  given = arrives.given;
  plain = arrives.plain;
  names = inl refl;
  found = arrives.found;
}

serve_crm-session_example :
    ((level (min_role get role_member role_admin) ≤ level role_member)
      × ((q : Principal) × ((serve_crm edge store request []).0 ≡ ok (handled (some q)))
          × (q.role ≡ role_member)
          × (q.user_id ≡ 3)))
    ⊎ ((level role_member < level (min_role get role_member role_admin))
        × ((serve_crm edge store request []).0 ≡ ok insufficient_role))
serve_crm-session_example =
    serve_crm-session edge store request [] acme host (9 ∷ []) nonce token 10 6 session role_member
      arrives refl refl can_seal token_made (omega arith) refl (λ e. cc)

abbrev input : CreateServiceTokenInput
input = record { name = codes "ci"; actor_type = "connector"; scopes = []; expires_at = none }

input-IsAccepted : IsAccepted input
unfolding validate_actor_type
input-IsAccepted = record { named = refl; typed = refl; known = refl }

acme-IsSlug : IsSlug acme
acme-IsSlug = record { given = refl; plain = refl; short = omega arith }

abbrev new_token : List ℕ
new_token = codes "lecrm_" ++ (acme ++ b'_' ∷ encode (0 ∷ []))

serve_create_token-opens_example :
    (after : List TokenRow) × (q : Principal) × (serve_create_token edge false 8
        (some (0 ∷ []))
        (some (1 ∷ []))
        (some input)
        bare
        []
      ≡ (201, some new_token, after))
    × ((serve_crm edge store
          (record bare { authorization = codes "Bearer " ++ new_token; method = get })
          after).0
        ≡ ok (handled (some q)))
serve_create_token-opens_example =
    serve_create_token-opens edge store bare acme host (0 ∷ []) (1 ∷ []) 1 8 input [] bare-Arrives
      refl refl refl toy_argon-IsArgon acme-IsSlug refl input-IsAccepted refl
