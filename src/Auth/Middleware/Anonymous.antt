-- ===== src/Auth/Middleware/Anonymous.antt =====
-- What a request that shows no identity can reach (apps/api/internal/http/server.go, which mounts the
-- routes of the service tokens behind the workspace middleware alone).
use mathlib.Core.List.{reverse, reverse-append, reverse-reverse}
use lecrm.Common.{
  ℕ, true, false, none, some, List, [], ◌∷◌, ◌++◌, all, is_empty, ◌==◌, codes_eq, string_eq, ok,
  All, All-append, ◌≡◌, inl, inr, refl, sym, ap, ◌∙◌, subst, arith,
}
use lecrm.Common.Text.{codes, is_space, trim_left, trim_space, to_lower}
use lecrm.Encoding.Base64.{symbol, encode, All-encode}
use lecrm.Rbac.Middleware.{Principal, RoleLookup, handled, get}
use lecrm.Rbac.Admission.{crm_route, crm_route_token}
use lecrm.Auth.SessionV2.{cut}
use lecrm.Auth.Token.{token_prefix, is_slug_byte, generate_service_token}
use lecrm.Auth.Token.Hash.{IsArgon, IsSlug}
use lecrm.Auth.TokenStore.{
  TokenRow, BearerActor, is_live, extract_bearer, authenticate, verify_bearer,
}
use lecrm.Auth.TokenStore.Admin.{
  CreateServiceTokenInput, validate_actor_type, create, handle_create,
}
use lecrm.Auth.TokenStore.Creation.{verify_bearer-handle_create}
use lecrm.Auth.Middleware.{
  HttpRequest, Edge, Scoped, middleware, gate_request, serve_crm, serve_create_token,
}
use lecrm.Auth.Middleware.Identity.{Arrives, middleware_plain}
use lecrm.Auth.Cookie.Scope.{subdomain-scoped_domain}
use lecrm.Auth.Handlers.{scope_of}

abbrev Plain : List ℕ → Type 0
Plain = All (λ c. is_space c ≡ false)

trim_left-Plain : (s : List ℕ) → Plain s → trim_left s ≡ s
unfolding trim_left
trim_left-Plain [] h = refl
trim_left-Plain (c ∷ s) h = ground (arith, h.0)

reverse-Plain : (s : List ℕ) → Plain s → Plain (reverse s)
reverse-Plain [] h = tt
reverse-Plain (c ∷ s) h =
    subst Plain (sym (reverse-append (c ∷ []) s))
      (All-append (λ b. is_space b ≡ false) (reverse s) (c ∷ []) (reverse-Plain s h.1) (h.0, tt))

trim_space-Plain : (s : List ℕ) → Plain s → trim_space s ≡ s
unfolding trim_space
trim_space-Plain s h =
    ap (λ t. reverse (trim_left (reverse t))) (trim_left-Plain s h)
    ∙ ap reverse (trim_left-Plain (reverse s) (reverse-Plain s h))
    ∙ reverse-reverse s

slug-Plain : (slug : List ℕ) → all is_slug_byte slug ≡ true → Plain slug
slug-Plain [] h = tt
slug-Plain (c ∷ slug) h = (unfold is_space in ground arith, slug-Plain slug (ground arith))

symbol-Plain : (k : ℕ) → is_space (symbol k) ≡ false
unfolding is_space symbol
symbol-Plain k = ground arith

abbrev token_text : List ℕ → List ℕ → List ℕ
token_text slug bytes = token_prefix ++ (slug ++ b'_' ∷ encode bytes)

token_text-Plain :
    (slug bytes : List ℕ) → all is_slug_byte slug ≡ true → Plain (token_text slug bytes)
unfolding is_space
token_text-Plain slug bytes h =
    All-append (λ c. is_space c ≡ false) token_prefix (slug ++ b'_' ∷ encode bytes)
      (refl, (refl, (refl, (refl, (refl, (refl, tt))))))
      (All-append (λ c. is_space c ≡ false) slug (b'_' ∷ encode bytes) (slug-Plain slug h)
        (refl, All-encode (λ c. is_space c ≡ false) symbol-Plain bytes))

abbrev bearer_header : List ℕ → List ℕ
bearer_header token = codes "Bearer " ++ token

extract_bearer-header :
    (c : ℕ) (token : List ℕ)
    → Plain (c ∷ token)
    → extract_bearer (bearer_header (c ∷ token)) ≡ c ∷ token
unfolding extract_bearer cut to_lower
extract_bearer-header c token h = trim_space-Plain (c ∷ token) h

-- A body that the route takes.
pub record IsAccepted (input : CreateServiceTokenInput) : Type 0 where
  pub named : is_empty input.name ≡ false
  pub typed : (input.actor_type == "") ≡ false
  pub known : validate_actor_type input.actor_type ≡ true

abbrev on_get : HttpRequest → List ℕ → HttpRequest
on_get r token = record r { authorization = bearer_header token; method = get }

module _ (edge : Edge) (store : RoleLookup) (r : HttpRequest) (slug domain : List ℕ) (ws : ℕ)
    (here : Arrives edge r slug domain ws) where
  -- A bearer that is verified reads the CRM.
  serve_crm-bearer :
      (c : ℕ) (token : List ℕ) (rows : List TokenRow) (actor : BearerActor)
      → Plain (c ∷ token)
      → edge.load_fails ≡ false
      → (verify_bearer edge.argon edge.json false edge.touch_fails edge.now ws slug
          (c ∷ token)
          rows).0
        ≡ ok actor
      → (q : Principal) × ((serve_crm edge store (on_get r (c ∷ token)) rows).0
          ≡ ok (handled (some q)))
  unfolding serve_crm middleware authenticate
  serve_crm-bearer c token rows actor plain loads verified =
      let r' = on_get r (c ∷ token) in
      let scoped : Scoped = record { workspace = ws; slug = slug; bearer = some actor } in
      let reached : (serve_crm edge store r' rows).0
          ≡ ok (crm_route store (gate_request edge r' scoped) none) =
        ground (
          arith,
          (subdomain-scoped_domain (scope_of edge.config slug) domain r.host here.given here.plain
              here.names).1,
          here.found,
          loads,
          extract_bearer-header c token plain,
          verified,
        ) in
      elim (crm_route_token store (gate_request edge r' scoped) ws
        (record { scopes = actor.scopes; actor_type = actor.actor_type }) none refl refl) [
          | inl (_, (q, goes, _, _)) ↦ (q, reached ∙ ap ok goes)
          | inr (writes, _, _) ↦ absurd (ground (arith, writes))
        ]

  -- The route of the service tokens creates one for a request without a header or a cookie.
  serve_create_token_anonymous :
      (id : ℕ) (bytes salt : List ℕ) (input : CreateServiceTokenInput) (rows : List TokenRow)
      → r.authorization ≡ []
      → IsSlug slug
      → IsAccepted input
      → (after : List TokenRow) × (serve_create_token edge false id
            (some bytes)
            (some salt)
            (some input)
            r
            rows
          ≡ (201, some (token_text slug bytes), after))
        × (handle_create edge.argon edge.json false id
              (some bytes)
              (some salt)
              ws
              slug
              (some input)
              rows
            ≡ (201, some (token_text slug bytes), after))
  unfolding serve_create_token handle_create create generate_service_token
  serve_create_token_anonymous id bytes salt input rows bare shape body = (
    (handle_create edge.argon edge.json false id (some bytes) (some salt) ws slug (some input)
        rows).2,
    ground (
      arith,
      middleware_plain edge r slug domain ws rows here bare,
      shape.given,
      body.named,
      body.typed,
      body.known,
    ),
    ground (arith, shape.given, body.named, body.typed, body.known),
  )

-- Whoever can reach a workspace's host becomes a bearer there, with no session and no header: the
-- request that creates a service token is answered by 201 with the token, and a request that shows it
-- is handled on the reading CRM routes of the workspace. The body is one that the route takes, with no
-- expiry, the slug has the shape that a token can carry, and the statements do not fail.
pub serve_create_token-opens :
    (edge : Edge) (store : RoleLookup) (r : HttpRequest) (slug domain bytes salt : List ℕ)
    (ws id : ℕ) (input : CreateServiceTokenInput) (rows : List TokenRow)
    → Arrives edge r slug domain ws
    → r.authorization ≡ []
    → r.cookie ≡ none
    → edge.load_fails ≡ false
    → IsArgon edge.argon
    → IsSlug slug
    → is_empty bytes ≡ false
    → IsAccepted input
    → input.expires_at ≡ none
    → (after : List TokenRow) × (q : Principal) × (serve_create_token edge false id
          (some bytes)
          (some salt)
          (some input)
          r
          rows
        ≡ (201, some (token_text slug bytes), after))
      × ((serve_crm edge store (on_get r (token_text slug bytes)) after).0 ≡ ok (handled (some q)))
serve_create_token-opens edge store r slug domain bytes salt ws id input rows here bare anonymous
      loads laws shape random body lasting =
    let (after, created, appended) =
      serve_create_token_anonymous edge store r slug domain ws here id bytes salt input rows bare
        shape body in
    let (actor, verified) =
      verify_bearer-handle_create edge.argon edge.json false edge.touch_fails id ws edge.now bytes
        salt slug (token_text slug bytes) input rows after laws shape random
        (ap (is_live edge.now) lasting) appended in
    let (q, goes) =
      serve_crm-bearer edge store r slug domain ws here b'l' _ after actor
        (token_text-Plain slug bytes shape.plain) loads verified in
    (after, q, created, goes)
