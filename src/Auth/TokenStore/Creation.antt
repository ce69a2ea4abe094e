-- ===== src/Auth/TokenStore/Creation.antt =====
-- A token that was created lets its bearer in.
use lecrm.Common.{
  ℕ, Bool, true, false, some, List, [], ◌∷◌, ◌++◌, is_empty, codes_eq, nat_eq, beq_refl,
  if◌then◌else◌, Result, ok, Bool-cases, Result-cases, ◌≡◌, inl, inr, arith,
}
use lecrm.Auth.Codec.{Json}
use lecrm.Auth.Token.{Argon, ServiceTokenError, verify_service_token, generate_service_token}
use lecrm.Auth.Token.Hash.{IsArgon, IsSlug, generate_service_token-IsFor}
use lecrm.Auth.TokenStore.{
  TokenRow, BearerActor, is_live, is_candidate, load_candidates, succeeds, find_match, actor_of,
  verify_bearer, all_scopes,
}
use lecrm.Auth.TokenStore.Admin.{CreateServiceTokenInput, create, handle_create, new_row}

succeeds_refl : (r : Result ServiceTokenError (Unit {0})) → r ≡ ok tt → succeeds r ≡ true
succeeds_refl r h = rw h

-- Where a row admits a token, some row is found.
find_match_total :
    (argon : Argon) (ws now : ℕ) (plaintext : List ℕ) (row : TokenRow) (rows : List TokenRow)
    → is_candidate ws now row ≡ true
    → verify_service_token argon plaintext row.token_hash ≡ ok tt
    → (found : TokenRow) × (find_match argon plaintext (load_candidates ws now (rows ++ row ∷ []))
        ≡ some found)
unfolding find_match load_candidates
find_match_total argon ws now plaintext row [] candidate accepts =
    (row, ground (arith, candidate, accepts))
find_match_total argon ws now plaintext row (r ∷ rows) candidate accepts =
    let (found, later) = find_match_total argon ws now plaintext row rows candidate accepts in
    elim (Bool-cases (is_candidate ws now r)) [
      | inr skipped ↦ (found, ground (arith, skipped, later))
      | inl listed ↦
          elim (Bool-cases (succeeds (verify_service_token argon plaintext r.token_hash))) [
            | inl good ↦ (r, ground (arith, listed, good))
            | inr bad ↦ (found, ground (arith, listed, bad, later))
          ]
    ]

-- The row of a token that was created.
handle_create-appends :
    (argon : Argon) (json : Json (List (List ℕ))) (fails : Bool) (id ws : ℕ)
    (bytes salt slug plaintext : List ℕ) (input : CreateServiceTokenInput)
    (rows after : List TokenRow)
    → handle_create argon json fails id (some bytes) (some salt) ws slug (some input) rows
      ≡ (201, some plaintext, after)
    → (hash scopes : List ℕ) × (generate_service_token argon slug (some bytes) (some salt)
        ≡ ok (plaintext, hash))
      × (after ≡ rows ++ new_row id ws input hash scopes ∷ [])
unfolding handle_create create
handle_create-appends argon json fails id ws bytes salt slug plaintext input rows after made =
    elim (Result-cases (generate_service_token argon slug (some bytes) (some salt))) [
      | inl ((text, hash), generated) ↦ (
        hash,
        json.marshal (if is_empty input.scopes then all_scopes else input.scopes),
        ground (arith, generated, made),
        ground (arith, generated, made),
      )
      | inr (e, failed) ↦ absurd (ground (arith, failed, made))
    ]

-- A service token whose creation is answered by 201 lets its bearer in to the workspace that it was
-- created for, at every moment before it expires, where the candidates can be loaded and the slug has
-- the shape that a token can carry.
pub verify_bearer-handle_create :
    (argon : Argon) (json : Json (List (List ℕ))) (fails touch_fails : Bool) (id ws now : ℕ)
    (bytes salt slug plaintext : List ℕ) (input : CreateServiceTokenInput)
    (rows after : List TokenRow)
    → IsArgon argon
    → IsSlug slug
    → is_empty bytes ≡ false
    → is_live now input.expires_at ≡ true
    → handle_create argon json fails id (some bytes) (some salt) ws slug (some input) rows
      ≡ (201, some plaintext, after)
    → (actor : BearerActor) × ((verify_bearer argon json false touch_fails now ws slug plaintext
          after).0
        ≡ ok actor)
unfolding verify_bearer
verify_bearer-handle_create argon json fails touch_fails id ws now bytes salt slug plaintext input
      rows after laws shape random live made =
    let (hash, scopes, generated, appended) =
      handle_create-appends argon json fails id ws bytes salt slug plaintext input rows after
        made in
    let (named, accepted) =
      generate_service_token-IsFor argon slug bytes salt plaintext hash laws shape random
        generated in
    let row = new_row id ws input hash scopes in
    let (found, matched) =
      find_match_total argon ws now plaintext row rows (ground (arith, live, beq_refl ws))
        accepted in
    (actor_of json found, rw appended (ground (arith, named, matched, beq_refl slug)))
