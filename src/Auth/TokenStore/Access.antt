-- ===== src/Auth/TokenStore/Access.antt =====
-- Which bearers are let in.
use lecrm.Common.{
  ℕ, Bool, true, false, some, List, [], ◌∷◌, eqb_iff, codes_eq, nat_eq, codes_beq_iff, Result, ok,
  err, Option-cases, Bool-cases, ◌≡◌, ◌≢◌, ◌⊎◌, inl, inr, refl, sym, ap, ◌∙◌, arith,
}
use lecrm.Auth.Codec.{Json}
use lecrm.Auth.Token.{Argon, ServiceTokenError, workspace_slug_from_token, verify_service_token}
use lecrm.Auth.TokenStore.{
  TokenRow, BearerActor, is_live, is_candidate, load_candidates, succeeds, find_match, actor_of,
  verify_bearer,
}
use lecrm.Auth.TokenStore.Admin.{is_token, remove_tokens, delete, handle_delete}

abbrev pub Among : TokenRow → List TokenRow → Type 0
Among row [] = ⊥
Among row (r ∷ rows) = (row ≡ r) ⊎ Among row rows

-- A row that lets a token in.
pub record Admits (argon : Argon) (ws now : ℕ) (plaintext : List ℕ) (rows : List TokenRow)
    (row : TokenRow) : Type 0 where
  pub among : Among row rows
  pub own : row.workspace_id ≡ ws
  pub live : is_live now row.expires_at ≡ true
  pub accepts : verify_service_token argon plaintext row.token_hash ≡ ok tt

module _ (argon : Argon) (plaintext : List ℕ) where
  succeeds-ok : (r : Result ServiceTokenError (Unit {0})) → succeeds r ≡ true → r ≡ ok tt
  succeeds-ok (ok u) h = refl
  succeeds-ok (err e) h = cc

  find_match_sound :
      (rows : List TokenRow) (row : TokenRow)
      → find_match argon plaintext rows ≡ some row
      → Among row rows × (verify_service_token argon plaintext row.token_hash ≡ ok tt)
  unfolding find_match
  find_match_sound [] row h = cc
  find_match_sound (r ∷ rows) row h =
      elim (Bool-cases (succeeds (verify_service_token argon plaintext r.token_hash))) [
        | inl good ↦
            let same : r ≡ row = ground (arith, good, h) in
            (
              inl (sym same),
              ap (λ (q : TokenRow). verify_service_token argon plaintext q.token_hash) (sym same)
                  ∙ succeeds-ok (verify_service_token argon plaintext r.token_hash) good,
            )
        | inr bad ↦
            let (among, accepts) = find_match_sound rows row (ground (arith, bad, h)) in
            (inr among, accepts)
      ]

  Among-load_candidates :
      (ws now : ℕ) (rows : List TokenRow) (row : TokenRow)
      → Among row (load_candidates ws now rows)
      → Among row rows × (row.workspace_id ≡ ws) × (is_live now row.expires_at ≡ true)
  unfolding load_candidates
  Among-load_candidates ws now [] row h = absurd h
  Among-load_candidates ws now (r ∷ rows) row h = elim (Bool-cases (is_candidate ws now r)) [
    | inl good ↦
        elim (let either : (row ≡ r) ⊎ Among row (load_candidates ws now rows) = rw good at h in
          either) [
            | inl same ↦ (
              inl same,
              ground (arith, good, same, eqb_iff r.workspace_id ws),
              ground (arith, good, same),
            )
            | inr later ↦
                let (among, own, live) = Among-load_candidates ws now rows row later in
                (inr among, own, live)
          ]
    | inr bad ↦
        let (among, own, live) = Among-load_candidates ws now rows row (rw bad at h) in
        (inr among, own, live)
  ]

Among-remove_tokens :
    (ws id : ℕ) (rows : List TokenRow) (row : TokenRow)
    → Among row (remove_tokens ws id rows)
    → (is_token ws id row ≡ false) × Among row rows
unfolding remove_tokens
Among-remove_tokens ws id [] row h = absurd h
Among-remove_tokens ws id (r ∷ rows) row h = elim (Bool-cases (is_token ws id r)) [
  | inl gone ↦
      let (other, among) = Among-remove_tokens ws id rows row (rw gone at h) in (other, inr among)
  | inr kept ↦
      elim (let either : (row ≡ r) ⊎ Among row (remove_tokens ws id rows) = rw kept at h in
        either) [
          | inl same ↦ (ap (is_token ws id) same ∙ kept, inl same)
          | inr later ↦
              let (other, among) = Among-remove_tokens ws id rows row later in (other, inr among)
        ]
]

-- A bearer is let in only by a row of the workspace asked for that has not expired and whose hash
-- accepts the token; the token names the slug asked for, and the actor is the row's.
pub verify_bearer-Admits :
    (argon : Argon) (json : Json (List (List ℕ))) (load_fails touch_fails : Bool) (now ws : ℕ)
    (slug plaintext : List ℕ) (rows : List TokenRow) (actor : BearerActor)
    → (verify_bearer argon json load_fails touch_fails now ws slug plaintext rows).0 ≡ ok actor
    → (workspace_slug_from_token plaintext ≡ some slug)
      × ((row : TokenRow) × Admits argon ws now plaintext rows row × (actor ≡ actor_of json row))
unfolding verify_bearer
verify_bearer-Admits argon json load_fails touch_fails now ws slug plaintext rows actor good =
    elim (Option-cases (workspace_slug_from_token plaintext)) [
      | inl none_named ↦ absurd (ground (arith, none_named, good))
      | inr (named, e) ↦
          elim (Option-cases (find_match argon plaintext (load_candidates ws now rows))) [
            | inl unmatched ↦ absurd (ground (arith, e, unmatched, good))
            | inr (row, found) ↦
                let (candidate, accepts) =
                  find_match_sound argon plaintext (load_candidates ws now rows) row found in
                let (among, own, live) =
                  Among-load_candidates argon plaintext ws now rows row candidate in
                (
                  e ∙ ground (arith, e, good, codes_beq_iff named slug),
                  (
                    row,
                    record { among = among; own = own; live = live; accepts = accepts },
                    ground (arith, e, found, good),
                  ),
                )
          ]
    ]

handle_delete-removes :
    (fails : Bool) (ws id : ℕ) (rows : List TokenRow)
    → (handle_delete fails ws (some id) rows).0 ≡ 204
    → (handle_delete fails ws (some id) rows).1 ≡ remove_tokens ws id rows
unfolding handle_delete delete
handle_delete-removes fails ws id rows good = ground arith

-- Once the deletion of a service token is answered by 204, no bearer is let into the workspace as that
-- token, whatever text it shows.
pub verify_bearer-handle_delete :
    (argon : Argon) (json : Json (List (List ℕ))) (fails load_fails touch_fails : Bool)
    (now ws id : ℕ) (slug plaintext : List ℕ) (rows : List TokenRow) (actor : BearerActor)
    → (handle_delete fails ws (some id) rows).0 ≡ 204
    → (verify_bearer argon json load_fails touch_fails now ws slug plaintext
        ((handle_delete fails ws (some id) rows).1)).0
      ≡ ok actor
    → actor.token_id ≢ id
verify_bearer-handle_delete argon json fails load_fails touch_fails now ws id slug plaintext rows
      actor gone good same =
    let after = (handle_delete fails ws (some id) rows).1 in
    let (_, (row, admits, is_row)) =
      verify_bearer-Admits argon json load_fails touch_fails now ws slug plaintext after actor
        good in
    let (other, _) =
      Among-remove_tokens ws id rows row
        (rw (← handle_delete-removes fails ws id rows gone) admits.among) in
    ground (
      arith,
      admits.own,
      ap (λ (a : BearerActor). a.token_id) is_row,
      eqb_iff row.workspace_id ws,
      eqb_iff row.id id,
    )
