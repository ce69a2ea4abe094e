-- ===== src/Auth/SessionV2/Authentic.antt =====
-- Whatever is taken for a session was signed (apps/api/internal/auth: DecodeSession,
-- DecodeSessionV2, SessionFromRequestV2).
use lecrm.Common.{
  ℕ, ◌≤◌, Bool, true, false, Option, none, some, List, [], ◌∷◌, ◌++◌, eqb_iff, codes_eq,
  codes_beq_iff, ok, chain_parts, Result-cases, ◌≡◌, ◌⊎◌, inl, inr, ap, ◌∙◌, arith,
}
use lecrm.Auth.Codec.{
  Json, Crypto, TokenError, sign, check_signature, check_signature_sound, split_two,
  append-split_two, or_fail,
}
use lecrm.Auth.Session.{Session, open_payload, decode_session}
use lecrm.Auth.SessionV2.{
  OuterClaims, Codecs, v2_prefix, strip_prefix, decode_session_v2, session_from_request_v2,
}

or_fail-eq-ok {ℓ} :
    {A : Type ℓ} (o : Option A) (e : TokenError) (a : A) → or_fail o e ≡ ok a → o ≡ some a
or_fail-eq-ok none e a h = cc
or_fail-eq-ok (some b) e a h = cc

append-strip_prefix :
    (prefix s rest : List ℕ) → strip_prefix prefix s ≡ some rest → s ≡ prefix ++ rest
append-strip_prefix [] s rest h = cc
append-strip_prefix (p ∷ prefix) [] rest h = cc
append-strip_prefix (p ∷ prefix) (b ∷ s) rest h =
    ground (arith, eqb_iff p b, append-strip_prefix prefix s rest)

-- What a text of the second kind says of itself.
pub record Speaks (codecs : Codecs) (slug : List ℕ) (now : ℕ) (payload : List ℕ) : Type 0 where
  pub outer : OuterClaims
  pub encoded_outer : List ℕ
  pub encoded_inner : List ℕ
  pub layers : payload ≡ encoded_outer ++ b'|' ∷ encoded_inner
  pub opened : open_payload codecs.outer encoded_outer ≡ ok outer
  pub bound : outer.slug ≡ slug
  pub fresh : now ≤ outer.expires_at

abbrev pub IsV2 : Crypto → Codecs → List ℕ → List ℕ → ℕ → List ℕ → Type 0
IsV2 c codecs secret slug now value =
    (payload : List ℕ) × (value ≡ v2_prefix ++ sign c secret payload)
    × Speaks codecs slug now payload

decode_session_v2-IsV2 :
    (c : Crypto) (codecs : Codecs) (secret slug : List ℕ) (now : ℕ) (value : List ℕ) (s : Session)
    → decode_session_v2 c codecs secret slug now value ≡ ok s
    → IsV2 c codecs secret slug now value
unfolding decode_session_v2
decode_session_v2-IsV2 c codecs secret slug now value s good =
    let (signed, stripped, good1) = chain_parts (or_fail (strip_prefix v2_prefix value) _) _ good in
    let (payload, checked, good2) = chain_parts (check_signature c secret signed) _ good1 in
    let (layers, parted, good3) = chain_parts (or_fail (split_two b'|' payload) _) _ good2 in
    let (outer, opened, good4) = chain_parts (open_payload codecs.outer (layers.0)) _ good3 in
    (
      payload,
      append-strip_prefix v2_prefix value signed (or_fail-eq-ok _ _ _ stripped)
          ∙ ap (λ rest. v2_prefix ++ rest) (check_signature_sound c secret signed payload checked),
      record {
        outer = outer;
        encoded_outer = layers.0;
        encoded_inner = layers.1;
        layers = append-split_two b'|' payload (layers.0) (layers.1) (or_fail-eq-ok _ _ _ parted);
        opened = opened;
        bound = (codes_beq_iff outer.slug slug).0 (ground (arith, good4));
        fresh = ground (arith, good4);
      },
    )

decode_session_IsV1 :
    (c : Crypto) (v1 : Json Session) (secret : List ℕ) (now : ℕ) (value : List ℕ) (s : Session)
    → decode_session c v1 secret now value ≡ ok s
    → (payload : List ℕ) × (value ≡ sign c secret payload)
      × (open_payload v1 payload ≡ ok s)
      × (now ≤ s.expires_at)
unfolding decode_session
decode_session_IsV1 c v1 secret now value s good =
    let (payload, checked, good1) = chain_parts (check_signature c secret value) _ good in
    let (t, opened, good2) = chain_parts (open_payload v1 payload) _ good1 in
    (
      payload,
      check_signature_sound c secret value payload checked,
      ground (arith, opened, good2),
      ground (arith, good2),
    )

-- Whatever a cookie holds, it is taken for a session only in one of two ways. It is a text of the
-- second kind, signed with the secret, whose outer layer names the slug that was asked for and has not
-- expired. Or it is one of the first kind, signed with the secret, which holds that very session, not
-- expired; no workspace is asked for there.
pub session_from_request_v2-IsSigned :
    (c : Crypto) (v1 : Json Session) (codecs : Codecs) (secret slug : List ℕ) (now : ℕ)
    (value : List ℕ) (s : Session) (old : Bool)
    → session_from_request_v2 c v1 codecs secret slug now (some value) ≡ some (s, old)
    → ((old ≡ false)
        × ((payload : List ℕ) × (value ≡ v2_prefix ++ sign c secret payload)
            × Speaks codecs slug now payload))
      ⊎ ((old ≡ true)
          × ((payload : List ℕ) × (value ≡ sign c secret payload)
              × (open_payload v1 payload ≡ ok s)
              × (now ≤ s.expires_at)))
unfolding session_from_request_v2
session_from_request_v2-IsSigned c v1 codecs secret slug now value s old got =
    elim (Result-cases (decode_session_v2 c codecs secret slug now value)) [
      | inl (t, good) ↦
          inl (ground (arith, good), decode_session_v2-IsV2 c codecs secret slug now value t good)
      | inr (e, bad) ↦ elim (Result-cases (decode_session c v1 secret now value)) [
        | inl (t, good) ↦ inr (
          ground (arith, bad, good),
          decode_session_IsV1 c v1 secret now value s (ground (arith, bad, good)),
        )
        | inr (e', worse) ↦ absurd (ground (arith, bad, worse))
      ]
    ]
