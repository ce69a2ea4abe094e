-- ===== src/Auth/SessionV2/Binding.antt =====
-- A session is of its workspace, and of nothing else.
use lecrm.Common.{
  ℕ, ◌%◌, ◌^◌, false, not, none, some, List, [], ◌∷◌, ◌++◌, length, ltb, ◌==◌, codes_eq,
  if◌then◌else◌, ok, err, ◌≡◌, ◌≢◌, refl, ap, arith, All, All-append, beq_refl, Bool-cases, inl,
  inr, codes_beq_iff, eqb_iff, ◌&&◌,
}
use lecrm.Encoding.Base64.{encode, IsByte, decode-encode, encode-no_dot, encode-no_bar}
use lecrm.Encoding.Split.{Free}
use lecrm.Auth.Codec.{
  Json, RoundTrips, Crypto, IsCrypto, bad_signature, binding_mismatch, expired, sign,
  check_signature, check_signature-sign, split_two, split_two-append,
}
use lecrm.Auth.Session.{Session, open_payload-encode, decode_session}
use lecrm.Auth.SessionV2.{
  OuterClaims, Codecs, nonce_size, put_uint32, uint32, cut, encrypt_aes_gcm, decrypt_aes_gcm,
  completed, v2_prefix, v2_payload, seal_session, encode_session_v2, open_inner, decode_session_v2,
  session_from_request_v2,
}

cut-append : (before after : List ℕ) → cut (length before) (before ++ after) ≡ some (before, after)
unfolding cut
cut-append [] after = refl
cut-append (b ∷ before) after = ground (arith, cut-append before after)

uint32-put_uint32 : (n : ℕ) → uint32 (put_uint32 n) ≡ n % 2 ^ 32
unfolding uint32 put_uint32
uint32-put_uint32 n = omega arith

put_uint32_bytes : (n : ℕ) → All IsByte (put_uint32 n)
unfolding put_uint32
put_uint32_bytes n = omega arith

-- The four bytes of the length come off first.
cut-put_uint32 : (n : ℕ) (rest : List ℕ) → cut 4 (put_uint32 n ++ rest) ≡ some (put_uint32 n, rest)
unfolding cut put_uint32
cut-put_uint32 n rest = refl

module _ (c : Crypto) (laws : IsCrypto c) (key nonce text : List ℕ)
    (sized : length nonce ≡ nonce_size) where
  cut-nonce : (rest : List ℕ) → cut nonce_size (nonce ++ rest) ≡ some (nonce, rest)
  cut-nonce rest = rw (← sized) (cut-append nonce rest)

  pub decrypt_aes_gcm-encrypt_aes_gcm :
      decrypt_aes_gcm c key (encrypt_aes_gcm c key nonce text) ≡ ok text
  unfolding decrypt_aes_gcm encrypt_aes_gcm
  decrypt_aes_gcm-encrypt_aes_gcm =
      let aad = put_uint32 (length text) in
      ground (
        arith,
        cut-put_uint32 (length text) (nonce ++ c.seal key nonce text aad),
        cut-nonce (c.seal key nonce text aad),
        laws.open-seal key nonce text aad,
        uint32-put_uint32 (length text),
      )

  pub encrypt_aes_gcm_bytes :
      All IsByte text → All IsByte nonce → All IsByte (encrypt_aes_gcm c key nonce text)
  unfolding encrypt_aes_gcm
  encrypt_aes_gcm_bytes plain bytes =
      let aad = put_uint32 (length text) in
      All-append IsByte aad (nonce ++ c.seal key nonce text aad) (put_uint32_bytes (length text)) (
        All-append IsByte nonce (c.seal key nonce text aad) bytes
          (laws.seal_bytes key nonce text aad plain))

module _ (c : Crypto) (codecs : Codecs) (slug : List ℕ) (s : Session) (ciphertext : List ℕ) where
  abbrev pub claims : OuterClaims
  claims = record {
    slug = slug;
    expires_at = s.expires_at;
    inner_hash = encode (c.sha256 ciphertext);
  }

  abbrev encoded_claims : List ℕ
  encoded_claims = encode (codecs.outer.marshal claims)

  v2_payload-no_dot : Free b'.' (v2_payload c codecs slug s ciphertext)
  v2_payload-no_dot =
      All-append (λ b. b ≢ b'.') encoded_claims (b'|' ∷ encode ciphertext)
        (encode-no_dot (codecs.outer.marshal claims)) ((λ e. omega arith), encode-no_dot ciphertext)

  split_two-v2_payload :
      split_two b'|' (v2_payload c codecs slug s ciphertext)
      ≡ some (encoded_claims, encode ciphertext)
  split_two-v2_payload =
      split_two-append b'|' encoded_claims (encode ciphertext)
        (encode-no_bar (codecs.outer.marshal claims))

-- What sealing a session takes: a key for the slug, a nonce of its size, and JSON that can be read back.
pub record CanSeal (c : Crypto) (codecs : Codecs) (secret slug key nonce : List ℕ) (s : Session)
    : Type 0 where
  pub laws : IsCrypto c
  pub keyed : c.derive_key secret slug ≡ some key
  pub sized : length nonce ≡ nonce_size
  pub nonce_bytes : All IsByte nonce
  pub inner_trips : RoundTrips codecs.inner s
  pub outer_trips :
      RoundTrips codecs.outer
        (claims c codecs slug s (encrypt_aes_gcm c key nonce (codecs.inner.marshal s)))

module _ (c : Crypto) (codecs : Codecs) (secret slug key nonce : List ℕ) (s : Session)
    (can : CanSeal c codecs secret slug key nonce s) where
  abbrev sealed : List ℕ
  sealed = encrypt_aes_gcm c key nonce (codecs.inner.marshal s)

  open_inner-sealed :
      open_inner c codecs secret slug (claims c codecs slug s sealed) (encode sealed) ≡ ok s
  unfolding open_inner
  open_inner-sealed = grind (
    arith,
    can.keyed,
    decode-encode sealed (
        encrypt_aes_gcm_bytes c can.laws key nonce (codecs.inner.marshal s) can.sized
          can.inner_trips.0 can.nonce_bytes),
    beq_refl (encode (c.sha256 sealed)),
    decrypt_aes_gcm-encrypt_aes_gcm c can.laws key nonce (codecs.inner.marshal s) can.sized,
    can.inner_trips,
  )

  decode_sealed :
      (slug' : List ℕ) (later : ℕ)
      → decode_session_v2 c codecs secret slug' later
          (v2_prefix ++ sign c secret (v2_payload c codecs slug s sealed))
        ≡ (if slug == slug'
            then (if ltb s.expires_at later then err expired else ok s)
            else err binding_mismatch)
  unfolding decode_session_v2
  decode_sealed slug' later = elim (Bool-cases (slug == slug')) [
    | inl same ↦ ground (
      arith,
      same,
      (codes_beq_iff slug slug').0 same,
      check_signature-sign c secret (v2_payload c codecs slug s sealed)
          (v2_payload-no_dot c codecs slug s sealed),
      split_two-v2_payload c codecs slug s sealed,
      open_payload-encode codecs.outer (claims c codecs slug s sealed) (can.outer_trips),
      open_inner-sealed,
      ap
          (λ key_slug.
            open_inner c codecs secret key_slug (claims c codecs slug s sealed) (encode sealed))
          ((codes_beq_iff slug slug').0 same),
    )
    | inr other ↦ ground (
      arith,
      other,
      check_signature-sign c secret (v2_payload c codecs slug s sealed)
          (v2_payload-no_dot c codecs slug s sealed),
      split_two-v2_payload c codecs slug s sealed,
      open_payload-encode codecs.outer (claims c codecs slug s sealed) (can.outer_trips),
    )
  ]

encoded-ne-dotted : (a before after : List ℕ) → Free b'.' a → (a == before ++ b'.' ∷ after) ≡ false
encoded-ne-dotted [] [] after free = refl
encoded-ne-dotted [] (b ∷ before) after free = refl
encoded-ne-dotted (x ∷ a) [] after free = ground (arith, eqb_iff x b'.')
encoded-ne-dotted (x ∷ a) (b ∷ before) after free =
    ground (arith, encoded-ne-dotted a before after free.1)

-- A session of the second kind is none of the first.
decode_session_v2_only :
    (c : Crypto) (v1 : Json Session) (secret payload : List ℕ) (later : ℕ)
    → decode_session c v1 secret later (v2_prefix ++ sign c secret payload) ≡ err bad_signature
unfolding decode_session check_signature sign split_two
decode_session_v2_only c v1 secret payload later =
    let mac = encode (c.hmac secret (b'v' ∷ b'2' ∷ [])) in
    ground (
      arith,
      encoded-ne-dotted mac payload (encode (c.hmac secret payload))
          (encode-no_dot (c.hmac secret (b'v' ∷ b'2' ∷ []))),
    )

-- A session of the second kind, issued for a workspace's slug, is accepted from a cookie exactly under
-- that slug and until it expires, is then the session that was issued, with the times and the
-- identifier that it was given, and never passes for one of the first kind. The key is there, the
-- nonce has its size, and the JSON of the two layers can be read back.
pub session_from_request_v2-encode_session_v2 :
    (c : Crypto) (v1 : Json Session) (codecs : Codecs) (secret slug slug' key nonce token : List ℕ)
    (now fresh later : ℕ) (s : Session)
    → CanSeal c codecs secret slug key nonce (completed now fresh s)
    → encode_session_v2 c codecs secret slug now fresh (some nonce) s ≡ ok token
    → session_from_request_v2 c v1 codecs secret slug' later (some token) ≡ (
        if slug == slug' && not (ltb (completed now fresh s).expires_at later)
        then some (completed now fresh s, false)
        else none)
unfolding session_from_request_v2 encode_session_v2 seal_session
session_from_request_v2-encode_session_v2 c v1 codecs secret slug slug' key nonce token now fresh
      later s can made =
    let full = completed now fresh s in
    let payload =
      v2_payload c codecs slug full (encrypt_aes_gcm c key nonce (codecs.inner.marshal full)) in
    ground (
      arith,
      can.keyed,
      decode_sealed c codecs secret slug key nonce full can slug' later,
      decode_session_v2_only c v1 secret payload later,
    )
