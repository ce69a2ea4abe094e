-- ===== src/Auth/Token/Hash.antt =====
-- What a stored hash accepts, and whom a token names.
use lecrm.Common.{
  ℕ, ◌≤◌, true, false, some, List, [], ◌∷◌, ◌++◌, all, length, is_empty, codes_eq, codes_beq_iff,
  ok, ◌≡◌, ◌↔◌, refl, arith,
}
use lecrm.Encoding.Base64.{encode}
use lecrm.Encoding.Split.{Free, split, split-join}
use lecrm.Auth.Codec.{split_two-append}
use lecrm.Auth.Cookie.Scope.{strip_prefix-append}
use lecrm.Auth.Token.{
  Cost, Argon, argon_cost, argon_key_len, argon_version, token_prefix, hash_name, hash_token,
  generate_service_token, is_slug_byte, workspace_slug_from_token, parse_argon_hash,
  verify_service_token,
}

-- What is printed can be scanned, the printed parts hold no `$`, and a key has the length asked for.
pub record IsArgon (argon : Argon) : Type 0 where
  pub std_trips : (bytes : List ℕ) → argon.decode_std (argon.encode_std bytes) ≡ some bytes
  pub version_trips : (v : ℕ) → argon.scan_version (argon.print_version v) ≡ some v
  pub cost_trips : (cost : Cost) → argon.scan_cost (argon.print_cost cost) ≡ some cost
  pub std_plain : (bytes : List ℕ) → Free b'$' (argon.encode_std bytes)
  pub version_plain : (v : ℕ) → Free b'$' (argon.print_version v)
  pub cost_plain : (cost : Cost) → Free b'$' (argon.print_cost cost)
  pub key_length :
      (text salt : List ℕ) (cost : Cost) (n : ℕ) → length (argon.id_key text salt cost n) ≡ n

module _ (argon : Argon) (laws : IsArgon argon) (salt plaintext : List ℕ) where
  abbrev key : List ℕ
  key = argon.id_key plaintext salt argon_cost argon_key_len

  split-hash_token :
      split b'$' (hash_token argon salt plaintext)
      ≡ []
        ∷ hash_name
        ∷ argon.print_version argon_version
        ∷ argon.print_cost argon_cost
        ∷ argon.encode_std salt
        ∷ argon.encode_std key
        ∷ []
  unfolding hash_token
  split-hash_token =
      split-join b'$' []
        (hash_name
          ∷ argon.print_version argon_version
          ∷ argon.print_cost argon_cost
          ∷ argon.encode_std salt
          ∷ argon.encode_std key
          ∷ [])
        tt
        (
          omega arith,
          (
            laws.version_plain argon_version,
            (laws.cost_plain argon_cost, (laws.std_plain salt, (laws.std_plain key, tt))),
          ),
        )

  parse_argon_hash-hash_token :
      parse_argon_hash argon (hash_token argon salt plaintext)
      ≡ ok (record { salt = salt; hash = key; cost = argon_cost })
  unfolding parse_argon_hash
  parse_argon_hash-hash_token = rw split-hash_token (
      grind (
        arith,
        laws.version_trips argon_version,
        laws.cost_trips argon_cost,
        laws.std_trips salt,
        laws.std_trips key,
      ))

  -- A token is accepted by a stored hash exactly if its key is that of the token that was hashed.
  pub verify_service_token-hash_token :
      (token : List ℕ)
      → (verify_service_token argon token (hash_token argon salt plaintext) ≡ ok tt)
        ↔ (argon.id_key token salt argon_cost argon_key_len ≡ key)
  unfolding verify_service_token
  verify_service_token-hash_token token = rw parse_argon_hash-hash_token (
      rw (laws.key_length plaintext salt argon_cost argon_key_len) (
        (λ h.
            ground
              (arith, (codes_beq_iff (argon.id_key token salt argon_cost argon_key_len) key).0)),
        λ h.
            ground
              (arith, (codes_beq_iff (argon.id_key token salt argon_cost argon_key_len) key).1 h),
      ))

slug_bytes-Free : (slug : List ℕ) → all is_slug_byte slug ≡ true → Free b'_' slug
slug_bytes-Free [] h = tt
slug_bytes-Free (c ∷ slug) h = ((λ e. ground arith), slug_bytes-Free slug (ground arith))

encode_given : (bytes : List ℕ) → is_empty bytes ≡ false → is_empty (encode bytes) ≡ false
unfolding encode
encode_given [] h = cc
encode_given (a ∷ []) h = refl
encode_given (a ∷ b ∷ []) h = refl
encode_given (a ∷ b ∷ c ∷ bytes) h = refl

-- The shape that a slug in a token must have.
pub record IsSlug (slug : List ℕ) : Type 0 where
  pub given : is_empty slug ≡ false
  pub plain : all is_slug_byte slug ≡ true
  pub short : length slug ≤ 63

-- A token names the slug that it was generated for, and its hash accepts it.
pub generate_service_token-IsFor :
    (argon : Argon) (slug bytes salt plaintext hash : List ℕ)
    → IsArgon argon
    → IsSlug slug
    → is_empty bytes ≡ false
    → generate_service_token argon slug (some bytes) (some salt) ≡ ok (plaintext, hash)
    → (workspace_slug_from_token plaintext ≡ some slug)
      × (verify_service_token argon plaintext hash ≡ ok tt)
unfolding generate_service_token workspace_slug_from_token
generate_service_token-IsFor argon slug bytes salt plaintext hash laws shape random made =
    let body = slug ++ b'_' ∷ encode bytes in
    (
      ground (
        arith,
        shape.given,
        shape.plain,
        shape.short,
        strip_prefix-append token_prefix body,
        split_two-append b'_' slug (encode bytes) (slug_bytes-Free slug shape.plain),
        encode_given bytes random,
      ),
      ground (
        arith,
        shape.given,
        (verify_service_token-hash_token argon laws salt plaintext plaintext).1 refl,
      ),
    )
