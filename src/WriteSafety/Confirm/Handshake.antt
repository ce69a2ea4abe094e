-- ===== src/WriteSafety/Confirm/Handshake.antt =====
-- A token confirms what it was issued for, until it expires, and nothing else.
use lecrm.Common.{
  ℕ, ◌+◌, ◌≤◌, ◌<◌, ◌≡◌, ◌↔◌, refl, sym, ap, ◌∙◌, arith, Bool, true, false, List, [], ◌∷◌, ◌++◌,
  is_empty, All, ltb, codes_beq, codes_beq_iff, if◌then◌else◌, codes_eq,
}
use lecrm.Encoding.Base64.{encode, IsByte, decode-encode, encode-no_dot}
use lecrm.Encoding.Decimal.{format_int, int_limit, parse_int-format_int, format_int-no_dot}
use lecrm.Encoding.Split.{split, join, Free, split-append, split_whole, append-split_unique}
use lecrm.WriteSafety.Confirm.{
  Crypto, Confirmer, confirm_token_ttl, confirm_token_version, message, sign, issue, verify,
}

-- The digests of HMAC are bytes.
abbrev pub ByteDigests : Crypto → Type 0
ByteDigests crypto = (k m : List ℕ) → All IsByte (crypto.hmac k m)

-- Two messages have one digest under the secret only if they are the same.
abbrev pub NoCollision : Crypto → Confirmer → List ℕ → List ℕ → Type 0
NoCollision crypto c m n = crypto.hmac c.secret m ≡ crypto.hmac c.secret n → m ≡ n

module _ (crypto : Crypto) (c : Confirmer) (ws : ℕ) (operation digest : List ℕ) (now : ℕ)
    (bytes : ByteDigests crypto) where
  signature_bytes : (exp : ℕ) → All IsByte (sign crypto c ws operation digest exp)
  unfolding sign
  signature_bytes exp = bytes c.secret (message crypto ws operation digest exp)

  split-issue :
      split b'.' (issue crypto c ws operation digest now)
      ≡ confirm_token_version
        ∷ format_int (now + confirm_token_ttl)
        ∷ encode (sign crypto c ws operation digest (now + confirm_token_ttl))
        ∷ []
  unfolding issue join
  split-issue =
      let exp = now + confirm_token_ttl in
      let sig = encode (sign crypto c ws operation digest exp) in
      split-append b'.' confirm_token_version (format_int exp ++ b'.' ∷ sig)
        ((λ e. omega arith), ((λ e. omega arith), tt))
      ∙ ap (λ (r : List (List ℕ)). confirm_token_version ∷ r)
          (split-append b'.' (format_int exp) sig (format_int-no_dot exp)
            ∙ ap (λ (r : List (List ℕ)). format_int exp ∷ r)
                (split_whole b'.' sig (encode-no_dot _)))

  -- What an issued token is checked for, against any claim at any time.
  pub verify-issue :
      (ws' : ℕ) (operation' digest' : List ℕ) (later : ℕ)
      → now + confirm_token_ttl < int_limit
      → verify crypto c (issue crypto c ws operation digest now) ws' operation' digest' later ≡ (
          if ltb (now + confirm_token_ttl) later
          then false
          else codes_beq
              (sign crypto c ws operation digest (now + confirm_token_ttl))
              (sign crypto c ws' operation' digest' (now + confirm_token_ttl)))
  unfolding verify
  verify-issue ws' operation' digest' later fits = rw split-issue (
      rw (parse_int-format_int (now + confirm_token_ttl) fits) (
        rw (
          decode-encode (sign crypto c ws operation digest (now + confirm_token_ttl))
            (signature_bytes (now + confirm_token_ttl)))))

-- Fields without a NUL are told apart by the message.
message_unique :
    (crypto : Crypto) (ws ws' : ℕ) (op op' digest digest' : List ℕ) (exp : ℕ)
    → Free 0 (crypto.uuid_text ws)
    → Free 0 (crypto.uuid_text ws')
    → Free 0 op
    → Free 0 op'
    → Free 0 digest
    → Free 0 digest'
    → message crypto ws op digest exp ≡ message crypto ws' op' digest' exp
    → (crypto.uuid_text ws ≡ crypto.uuid_text ws') × (op ≡ op') × (digest ≡ digest')
unfolding message join
message_unique crypto ws ws' op op' digest digest' exp hw hw' ho ho' hd hd' e =
    let version : Free 0 confirm_token_version = ((λ q. omega arith), ((λ q. omega arith), tt)) in
    let first =
      append-split_unique 0 confirm_token_version confirm_token_version _ _ version version e in
    let second =
      append-split_unique 0 (crypto.uuid_text ws) (crypto.uuid_text ws') _ _ hw hw' first.1 in
    let third = append-split_unique 0 op op' _ _ ho ho' second.1 in
    let fourth = append-split_unique 0 digest digest' _ _ hd hd' third.1 in
    (second.0, third.0, fourth.0)

meets :
    (exp later : ℕ) {b : Bool}
    → (if ltb exp later then false else b) ≡ true
    → (later ≤ exp) × (b ≡ true)
meets exp later h = ground arith

meets_back :
    (exp later : ℕ) {b : Bool}
    → later ≤ exp
    → b ≡ true
    → (if ltb exp later then false else b) ≡ true
meets_back exp later h k = ground arith

module _ (crypto : Crypto) (c : Confirmer) (ws ws' : ℕ) (op op' digest digest' : List ℕ)
    (exp : ℕ) where
  signature_unique :
      codes_beq (sign crypto c ws op digest exp) (sign crypto c ws' op' digest' exp) ≡ true
      → crypto.hmac c.secret (message crypto ws op digest exp)
        ≡ crypto.hmac c.secret (message crypto ws' op' digest' exp)
  unfolding sign
  signature_unique h = (codes_beq_iff _ _).0 h

  signature_same :
      crypto.uuid_text ws ≡ crypto.uuid_text ws'
      → op ≡ op'
      → digest ≡ digest'
      → codes_beq (sign crypto c ws op digest exp) (sign crypto c ws' op' digest' exp) ≡ true
  unfolding sign message
  signature_same w o d = (codes_beq_iff _ _).1 (λ i.
      crypto.hmac c.secret (join 0 (confirm_token_version ∷ w i ∷ o i ∷ d i ∷ format_int exp ∷ [])))

-- A token that was issued is accepted exactly until ten minutes later, and exactly for the workspace,
-- the operation and the effect digest that it was issued for. The fields hold no NUL, the digests of
-- HMAC are bytes, the two signed messages do not collide, and the expiry fits an int64.
pub verify-issue_iff :
    (crypto : Crypto) (c : Confirmer) (ws ws' : ℕ) (op op' digest digest' : List ℕ) (now later : ℕ)
    → ByteDigests crypto
    → NoCollision crypto c
        (message crypto ws op digest (now + confirm_token_ttl))
        (message crypto ws' op' digest' (now + confirm_token_ttl))
    → Free 0 (crypto.uuid_text ws)
    → Free 0 (crypto.uuid_text ws')
    → Free 0 op
    → Free 0 op'
    → Free 0 digest
    → Free 0 digest'
    → now + confirm_token_ttl < int_limit
    → (verify crypto c (issue crypto c ws op digest now) ws' op' digest' later ≡ true) ↔ (
        (later ≤ now + confirm_token_ttl)
        × (crypto.uuid_text ws ≡ crypto.uuid_text ws')
        × (op ≡ op')
        × (digest ≡ digest'))
verify-issue_iff crypto c ws ws' op op' digest digest' now later bytes free hw hw' ho ho' hd hd'
      fits =
    let exp = now + confirm_token_ttl in
    let checks = verify-issue crypto c ws op digest now bytes ws' op' digest' later fits in
    (
      (λ h.
          let met = meets exp later (sym checks ∙ h) in
          let same =
            message_unique crypto ws ws' op op' digest digest' exp hw hw' ho ho' hd hd'
              (free (signature_unique crypto c ws ws' op op' digest digest' exp met.1)) in
          (met.0, same.0, same.1, same.2)),
      λ h.
          checks
          ∙ meets_back exp later h.0
              (signature_same crypto c ws ws' op op' digest digest' exp h.1 h.2 h.3),
    )

module _ (crypto : Crypto) where
  pub issue_accepted :
      (c : Confirmer) (ws : ℕ) (operation effects : List ℕ) (now later : ℕ)
      → ByteDigests crypto
      → now + confirm_token_ttl < int_limit
      → later ≤ now + confirm_token_ttl
      → verify crypto c (issue crypto c ws operation effects now) ws operation effects later ≡ true
  issue_accepted c ws operation effects now later bytes fits soon =
      let signature = sign crypto c ws operation effects (now + confirm_token_ttl) in
      ground (
        arith,
        verify-issue crypto c ws operation effects now bytes ws operation effects later fits,
        (codes_beq_iff signature signature).1 refl,
      )

  pub issue_given :
      (c : Confirmer) (ws : ℕ) (operation effects : List ℕ) (now : ℕ)
      → is_empty (issue crypto c ws operation effects now) ≡ false
  unfolding issue join
  issue_given c ws operation effects now = refl
