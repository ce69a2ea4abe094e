-- ===== src/WriteSafety/Digest/Binding.antt =====
-- A confirmation token is of the effects that were planned.
use lecrm.Common.{ℕ, ◌+◌, ◌≤◌, ◌<◌, true, List, All, ◌≡◌, ◌↔◌, ap}
use lecrm.Encoding.Base64.{IsByte}
use lecrm.Encoding.Hex.{hex, hex-no_nul, hex_unique}
use lecrm.Encoding.Decimal.{int_limit}
use lecrm.Encoding.Split.{Free}
use lecrm.WriteSafety.Confirm.{Crypto, Confirmer, confirm_token_ttl, message, issue, verify}
use lecrm.WriteSafety.Confirm.Handshake.{ByteDigests, NoCollision, verify-issue_iff}
use lecrm.WriteSafety.Digest.{Hasher, compute_effect_digest}

-- The digests are bytes, and two bodies have one only if they are the same.
pub record IsHash {E : Type 0} (hasher : Hasher E) (body body' : List ℕ) : Type 0 where
  pub bytes : (text : List ℕ) → All IsByte (hasher.sha256 text)
  pub apart : hasher.sha256 body ≡ hasher.sha256 body' → body ≡ body'

module _ {E : Type 0} (hasher : Hasher E) (op op' : List ℕ) (effects effects' : List E)
    (hash : IsHash hasher (hasher.marshal op effects) (hasher.marshal op' effects')) where
  compute_effect_digest_iff :
      (compute_effect_digest hasher op effects ≡ compute_effect_digest hasher op' effects')
      ↔ (hasher.marshal op effects ≡ hasher.marshal op' effects')
  unfolding compute_effect_digest
  compute_effect_digest_iff = (
    (λ h. hash.apart (
        hex_unique (hasher.sha256 (hasher.marshal op effects))
          (hasher.sha256 (hasher.marshal op' effects')) (hash.bytes (hasher.marshal op effects))
          (hash.bytes (hasher.marshal op' effects')) h)),
    λ h. ap (λ body. hex (hasher.sha256 body)) h,
  )

digest-no_nul :
    {E : Type 0} (hasher : Hasher E) (op : List ℕ) (effects : List E)
    → Free 0 (compute_effect_digest hasher op effects)
unfolding compute_effect_digest
digest-no_nul hasher op effects = hex-no_nul (hasher.sha256 (hasher.marshal op effects))

-- A token that was issued for the effects that were planned is accepted exactly until ten minutes
-- later, and exactly for the workspace, the operation and the effects, as JSON has them, that it was
-- issued for. The workspaces and the operations hold no NUL, the digests are bytes, neither the two
-- bodies nor the two signed messages collide, and the expiry fits an int64.
pub verify-compute_effect_digest :
    {E : Type 0} (crypto : Crypto) (hasher : Hasher E) (c : Confirmer) (ws ws' : ℕ)
    (op op' : List ℕ) (effects effects' : List E) (now later : ℕ)
    → ByteDigests crypto
    → IsHash hasher (hasher.marshal op effects) (hasher.marshal op' effects')
    → NoCollision crypto c
        (message crypto ws op (compute_effect_digest hasher op effects) (now + confirm_token_ttl))
        (message crypto ws' op'
          (compute_effect_digest hasher op' effects')
          (now + confirm_token_ttl))
    → Free 0 (crypto.uuid_text ws)
    → Free 0 (crypto.uuid_text ws')
    → Free 0 op
    → Free 0 op'
    → now + confirm_token_ttl < int_limit
    → (verify crypto c
          (issue crypto c ws op (compute_effect_digest hasher op effects) now)
          ws'
          op'
          (compute_effect_digest hasher op' effects')
          later
        ≡ true)
      ↔ ((later ≤ now + confirm_token_ttl)
          × (crypto.uuid_text ws ≡ crypto.uuid_text ws')
          × (op ≡ op')
          × (hasher.marshal op effects ≡ hasher.marshal op' effects'))
verify-compute_effect_digest crypto hasher c ws ws' op op' effects effects' now later bytes hash
      apart hw hw' ho ho' fits =
    let accepted =
      verify-issue_iff crypto c ws ws' op op' (compute_effect_digest hasher op effects)
        (compute_effect_digest hasher op' effects') now later bytes apart hw hw' ho ho'
        (digest-no_nul hasher op effects) (digest-no_nul hasher op' effects') fits in
    let same = compute_effect_digest_iff hasher op op' effects effects' hash in
    (
      (λ h.
          let (soon, place, operation, digest) = accepted.0 h in
          (soon, place, operation, same.0 digest)),
      λ h.
          let (soon, place, operation, body) = h in
          accepted.1 (soon, place, operation, same.1 body),
    )
