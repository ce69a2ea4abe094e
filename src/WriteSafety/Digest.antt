-- ===== src/WriteSafety/Digest.antt =====
-- The digest of the planned effects (writesafety.go, `ComputeEffectDigest`).
pub mod Binding
use lecrm.Common.{ℕ, List}
use lecrm.Encoding.Hex.{hex}

-- SHA-256, and the JSON of an operation and its effects; `E` is the type of the effects.
pub record Hasher (E : Type 0) : Type 0 where
  pub sha256 : List ℕ → List ℕ
  pub marshal : List ℕ → List E → List ℕ

-- `ComputeEffectDigest`
unfoldable pub compute_effect_digest : {E : Type 0} → Hasher E → List ℕ → List E → List ℕ
compute_effect_digest hasher operation effects =
    hex (hasher.sha256 (hasher.marshal operation effects))
