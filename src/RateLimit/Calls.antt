-- ===== src/RateLimit/Calls.antt =====
-- Calls of a limiter, and what one of them does to a bucket.
use native.Mathlib.Nat.{add-mul}
use lecrm.Common.{
  ℕ, suc, ◌+◌, ◌-◌, ◌*◌, ◌≤◌, String, false, some, List, [], ◌∷◌, ◌==◌, string_eq, nat_eq, lookup,
  insert, lookup-insert, beq_refl, eqb, if◌then◌else◌, ◌≡◌, refl, ◌∙◌, ap, arith,
}
use lecrm.RateLimit.{Limiter, Bucket, Buckets, refill, take_token, allow_bucket, allow}

-- The buckets after a call.
abbrev pub after_call : Limiter → ℕ → String → Buckets → Buckets
after_call l now key buckets = (allow l now key buckets).0

-- The buckets after calls, each with its time and key.
unfoldable pub serve : Limiter → Buckets → List (ℕ × String) → Buckets
serve l buckets [] = buckets
serve l buckets ((now, key) ∷ calls) = serve l (after_call l now key buckets) calls

-- How many of the calls, each with its time and key, go through for a key.
unfoldable pub granted : Limiter → String → Buckets → List (ℕ × String) → ℕ
granted l k buckets [] = 0
granted l k buckets ((now, key) ∷ calls) =
    let rest = granted l k (after_call l now key buckets) calls in
    if (allow l now key buckets).1 then (if key == k then suc rest else rest) else rest

-- The times do not run backwards, and none is past the end.
abbrev pub IsOrdered : ℕ → ℕ → List (ℕ × String) → Type 0
IsOrdered start end [] = start ≤ end
IsOrdered start end ((now, key) ∷ calls) = (start ≤ now) × IsOrdered now end calls

pub IsOrdered-le :
    (start end : ℕ) (calls : List (ℕ × String)) → IsOrdered start end calls → start ≤ end
IsOrdered-le start end [] h = h
IsOrdered-le start end ((now, key) ∷ calls) h = omega (arith, h.0, IsOrdered-le now end calls h.1)

-- What a span of time earns is earned in its parts.
pub earned_split :
    (rate start now end : ℕ)
    → start ≤ now
    → now ≤ end
    → (end - start) * rate ≡ (now - start) * rate + (end - now) * rate
earned_split rate start now end h k =
    let split : end - start ≡ now - start + (end - now) = omega arith in
    ap (λ x. x * rate) split ∙ add-mul (now - start) (end - now) rate

-- A bucket that was made by calls before the time: at most full, and never in debt.
abbrev pub IsBucket : Limiter → ℕ → Bucket → Type 0
IsBucket l now b = (b.last ≤ now) × (l.one ≤ b.held) × (b.held ≤ l.burst + l.one)

module _ (l : Limiter) (room : l.one ≤ l.burst) where
  pub refill-IsBucket : (now : ℕ) (b : Bucket) → IsBucket l now b → IsBucket l now (refill l now b)
  refill-IsBucket now b h = ground arith

  pub take_token-IsBucket :
      (now : ℕ) (b : Bucket) → IsBucket l now b → IsBucket l now (take_token l b).0
  take_token-IsBucket now b h = ground arith

  -- A call is paid for.
  pub take_token_paid :
      (b : Bucket) → (if (take_token l b).1 then l.one else 0) + (take_token l b).0.held ≡ b.held
  take_token_paid b = ground arith

module _ (l : Limiter) (k : String) (limited : eqb l.rate 0 ≡ false) where
  allow_lem :
      (now : ℕ) (key : String) (buckets : Buckets)
      → allow l now key buckets ≡ (
        insert key (allow_bucket l now (lookup key buckets)).0 buckets,
        (allow_bucket l now (lookup key buckets)).1,
      )
  unfolding allow
  allow_lem now key buckets = rw (limited, allow) refl

  -- A call of the key, in units.
  pub granted_own :
      (now : ℕ) (buckets : Buckets) (calls : List (ℕ × String))
      → granted l k buckets ((now, k) ∷ calls) * l.one
        ≡ (if (allow_bucket l now (lookup k buckets)).1 then l.one else 0)
          + granted l k (after_call l now k buckets) calls * l.one
  unfolding granted
  granted_own now buckets calls =
      let rest = granted l k (after_call l now k buckets) calls in
      let verdict = ap (λ r. r.1) (allow_lem now k buckets) in
      ground (arith, verdict, beq_refl k, add-mul 1 rest l.one)

  pub granted_other :
      (now : ℕ) (key : String) (buckets : Buckets) (calls : List (ℕ × String))
      → (key == k) ≡ false
      → granted l k buckets ((now, key) ∷ calls) ≡ granted l k (after_call l now key buckets) calls
  unfolding granted
  granted_other now key buckets calls h = ground (arith, h)

  pub lookup-after_own :
      (now : ℕ) (buckets : Buckets)
      → lookup k (after_call l now k buckets) ≡ some (allow_bucket l now (lookup k buckets)).0
  lookup-after_own now buckets =
      ap (λ r. lookup k r.0) (allow_lem now k buckets)
      ∙ (lookup-insert k k (allow_bucket l now (lookup k buckets)).0 buckets ∙ rw (beq_refl k) refl)

  pub lookup-after_other :
      (now : ℕ) (key : String) (buckets : Buckets)
      → (key == k) ≡ false
      → lookup k (after_call l now key buckets) ≡ lookup k buckets
  lookup-after_other now key buckets h =
      ap (λ r. lookup k r.0) (allow_lem now key buckets)
      ∙ (lookup-insert key k (allow_bucket l now (lookup key buckets)).0 buckets ∙ rw h refl)
