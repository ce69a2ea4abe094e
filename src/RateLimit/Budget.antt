-- ===== src/RateLimit/Budget.antt =====
-- How many calls of one key go through in a span of time.

use lecrm.Common.{
  ℕ, ◌+◌, ◌-◌, ◌*◌, ◌≤◌, String, false, Option, none, some, List, [], ◌∷◌, ◌==◌, string_eq, nat_eq,
  lookup, eq_iff, eqb, ◌≡◌, inl, inr, refl, sym, ◌∙◌, arith, Bool-cases,
}
use mathlib.Core.Path.{subst}
use lecrm.RateLimit.{Limiter, Bucket, Buckets, refill, take_token, allow_bucket}
use lecrm.RateLimit.Calls.{
  after_call, serve, granted, IsOrdered, IsOrdered-le, earned_split, IsBucket, refill-IsBucket,
  take_token-IsBucket, take_token_paid, granted_own, granted_other, lookup-after_own,
  lookup-after_other,
}

module _ (l : Limiter) (k : String) (limited : eqb l.rate 0 ≡ false) (room : l.one ≤ l.burst) where
  -- The bucket after a call of its key.
  abbrev next : ℕ → Bucket → Bucket
  next now b = (take_token l (refill l now b)).0

  next-IsBucket : (now : ℕ) (b : Bucket) → IsBucket l now b → IsBucket l now (next now b)
  next-IsBucket now b v =
      take_token-IsBucket l room now (refill l now b) (refill-IsBucket l room now b v)

  next-last : (now : ℕ) (b : Bucket) → (next now b).last ≡ now
  next-last now b = ground arith

  own_step :
      (calls : List (ℕ × String)) (now end : ℕ) (buckets : Buckets) (b : Bucket)
      → lookup k buckets ≡ some b
      → IsBucket l now b
      → now ≤ end
      → granted l k (after_call l now k buckets) calls * l.one + l.one
        ≤ (next now b).held + (end - now) * l.rate
      → granted l k buckets ((now, k) ∷ calls) * l.one + l.one ≤ b.held + (end - b.last) * l.rate
  unfolding allow_bucket
  own_step calls now end buckets b there v h ih = ground (
    arith,
    granted_own l k limited now buckets calls,
    there,
    take_token_paid l room (refill l now b),
    refill-IsBucket l room now b v,
    earned_split l.rate b.last now end v.0 h,
  )

  lookup-next :
      (now : ℕ) (buckets : Buckets) (b : Bucket)
      → lookup k buckets ≡ some b
      → lookup k (after_call l now k buckets) ≡ some (next now b)
  unfolding allow_bucket
  lookup-next now buckets b there = lookup-after_own l k limited now buckets ∙ rw there refl

  -- What goes through is paid from what the bucket holds and what the time earns.
  granted_paid :
      (calls : List (ℕ × String)) (start end : ℕ) (buckets : Buckets) (b : Bucket)
      → lookup k buckets ≡ some b
      → IsBucket l start b
      → IsOrdered start end calls
      → granted l k buckets calls * l.one + l.one ≤ b.held + (end - b.last) * l.rate
  granted_paid [] start end buckets b there v h = unfold granted in omega (arith, v.1)
  granted_paid ((now, key) ∷ calls) start end buckets b there v h =
      let v' : IsBucket l now b = (omega (arith, v.0, h.0), v.1, v.2) in
      elim (Bool-cases (key == k)) [
        | inr other ↦ rw (granted_other l k limited now key buckets calls other) (
            granted_paid calls now end (after_call l now key buckets) b
              (lookup-after_other l k limited now key buckets other ∙ there) v' h.1)
        | inl own ↦
            subst
              (λ x.
                granted l k buckets ((now, x) ∷ calls) * l.one + l.one
                ≤ b.held + (end - b.last) * l.rate)
              (sym ((eq_iff key k).0 own))
              (own_step calls now end buckets b there v' (IsOrdered-le now end calls h.1) (
                rw (next-last now b) at (
                  granted_paid calls now end (after_call l now k buckets) (next now b)
                    (lookup-next now buckets b there) (next-IsBucket now b v') h.1)))
      ]

  -- The bucket of the key, if it has one, is in order.
  abbrev HasBucket : ℕ → Option Bucket → Type 0
  HasBucket now none = Unit
  HasBucket now (some b) = IsBucket l now b

  HasBucket-later :
      (start now : ℕ) (o : Option Bucket) → HasBucket start o → start ≤ now → HasBucket now o
  HasBucket-later start now none v h = tt
  HasBucket-later start now (some b) v h = (omega (arith, v.0), v.1, v.2)

  -- From the first call of the key on.
  granted_from :
      (calls : List (ℕ × String)) (now end : ℕ) (buckets : Buckets) (o : Option Bucket)
      → lookup k buckets ≡ o
      → HasBucket now o
      → now ≤ end
      → IsOrdered now end calls
      → granted l k buckets ((now, k) ∷ calls) * l.one ≤ l.burst + (end - now) * l.rate
  unfolding allow_bucket
  granted_from calls now end buckets none there v h ordered =
      let fresh : Bucket = record { held = l.burst; last = now } in
      let rest =
        granted_paid calls now end (after_call l now k buckets) fresh
          (lookup-after_own l k limited now buckets ∙ rw there refl)
          (omega arith, room, omega arith) ordered in
      ground (arith, granted_own l k limited now buckets calls, there, rest)
  granted_from calls now end buckets (some b) there v h ordered =
      let rest =
        granted_paid calls now end (after_call l now k buckets) (next now b)
          (lookup-next now buckets b there) (next-IsBucket now b v) ordered in
      ground (
        arith,
        granted_own l k limited now buckets calls,
        there,
        take_token_paid l room (refill l now b),
        refill-IsBucket l room now b v,
        rest,
      )

  granted_within :
      (calls : List (ℕ × String)) (start end : ℕ) (buckets : Buckets)
      → HasBucket start (lookup k buckets)
      → IsOrdered start end calls
      → granted l k buckets calls * l.one ≤ l.burst + (end - start) * l.rate
  granted_within [] start end buckets v h = unfold granted in omega arith
  granted_within ((now, key) ∷ calls) start end buckets v h =
      let later = HasBucket-later start now (lookup k buckets) v h.0 in
      let split = earned_split l.rate start now end h.0 (IsOrdered-le now end calls h.1) in
      elim (Bool-cases (key == k)) [
        | inr other ↦
            let kept = lookup-after_other l k limited now key buckets other in
            let rest =
              granted_within calls now end (after_call l now key buckets)
                (subst (HasBucket now) (sym kept) later) h.1 in
            rw (granted_other l k limited now key buckets calls other) (omega (arith, rest, split))
        | inl own ↦
            let rest =
              granted_from calls now end buckets (lookup k buckets) refl later
                (IsOrdered-le now end calls h.1) h.1 in
            subst
              (λ x.
                granted l k buckets ((now, x) ∷ calls) * l.one ≤ l.burst + (end - start) * l.rate)
              (sym ((eq_iff key k).0 own)) (omega (arith, rest, split))
      ]

  HasBucket-allow_bucket :
      (now : ℕ) (o : Option Bucket) → HasBucket now o → IsBucket l now (allow_bucket l now o).0
  unfolding allow_bucket
  HasBucket-allow_bucket now none v = (omega arith, room, omega arith)
  HasBucket-allow_bucket now (some b) v = next-IsBucket now b v

  HasBucket-after :
      (now : ℕ) (key : String) (buckets : Buckets)
      → HasBucket now (lookup k buckets)
      → HasBucket now (lookup k (after_call l now key buckets))
  HasBucket-after now key buckets v = elim (Bool-cases (key == k)) [
    | inr other ↦ rw (lookup-after_other l k limited now key buckets other) v
    | inl own ↦
        subst (λ x. HasBucket now (lookup k (after_call l now x buckets)))
          (sym ((eq_iff key k).0 own))
          (rw (lookup-after_own l k limited now buckets)
            (HasBucket-allow_bucket now (lookup k buckets) v))
  ]

  HasBucket-serve :
      (calls : List (ℕ × String)) (start end : ℕ) (buckets : Buckets)
      → HasBucket start (lookup k buckets)
      → IsOrdered start end calls
      → HasBucket end (lookup k (serve l buckets calls))
  unfolding serve
  HasBucket-serve [] start end buckets v h = HasBucket-later start end (lookup k buckets) v h
  HasBucket-serve ((now, key) ∷ calls) start end buckets v h =
      HasBucket-serve calls now end (after_call l now key buckets)
        (HasBucket-after now key buckets (HasBucket-later start now (lookup k buckets) v h.0)) h.1

-- With a rate that is not zero and a burst of one token or more, the calls of one key that go through in
-- any span of time, after whatever calls of whatever keys, are together no more than the burst and what
-- the rate earns in that span.
pub granted-le-burst :
    (l : Limiter) (k : String) (past calls : List (ℕ × String)) (start end : ℕ)
    → eqb l.rate 0 ≡ false
    → l.one ≤ l.burst
    → IsOrdered 0 start past
    → IsOrdered start end calls
    → granted l k (serve l [] past) calls * l.one ≤ l.burst + (end - start) * l.rate
granted-le-burst l k past calls start end limited room before h =
    granted_within l k limited room calls start end (serve l [] past)
      (HasBucket-serve l k limited room past 0 start [] (unfold lookup in tt) before) h
