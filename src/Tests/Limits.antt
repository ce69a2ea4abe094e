-- ===== src/Tests/Limits.antt =====
-- A limiter of two tokens that earns one a second.
use lecrm.Common.{ℕ, ◌+◌, ◌-◌, ◌*◌, ◌≤◌, String, List, [], ◌∷◌, ◌≡◌, refl, arith, lookup, insert}
use lecrm.RateLimit.{Limiter, allow, allow_bucket}
use lecrm.RateLimit.Calls.{serve, granted}
use lecrm.RateLimit.Budget.{granted-le-burst}

abbrev limiter : Limiter
limiter = record { one = 1000000000; rate = 1; burst = 2000000000 }

abbrev calls : List (ℕ × String)
calls = (7, "a") ∷ (8, "b") ∷ (8, "a") ∷ (9, "a") ∷ (1000000009, "a") ∷ []

three_granted : granted limiter "a" [] calls ≡ 3
unfolding granted allow allow_bucket lookup insert
three_granted = refl

granted-le-burst_example :
    granted limiter "a" (serve limiter [] ((1, "a") ∷ [])) calls * 1000000000
    ≤ 2000000000 + (1000000009 - 7) * 1
granted-le-burst_example =
    granted-le-burst limiter "a" ((1, "a") ∷ []) calls 7 1000000009 refl (omega arith)
      (omega arith, omega arith)
      (omega arith, (omega arith, (omega arith, (omega arith, (omega arith, omega arith)))))
