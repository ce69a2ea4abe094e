-- ===== src/RateLimit.antt =====
-- The token bucket of the MCP adapter (apps/mcp/internal/ratelimit/ratelimit.go). The amounts are
-- exact where the source has floating-point numbers: a token is `one` units and the rate a number of
-- units per nanosecond, so that every positive rational rate has a limiter; the clock does not run
-- backwards, which Go's monotonic clock promises. The mutex makes each call one step.
pub mod Calls
pub mod Budget
use lecrm.Common.{
  ℕ, ◌+◌, ◌-◌, ◌*◌, ◌≤◌, ◌<◌, String, Bool, true, false, Option, none, some, List, [], ◌∷◌, ◌==◌,
  string_eq, nat_eq, lookup, insert, ltb, eqb, if◌then◌else◌,
}

pub record Limiter : Type 0 where
  pub one : ℕ
  pub rate : ℕ
  pub burst : ℕ

-- `held` is the tokens and one more, in units: the tokens of a first call with a burst below one are
-- negative.
pub record Bucket : Type 0 where
  pub held : ℕ
  pub last : ℕ

abbrev pub Buckets : Type 0
Buckets = List (String × Bucket)

-- The bucket at the time `now`, refilled and not above the burst.
abbrev pub refill : Limiter → ℕ → Bucket → Bucket
refill l now b =
    let full = b.held + (now - b.last) * l.rate in
    record { held = if ltb (l.burst + l.one) full then l.burst + l.one else full; last = now }

abbrev pub take_token : Limiter → Bucket → Bucket × Bool
take_token l b =
    if ltb b.held (l.one + l.one) then (b, false) else (record b { held = b.held - l.one }, true)

-- The bucket of a key after a call, and whether it is allowed. A new bucket is full but for one token.
unfoldable pub allow_bucket : Limiter → ℕ → Option Bucket → Bucket × Bool
allow_bucket l now none = (record { held = l.burst; last = now }, true)
allow_bucket l now (some b) = take_token l (refill l now b)

-- `Allow`
unfoldable pub allow : Limiter → ℕ → String → Buckets → Buckets × Bool
allow l now key buckets =
    if eqb l.rate 0
    then (buckets, true)
    else (let (b, allowed) = allow_bucket l now (lookup key buckets) in
        (insert key b buckets, allowed))
