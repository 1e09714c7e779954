-- ===== src/RateLimit.antt =====
-- internal/httplog/ratelimit.go: a token bucket for each address. The source counts tokens in
-- floats; here they are exact, in units of a sixty-billionth of a token, which is what one
-- nanosecond at one request a minute adds. The clock does not go back, and `per_minute` is not 0.
pub mod Bounds
pub mod Tests
use forge_proxy.Base.{
  ℕ, ◌+◌, ◌-◌, ◌*◌, Bytes, Bool, true, false, [], Option, none, some, ltb, min, if◌then◌else◌,
}
use forge_proxy.Base.Dict
use forge_proxy.Base.Dict.{Dict}

-- One token: a minute of nanoseconds.
abbrev pub token : ℕ
token = 60_000_000_000

pub record Bucket : Type 0 where
  pub tokens : ℕ
  pub last_seen : ℕ

pub record RateLimiter : Type 0 where
  pub buckets : Dict Bucket
  pub per_minute : ℕ

-- The capacity, in units.
unfoldable pub capacity : ℕ → ℕ
capacity per_minute = per_minute * token

-- `NewRateLimiter`
unfoldable pub new_rate_limiter : ℕ → RateLimiter
new_rate_limiter per_minute = record { buckets = []; per_minute = per_minute }

-- The bucket after the tokens of the elapsed time are added.
unfoldable pub refill : ℕ → ℕ → Bucket → Bucket
unfolding capacity
refill per_minute now b = record {
  tokens = min (capacity per_minute) (b.tokens + (now - b.last_seen) * per_minute);
  last_seen = now;
}

-- The decision on a bucket, and the bucket that is left.
spend : Bucket → Bool × Bucket
spend b = if ltb b.tokens token then (false, b) else (true, record b { tokens = b.tokens - token })

unfoldable pub decide : ℕ → ℕ → Option Bucket → Bool × Bucket
unfolding capacity refill spend
decide per_minute now none =
    (true, record { tokens = capacity per_minute - token; last_seen = now })
decide per_minute now (some b) = spend (refill per_minute now b)

-- `Allow`
unfoldable pub allow : RateLimiter → ℕ → Bytes → Bool × RateLimiter
unfolding decide Dict.lookup Dict.insert
allow rl now ip =
    let (ok, b) = decide rl.per_minute now (Dict.lookup ip rl.buckets) in
    (ok, record rl { buckets = Dict.insert ip b rl.buckets })

-- `RateLimitMiddleware`: the wrapped handler runs, or the answer is 429.
pub data Limited (A : Type 0) : Type 0 where
  passed : A → Limited A
  too_many_requests : ℕ → Limited A

unfoldable pub rate_limit_middleware :
    {A : Type 0} → A → RateLimiter → ℕ → Bytes → Limited A × RateLimiter
unfolding allow
rate_limit_middleware next rl now ip =
    let (ok, rl') = allow rl now ip in (if ok then passed next else too_many_requests 60, rl')
