-- ===== src/RateLimit.antt =====
-- internal/middleware/rate_limiter.go: the token bucket. The source counts tokens in float64;
-- here a token is 6·10¹⁶ units, so that a rate of `rpm` requests a minute is the whole number
-- rpm·10⁶ of units a nanosecond, and the source's least rate, 0.000001 a second, is 60. Rounding of
-- float64 is not modelled. The clock readings of two calls may reach the lock out of order, so the
-- tokens are signed.
pub mod Bound
pub mod Calls
use go_cmms.Base.{ℕ, zero, ◌*◌, Bool, true, false, Option, none, some, [], leb, if◌then◌else◌}
use go_cmms.Base.Int.{ℤ, pos, negsuc, pos_part, neg_part, sub_ℕ, ◌+ℤ◌, ◌-ℤ◌, ltb_ℤ}
use go_cmms.Base.Maps.{Map, lookup, insert}
use go_cmms.Text.{Text, text_key}
use go_cmms.Models.{Time}

abbrev pub one_token : ℕ
one_token = 60_000_000_000_000_000

pub record Bucket : Type 0 where
  pub tokens : ℤ
  pub last_refill : Time

-- `ttl` is stored and never read by the source.
pub record Limiter : Type 0 where
  pub buckets : Map Text Bucket
  pub rate : ℕ
  pub capacity : ℕ
  pub ttl : ℕ

-- `rps := float64(rpm) / 60.0; if rps <= 0 { rps = 0.000001 }`, in units a nanosecond.
unfoldable pub rate_of : ℤ → ℕ
rate_of (pos n) = if leb n 0 then 60 else n * 1_000_000
rate_of (negsuc n) = 60

-- `if burst <= 0 { burst = 1 }`
unfoldable pub burst_of : ℤ → ℕ
burst_of (pos n) = if leb n 0 then 1 else n
burst_of (negsuc n) = 1

-- `newLimiter`, as `RateLimitWith` calls it.
unfoldable pub new_limiter : ℤ → ℤ → ℕ → Limiter
unfolding rate_of burst_of
new_limiter rpm burst ttl = record {
  buckets = [];
  rate = rate_of rpm;
  capacity = burst_of burst * one_token;
  ttl = ttl;
}

-- `min`
unfoldable pub min : ℤ → ℤ → ℤ
min a b = if ltb_ℤ a b then a else b

-- The bucket of a key, created full at the first call.
unfoldable pub bucket_of : Text → Time → Limiter → Bucket
bucket_of key now l = elim (lookup key l.buckets) [
  | none ↦ record { tokens = pos l.capacity; last_refill = now }
  | some b ↦ b
]

unfoldable pub refill : Limiter → Time → Bucket → ℤ
refill l now b = min (pos l.capacity) (b.tokens +ℤ sub_ℕ (now * l.rate) (b.last_refill * l.rate))

-- `if b.tokens >= 1.0 { b.tokens -= 1.0; return true }; return false`
unfoldable pub take : ℤ → Time → Bool × Bucket
take tokens now =
    if ltb_ℤ tokens (pos one_token)
    then (false, record { tokens = tokens; last_refill = now })
    else (true, record { tokens = tokens -ℤ pos one_token; last_refill = now })

-- `(*limiter).allow`, the whole of it under the lock, with the reading of the clock before it.
unfoldable pub allow : Text → Time → Limiter → Bool × Limiter
allow key now l =
    let (ok, b) = take (refill l now (bucket_of key now l)) now in
    (ok, record l { buckets = insert key b l.buckets })
