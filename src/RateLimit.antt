-- ===== src/RateLimit.antt =====
-- crates/detritus-server/src/rate_limit.rs: a token bucket for each endpoint, token and source.
pub mod Float
pub mod Buckets
pub mod Steps
pub mod Burst
use rs_detritus.Common.{
  ℕ, Str, Bool, true, false, Option, none, some, List, [], ◌∷◌, bytes, ◌-◌, ◌==◌, nat_eq, list_eq,
  pair_eq, if◌then◌else◌, Result, ok, err,
}
use rs_detritus.Common.Table.{Table, lookup, insert}
use rs_detritus.Storage.{SourceKey, canonical}
use Float.{Float64}

pub record RateLimitConfig : Type 0 where
  pub logs_per_minute : ℕ
  pub logs_burst : ℕ
  pub crashes_per_minute : ℕ
  pub crashes_burst : ℕ

-- `Default for RateLimitConfig`
abbrev pub default_rate_limit : RateLimitConfig
default_rate_limit = record {
  logs_per_minute = 1000;
  logs_burst = 200;
  crashes_per_minute = 30;
  crashes_burst = 5;
}

-- `RateKey`: the endpoint, the identifier of the token and the canonical source.
abbrev pub RateKey : Type 0
RateKey = Str × (Str × Str)

unfoldable pub rate_key : Str → Str → SourceKey → RateKey
rate_key endpoint token_id source = (endpoint, (token_id, canonical source))

pub data RateLimitError : Type 0 where
  rate_limited : RateLimitError

module _ (F : Float64) where
  open F use {Float, of_nat, of_nanos, add, sub, mul, div, fmin, le}

  pub record Bucket : Type 0 where
    pub tokens : Float
    -- nanoseconds of the monotonic clock
    pub last_refill : ℕ

  pub record RateLimiter : Type 0 where
    pub buckets : Table RateKey Bucket
    pub config : RateLimitConfig

  unfoldable pub new_rate_limiter : RateLimitConfig → RateLimiter
  new_rate_limiter config = record { buckets = []; config = config }

  -- `entry(key).or_insert_with(..)`
  bucket_or_full : ℕ → ℕ → Option Bucket → Bucket
  bucket_or_full burst now none = record { tokens = of_nat burst; last_refill = now }
  bucket_or_full burst now (some b) = b

  -- `Instant::duration_since` is zero where the clock would go back.
  pub refill : ℕ → ℕ → ℕ → Bucket → Bucket
  refill per_minute burst now b = record {
    tokens =
        fmin
          (add b.tokens
            (mul (of_nanos (now - b.last_refill)) (div (of_nat per_minute) (of_nat 60))))
          (of_nat burst);
    last_refill = now;
  }

  -- The test and the withdrawal, on the refilled bucket.
  pub take_token : Bucket → Result RateLimitError (Unit {0}) × Bucket
  take_token b =
      if le (of_nat 1) b.tokens
      then (ok tt, record b { tokens = sub b.tokens (of_nat 1) })
      else (err rate_limited, b)

  -- The whole of one decision on a bucket that is there or not.
  unfoldable pub step_bucket : ℕ → ℕ → ℕ → Option Bucket → Result RateLimitError (Unit {0}) × Bucket
  unfolding bucket_or_full refill take_token
  step_bucket per_minute burst now o =
      take_token (refill per_minute burst now (bucket_or_full burst now o))

  -- The mutex makes one call atomic: a state before and a state after.
  unfoldable pub check :
      Str
      → Str
      → SourceKey
      → ℕ
      → ℕ
      → ℕ
      → RateLimiter
      → Result RateLimitError (Unit {0}) × RateLimiter
  check endpoint token_id source per_minute burst now l =
      let key = rate_key endpoint token_id source in
      let (r, b) = step_bucket per_minute burst now (lookup key l.buckets) in
      (r, record l { buckets = insert key b l.buckets })

  unfoldable pub check_logs :
      Str → SourceKey → ℕ → RateLimiter → Result RateLimitError (Unit {0}) × RateLimiter
  unfolding check
  check_logs token_id source now l =
      check (bytes "logs") token_id source l.config.logs_per_minute l.config.logs_burst now l

  unfoldable pub check_crashes :
      Str → SourceKey → ℕ → RateLimiter → Result RateLimitError (Unit {0}) × RateLimiter
  unfolding check
  check_crashes token_id source now l =
      check (bytes "crashes") token_id source l.config.crashes_per_minute l.config.crashes_burst now
        l
