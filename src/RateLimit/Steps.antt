-- ===== src/RateLimit/Steps.antt =====
-- One log export at the instant of the last refill: the bucket gives up a whole token, or refuses.
use rs_detritus.Common.{
  ℕ, suc, Str, true, false, Option, none, some, bytes, ◌-◌, ◌<◌, ◌≤◌, ◌^◌, ◌==◌, nat_eq, list_eq,
  pair_eq, eq_iff, if◌then◌else◌, Result, ok, err, ◌≡◌, refl, ◌∙◌, arith,
}
use rs_detritus.Common.Table.{lookup}
use rs_detritus.Storage.{SourceKey}
use rs_detritus.RateLimit.Float.{Float64, Ieee}
use rs_detritus.RateLimit.{
  RateKey, rate_key, RateLimitError, rate_limited, Bucket, RateLimiter, RateLimitConfig, take_token,
  refill, step_bucket, check_logs,
}
use rs_detritus.RateLimit.Buckets.{check-buckets}

-- The limits are `u32`.
pub record InRange (c : RateLimitConfig) : Type 0 where
  pub burst : c.logs_burst < 2 ^ 32
  pub rate : c.logs_per_minute < 2 ^ 32

module _ (F : Float64) where
  open F use {of_nat, le}

  abbrev pub held : ℕ → ℕ → Bucket F
  held m now = record { tokens = of_nat m; last_refill = now }

  module _ (ieee : Ieee F) where
    refill_now :
        (r burst now m : ℕ)
        → m ≤ burst
        → burst < 2 ^ 32
        → r < 2 ^ 32
        → refill F r burst now (held m now) ≡ held m now
    unfolding refill
    refill_now r burst now m h hb hr =
        let none_passed : now - now ≡ 0 = omega arith in
        rw (none_passed, ieee.add-no_time m r (omega arith) hr, ieee.of_nat-fmin m burst h hb)

    step_bucket-some :
        (r burst now : ℕ) (b : Bucket F)
        → step_bucket F r burst now (some b) ≡ take_token F (refill F r burst now b)
    unfolding step_bucket
    step_bucket-some r burst now b = refl

    take_token-held :
        (now m : ℕ) → suc m < 2 ^ 32 → take_token F (held (suc m) now) ≡ (ok tt, held m now)
    unfolding take_token
    take_token-held now m h =
        ground (arith, ieee.of_nat-le 1 (suc m) (omega arith) h, ieee.of_nat-sub m h)

    take_token-empty : (now : ℕ) → take_token F (held 0 now) ≡ (err rate_limited, held 0 now)
    unfolding take_token
    take_token-empty now = ground (arith, ieee.of_nat-le 1 0 (omega arith) (omega arith))

    pub step_held :
        (r burst now m : ℕ)
        → suc m ≤ burst
        → burst < 2 ^ 32
        → r < 2 ^ 32
        → step_bucket F r burst now (some (held (suc m) now)) ≡ (ok tt, held m now)
    step_held r burst now m h hb hr =
        rw (step_bucket-some, refill_now r burst now (suc m) h hb hr)
          (take_token-held now m (omega arith))

    pub step_empty :
        (r burst now : ℕ)
        → burst < 2 ^ 32
        → r < 2 ^ 32
        → step_bucket F r burst now (some (held 0 now)) ≡ (err rate_limited, held 0 now)
    step_empty r burst now hb hr =
        rw (step_bucket-some, refill_now r burst now 0 (omega arith) hb hr) (take_token-empty now)

    -- A bucket that is not there is a full one.
    pub step_fresh :
        (r burst now : ℕ)
        → step_bucket F r burst now none ≡ step_bucket F r burst now (some (held burst now))
    unfolding step_bucket
    step_fresh r burst now = refl

    pub check_logs-config :
        (t : Str) (s : SourceKey) (now : ℕ) (l : RateLimiter F)
        → (check_logs F t s now l).1.config ≡ l.config
    unfolding check_logs
    check_logs-config t s now l = refl

    check_logs-lookup :
        (t : Str) (s : SourceKey) (now : ℕ) (l : RateLimiter F) (k : RateKey)
        → lookup k (check_logs F t s now l).1.buckets ≡ (
            if rate_key (bytes "logs") t s == k
            then some
                (step_bucket F l.config.logs_per_minute l.config.logs_burst now
                  (lookup (rate_key (bytes "logs") t s) l.buckets)).1
            else lookup k l.buckets)
    unfolding check_logs
    check_logs-lookup t s now l k = check-buckets F (bytes "logs") t s _ _ now l k

    check_logs-result :
        (t : Str) (s : SourceKey) (now : ℕ) (l : RateLimiter F)
        → (check_logs F t s now l).0
          ≡ (step_bucket F l.config.logs_per_minute l.config.logs_burst now
              (lookup (rate_key (bytes "logs") t s) l.buckets)).0
    unfolding check_logs
    check_logs-result t s now l = refl

    -- The bucket of the key after one request, and the answer, from the bucket before it.
    check_logs-same :
        (t : Str) (s : SourceKey) (now : ℕ) (l : RateLimiter F) (k : RateKey)
        → (rate_key (bytes "logs") t s == k) ≡ true
        → let r =
            step_bucket F l.config.logs_per_minute l.config.logs_burst now (lookup k l.buckets) in
          ((check_logs F t s now l).0 ≡ r.0)
          × (lookup k (check_logs F t s now l).1.buckets ≡ some r.1)
    check_logs-same t s now l k same =
        let e : rate_key (bytes "logs") t s ≡ k = (eq_iff (rate_key (bytes "logs") t s) k).0 same in
        (check_logs-result t s now l ∙ rw e, check_logs-lookup t s now l k ∙ rw same (rw e))

    pub check_logs-other :
        (t : Str) (s : SourceKey) (now : ℕ) (l : RateLimiter F) (k : RateKey)
        → (rate_key (bytes "logs") t s == k) ≡ false
        → lookup k (check_logs F t s now l).1.buckets ≡ lookup k l.buckets
    check_logs-other t s now l k other = check_logs-lookup t s now l k ∙ rw other

    -- The answer and the bucket left, where the bucket before is known.
    pub check_logs-known :
        (t : Str) (s : SourceKey) (now : ℕ) (l : RateLimiter F) (k : RateKey)
        (o : Option (Bucket F)) (r : Result RateLimitError (Unit {0})) (b : Bucket F)
        → (rate_key (bytes "logs") t s == k) ≡ true
        → lookup k l.buckets ≡ o
        → step_bucket F l.config.logs_per_minute l.config.logs_burst now o ≡ (r, b)
        → ((check_logs F t s now l).0 ≡ r) × (lookup k (check_logs F t s now l).1.buckets ≡ some b)
    check_logs-known t s now l k o r b same e step =
        let (answer, after) = check_logs-same t s now l k same in
        (answer ∙ rw (e, step), after ∙ rw (e, step))
