-- ===== src/Examples/Limits.antt =====
-- The rate limiter with whole numbers in the place of the floats, which behave as the theorems ask.
use Prim.Native.Nat.{min}
use rs_detritus.Common.{
  ℕ, Str, true, some, List, [], ◌∷◌, bytes, ◌-◌, ◌+◌, ◌*◌, ◌/◌, leb, ltb, ◌≡◌, refl, arith, nat_eq,
  list_eq, pair_eq,
}
use rs_detritus.Common.Table.{lookup}
use rs_detritus.Storage.{SourceKey}
use rs_detritus.RateLimit.Float.{Float64, Ieee}
use rs_detritus.RateLimit.{RateLimitConfig, rate_key, new_rate_limiter, step_bucket, check}
use rs_detritus.RateLimit.Buckets.{check_isolated, step_bucket-le}
use rs_detritus.RateLimit.Burst.{count_requests, count_admitted, burst_admits}
use rs_detritus.Examples.Sources.{acme, acme-IsSource}

abbrev pub whole : Float64
whole = record {
  Float = ℕ;
  of_nat = λ n. n;
  of_nanos = λ n. n / 1000000000;
  add = λ a b. a + b;
  sub = λ a b. a - b;
  mul = λ a b. a * b;
  div = λ a b. a / b;
  fmin = λ a b. min a b;
  le = λ a b. leb a b;
  lt = λ a b. ltb a b;
}

pub whole-Ieee : Ieee whole
whole-Ieee = record {
  fmin-le = λ a n. ground arith;
  sub-le = λ a n h. ground arith;
  of_nat-le = λ m n hm hn. refl;
  of_nat-sub = λ m h. omega arith;
  of_nat-fmin = λ m n h hn. omega arith;
  add-no_time = λ m r hm hr. omega arith;
}

abbrev crowd : List (Str × SourceKey)
crowd = (bytes "t", acme) ∷ (bytes "u", acme) ∷ (bytes "t", acme) ∷ []

abbrev one_at_once : RateLimitConfig
one_at_once = record {
  logs_per_minute = 60;
  logs_burst = 1;
  crashes_per_minute = 30;
  crashes_burst = 5;
}

burst_admits_example :
    count_admitted whole
      (rate_key (bytes "logs") (bytes "t") acme)
      7
      crowd
      (new_rate_limiter whole one_at_once)
    ≡ min (count_requests (rate_key (bytes "logs") (bytes "t") acme) crowd) 1
burst_admits_example =
    burst_admits whole whole-Ieee one_at_once (bytes "t") acme 7 crowd
      (record { burst = omega arith; rate = omega arith })

check_isolated_example :
    lookup
      (rate_key (bytes "logs") (bytes "u") acme)
      (check whole
        (bytes "logs")
        (bytes "t")
        acme
        60
        1
        7
        (new_rate_limiter whole one_at_once)).1.buckets
    ≡ lookup (rate_key (bytes "logs") (bytes "u") acme) (new_rate_limiter whole one_at_once).buckets
unfolding bytes
check_isolated_example =
    check_isolated whole (bytes "logs") (bytes "logs") (bytes "t") (bytes "u") acme acme 60 1 7
      (new_rate_limiter whole one_at_once) acme-IsSource acme-IsSource
      (λ e. let (_, token_same, _) = e in ground (arith, token_same))

step_bucket-le_example :
    leb
      (step_bucket whole 60 5 3000000000 (some (record { tokens = 4; last_refill = 0 }))).1.tokens
      5
    ≡ true
step_bucket-le_example =
    step_bucket-le whole whole-Ieee 60 5 3000000000 (some (record { tokens = 4; last_refill = 0 }))
