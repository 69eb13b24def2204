-- ===== src/RateLimit/Buckets.antt =====
-- One decision: the bucket it leaves, and the buckets it does not touch.
use rs_detritus.Common.{
  ℕ, Str, true, Option, some, ◌==◌, nat_eq, list_eq, pair_eq, eq_iff, if◌then◌else◌, panic,
  Bool-cases, inl, inr, ◌≡◌, ◌≢◌, arith,
}
use rs_detritus.Common.Table.{lookup, lookup-insert}
use rs_detritus.Storage.{SourceKey}
use rs_detritus.Storage.Sources.{IsSource, canonical_injective}
use rs_detritus.RateLimit.Float.{Float64, Ieee}
use rs_detritus.RateLimit.{RateKey, rate_key, Bucket, RateLimiter, take_token, step_bucket, check}

rate_key-ne :
    (e e' t t' : Str) (s s' : SourceKey)
    → IsSource s
    → IsSource s'
    → ¬ ((e ≡ e') × (t ≡ t') × (s ≡ s'))
    → rate_key e t s ≢ rate_key e' t' s'
unfolding rate_key
rate_key-ne e e' t t' s s' hs hs' different same =
    different (cc same, cc same, canonical_injective s s' hs hs' (cc same))

module _ (F : Float64) where
  open F use {of_nat, le}

  pub check-buckets :
      (e t : Str) (s : SourceKey) (per_minute burst now : ℕ) (l : RateLimiter F) (j : RateKey)
      → lookup j (check F e t s per_minute burst now l).1.buckets ≡ (
          if rate_key e t s == j
          then some (step_bucket F per_minute burst now (lookup (rate_key e t s) l.buckets)).1
          else lookup j l.buckets)
  unfolding check
  check-buckets e t s per_minute burst now l j = rw lookup-insert

  take_token-runs : (b : Bucket F) → ¬ ((take_token F b).0 ≡ panic)
  unfolding take_token
  take_token-runs b e = elim (Bool-cases (le (of_nat 1) b.tokens)) [
    | inl full ↦ ground arith
    | inr empty ↦ ground arith
  ]

  pub check-runs :
      (e t : Str) (s : SourceKey) (per_minute burst now : ℕ) (l : RateLimiter F)
      → ¬ ((check F e t s per_minute burst now l).0 ≡ panic)
  unfolding check step_bucket
  check-runs e t s per_minute burst now l h = take_token-runs _ h

  -- A decision for one endpoint, token and valid source leaves the bucket of any other as it was:
  -- nobody can use up the allowance of another token or of another source.
  pub check_isolated :
      (e e' t t' : Str) (s s' : SourceKey) (per_minute burst now : ℕ) (l : RateLimiter F)
      → IsSource s
      → IsSource s'
      → ¬ ((e ≡ e') × (t ≡ t') × (s ≡ s'))
      → lookup (rate_key e' t' s') (check F e t s per_minute burst now l).1.buckets
        ≡ lookup (rate_key e' t' s') l.buckets
  check_isolated e e' t t' s s' per_minute burst now l hs hs' different = rw check-buckets (
      ground (
        arith,
        rate_key-ne e e' t t' s s' hs hs' different,
        eq_iff (rate_key e t s) (rate_key e' t' s'),
      ))

  module _ (ieee : Ieee F) where
    take_token-le :
        (b : Bucket F) (burst : ℕ)
        → le b.tokens (of_nat burst) ≡ true
        → le (take_token F b).1.tokens (of_nat burst) ≡ true
    unfolding take_token
    take_token-le b burst h = ground (arith, ieee.sub-le b.tokens burst h)

    -- With floats that keep the facts of `Ieee`: whatever the bucket held and however long it
    -- waited, after a decision it holds at most the burst, whether the request was let in or not.
    pub step_bucket-le :
        (per_minute burst now : ℕ) (o : Option (Bucket F))
        → le (step_bucket F per_minute burst now o).1.tokens (of_nat burst) ≡ true
    unfolding step_bucket
    step_bucket-le per_minute burst now o = take_token-le _ burst (ieee.fmin-le _ burst)
