-- ===== src/RateLimit/Burst.antt =====
-- What a crowd of requests at one instant gets.
use Prim.Native.Nat.{min}
use rs_detritus.Common.{
  ℕ, suc, zero, Str, none, some, List, [], ◌∷◌, bytes, ◌+◌, ◌≤◌, ◌==◌, nat_eq, list_eq, pair_eq,
  if◌then◌else◌, Result, ok, err, panic, ◌≡◌, refl, ap, ◌∙◌, arith, Bool-cases, ℕ-cases, inl, inr,
}
use rs_detritus.Common.Table.{lookup}
use rs_detritus.Storage.{SourceKey}
use rs_detritus.RateLimit.Float.{Float64, Ieee}
use rs_detritus.RateLimit.{
  RateKey, rate_key, RateLimitError, rate_limited, RateLimiter, RateLimitConfig, check_logs,
  new_rate_limiter,
}
use rs_detritus.RateLimit.Steps.{
  InRange, held, step_held, step_empty, step_fresh, check_logs-config, check_logs-other,
  check_logs-known,
}

abbrev admitted_one : Result RateLimitError (Unit {0}) → ℕ
admitted_one (ok _) = 1
admitted_one (err _) = 0
admitted_one panic = 0

-- The requests of a sequence that come from one token and source.
unfoldable pub count_requests : RateKey → List (Str × SourceKey) → ℕ
count_requests k [] = 0
count_requests k ((t, s) ∷ rs) =
    if rate_key (bytes "logs") t s == k then suc (count_requests k rs) else count_requests k rs

module _ (F : Float64) where
  open F use {of_nat, le}

  -- Of a sequence of log exports at one instant, how many with the key `k` are let in.
  unfoldable pub count_admitted : RateKey → ℕ → List (Str × SourceKey) → RateLimiter F → ℕ
  count_admitted k now [] l = 0
  count_admitted k now ((t, s) ∷ rs) l =
      let (r, l') = check_logs F t s now l in
      let rest = count_admitted k now rs l' in
      if rate_key (bytes "logs") t s == k then admitted_one r + rest else rest

  module _ (ieee : Ieee F) where
    count-held :
        (c : RateLimitConfig) (k : RateKey) (now m : ℕ) (rs : List (Str × SourceKey))
        (l : RateLimiter F)
        → InRange c
        → l.config ≡ c
        → m ≤ c.logs_burst
        → lookup k l.buckets ≡ some (held F m now)
        → count_admitted k now rs l ≡ min (count_requests k rs) m
    unfolding count_admitted count_requests
    count-held c k now m [] l v same_config h e = omega arith
    count-held c k now zero ((t, s) ∷ rs) l v same_config h e =
        elim (Bool-cases (rate_key (bytes "logs") t s == k)) [
          | inl same ↦
              let (answer, after) = check_logs-known F ieee t s now l k _ _ _ same e (
                step_empty F ieee l.config.logs_per_minute l.config.logs_burst now
                  (rw same_config v.burst) (rw same_config v.rate)) in
              let ih =
                count-held c k now zero rs _ v (check_logs-config F ieee t s now l ∙ same_config) h
                  after in
              rw (same, answer) (omega (arith, ih))
          | inr other ↦
              let ih =
                count-held c k now zero rs _ v (check_logs-config F ieee t s now l ∙ same_config) h
                  (check_logs-other F ieee t s now l k other ∙ e) in
              rw other ih
        ]
    count-held c k now (suc m) ((t, s) ∷ rs) l v same_config h e =
        elim (Bool-cases (rate_key (bytes "logs") t s == k)) [
          | inl same ↦
              let (answer, after) = check_logs-known F ieee t s now l k _ _ _ same e (
                step_held F ieee l.config.logs_per_minute l.config.logs_burst now m
                  (rw same_config h) (rw same_config v.burst) (rw same_config v.rate)) in
              let ih =
                count-held c k now m rs _ v (check_logs-config F ieee t s now l ∙ same_config)
                  (omega arith) after in
              rw (same, answer) (omega (arith, ih))
          | inr other ↦
              let ih =
                count-held c k now (suc m) rs _ v (check_logs-config F ieee t s now l ∙ same_config)
                  h (check_logs-other F ieee t s now l k other ∙ e) in
              rw other ih
        ]

    count-fresh :
        (c : RateLimitConfig) (k : RateKey) (now : ℕ) (rs : List (Str × SourceKey))
        (l : RateLimiter F)
        → InRange c
        → l.config ≡ c
        → lookup k l.buckets ≡ none
        → count_admitted k now rs l ≡ min (count_requests k rs) c.logs_burst
    unfolding count_admitted count_requests
    count-fresh c k now [] l v same_config e = omega arith
    count-fresh c k now ((t, s) ∷ rs) l v same_config e =
        elim (Bool-cases (rate_key (bytes "logs") t s == k)) [
          | inl same ↦ elim (ℕ-cases l.config.logs_burst) [
            | inl no_burst ↦
                let (answer, after) =
                  check_logs-known F ieee t s now l k none (err rate_limited) (held F 0 now) same e
                    (rw (step_fresh F ieee, no_burst)
                      (step_empty F ieee l.config.logs_per_minute 0 now (omega arith)
                        (rw same_config v.rate))) in
                let ih =
                  count-held c k now 0 rs _ v (check_logs-config F ieee t s now l ∙ same_config)
                    (omega arith) after in
                rw (same, answer)
                  (omega (arith, ih, ap (λ (d : RateLimitConfig). d.logs_burst) same_config))
            | inr (m, burst) ↦
                let (answer, after) =
                  check_logs-known F ieee t s now l k none (ok tt) (held F m now) same e (
                    rw (step_fresh F ieee, burst)
                      (step_held F ieee l.config.logs_per_minute (suc m) now m (omega arith)
                        (rw (← burst, same_config) v.burst) (rw same_config v.rate))) in
                let full = ap (λ (d : RateLimitConfig). d.logs_burst) same_config in
                let ih =
                  count-held c k now m rs _ v (check_logs-config F ieee t s now l ∙ same_config)
                    (omega arith) after in
                rw (same, answer) (omega (arith, ih))
          ]
          | inr other ↦
              let ih =
                count-fresh c k now rs _ v (check_logs-config F ieee t s now l ∙ same_config)
                  (check_logs-other F ieee t s now l k other ∙ e) in
              rw other ih
        ]

    -- With limits of 32 bits and floats that keep the facts of `Ieee`: at one instant, whatever
    -- requests of other tokens and sources stand between, a new limiter lets in as many log
    -- exports of one token and source as there are, up to the burst, and no more.
    pub burst_admits :
        (c : RateLimitConfig) (token_id : Str) (source : SourceKey) (now : ℕ)
        (rs : List (Str × SourceKey))
        → InRange c
        → count_admitted (rate_key (bytes "logs") token_id source) now rs (new_rate_limiter F c)
          ≡ min (count_requests (rate_key (bytes "logs") token_id source) rs) c.logs_burst
    unfolding new_rate_limiter lookup
    burst_admits c token_id source now rs v = count-fresh c _ now rs _ v refl refl
