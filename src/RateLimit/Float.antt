-- ===== src/RateLimit/Float.antt =====
-- The `f64` of the language, as far as the rate limiter uses it, and the documented behaviour of
-- IEEE 754 that the theorems rest on. Nothing is assumed of how a sum or a product is rounded.
use rs_detritus.Common.{ℕ, suc, Bool, true, ◌≡◌, ◌<◌, ◌≤◌, ◌^◌, leb}

pub record Float64 : Type 1 where
  pub Float : Type 0
  -- `f64::from` of a `u32`
  pub of_nat : ℕ → Float
  -- `Duration::as_secs_f64` of a number of nanoseconds
  pub of_nanos : ℕ → Float
  pub add : Float → Float → Float
  pub sub : Float → Float → Float
  pub mul : Float → Float → Float
  pub div : Float → Float → Float
  -- `f64::min`
  pub fmin : Float → Float → Float
  -- `a <= b`
  pub le : Float → Float → Bool
  -- `a < b`
  pub lt : Float → Float → Bool

pub record Ieee (F : Float64) : Type 0 where
  -- `min` is at most its second argument, if that is a number.
  pub fmin-le : (a : F.Float) (n : ℕ) → F.le (F.fmin a (F.of_nat n)) (F.of_nat n) ≡ true
  -- taking one away does not pass a bound
  pub sub-le :
      (a : F.Float) (n : ℕ)
      → F.le a (F.of_nat n) ≡ true
      → F.le (F.sub a (F.of_nat 1)) (F.of_nat n) ≡ true
  -- small whole numbers are exact
  pub of_nat-le : (m n : ℕ) → m < 2 ^ 32 → n < 2 ^ 32 → F.le (F.of_nat m) (F.of_nat n) ≡ leb m n
  pub of_nat-sub : (m : ℕ) → suc m < 2 ^ 32 → F.sub (F.of_nat (suc m)) (F.of_nat 1) ≡ F.of_nat m
  pub of_nat-fmin : (m n : ℕ) → m ≤ n → n < 2 ^ 32 → F.fmin (F.of_nat m) (F.of_nat n) ≡ F.of_nat m
  -- no time refills nothing
  pub add-no_time :
      (m r : ℕ)
      → m < 2 ^ 32
      → r < 2 ^ 32
      → F.add (F.of_nat m) (F.mul (F.of_nanos 0) (F.div (F.of_nat r) (F.of_nat 60))) ≡ F.of_nat m
