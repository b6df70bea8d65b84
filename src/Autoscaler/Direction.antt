-- ===== src/Autoscaler/Direction.antt =====
-- The recommendation does not go against the metric.
use swarm_hpa.Base.{ℕ, ◌≤◌, ◌<◌, ◌^◌, ◌≡◌, Bool, true, arith, Float}
use swarm_hpa.Model.{ServicePolicy}
use swarm_hpa.Autoscaler.{proportional, desired}

-- What IEEE 754 and the Go specification say of a count times a ratio, rounded up and converted:
-- `fits` tells the values that lie in the range of uint64, where the conversion is defined, and
-- counts up to 2 ^ 53 are floats exactly.
pub record FloatScale {F : Type 0} (fl : Float F) (fits : F → Bool) : Type 0 where
  pub mul_one : (n : ℕ) → fl.mul (fl.of_uint64 n) fl.one ≡ fl.of_uint64 n
  pub mul_mono :
      (n : ℕ) (a b : F)
      → 0 < n
      → fl.le a b ≡ true
      → fl.le (fl.mul (fl.of_uint64 n) a) (fl.mul (fl.of_uint64 n) b) ≡ true
  pub ceil_above :
      (n : ℕ) (x : F)
      → n ≤ 2 ^ 53
      → fits x ≡ true
      → fl.le (fl.of_uint64 n) x ≡ true
      → n ≤ fl.to_uint64 (fl.ceil x)
  pub ceil_below :
      (n : ℕ) (x : F)
      → n ≤ 2 ^ 53
      → fits x ≡ true
      → fl.le x (fl.of_uint64 n) ≡ true
      → fl.to_uint64 (fl.ceil x) ≤ n

module _ {F : Type 0} ⦃fl : Float F⦄ (fits : F → Bool) (laws : FloatScale fl fits) (current : ℕ)
    (value : F) (p : ServicePolicy F) (exact : current ≤ 2 ^ 53)
    (in_range : fits (fl.mul (fl.of_uint64 current) (fl.div value p.target)) ≡ true) where
  proportional_above :
      0 < current
      → fl.le fl.one (fl.div value p.target) ≡ true
      → current ≤ proportional current (fl.div value p.target)
  unfolding proportional
  proportional_above c h =
      laws.ceil_above current (fl.mul (fl.of_uint64 current) (fl.div value p.target)) exact in_range
        (rw (laws.mul_one current) at (laws.mul_mono current fl.one (fl.div value p.target) c h))

  proportional_below :
      0 < current
      → fl.le (fl.div value p.target) fl.one ≡ true
      → proportional current (fl.div value p.target) ≤ current
  unfolding proportional
  proportional_below c h =
      laws.ceil_below current (fl.mul (fl.of_uint64 current) (fl.div value p.target)) exact in_range
        (rw (laws.mul_one current) at (laws.mul_mono current (fl.div value p.target) fl.one c h))

  -- A metric at or above its target never shrinks a service that is within its bounds, where the laws
  -- of the scale hold, the count is at most 2 ^ 53 and its product with the ratio is in range.
  pub desired-up :
      p.min ≤ current
      → current ≤ p.max
      → fl.le fl.one (fl.div value p.target) ≡ true
      → current ≤ desired current value p
  unfolding desired
  desired-up lo hi h = ground (arith, proportional_above)

  -- A metric at or below its target never grows a service that is within its bounds, where the laws of
  -- the scale hold, the count is at most 2 ^ 53 and its product with the ratio is in range.
  desired-down :
      p.min ≤ current
      → current ≤ p.max
      → fl.le (fl.div value p.target) fl.one ≡ true
      → desired current value p ≤ current
  unfolding desired
  desired-down lo hi h = ground (arith, proportional_below)
