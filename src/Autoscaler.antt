-- ===== src/Autoscaler.antt =====
-- internal/core/autoscaler/autoscaler.go: the replica count that a metric asks for.
pub mod Bounds
pub mod Direction
pub mod Steps
use swarm_hpa.Base.{
  ℕ, ◌+◌, ◌-◌, ◌%◌, ◌^◌, Bool, true, false, ◌||◌, Float, ltb, nat_eq, if◌then◌else◌,
}
use swarm_hpa.Model.{ServicePolicy}

abbrev pub u64 : ℕ → ℕ
u64 n = n % 2 ^ 64

unfoldable pub clamp : ℕ → ℕ → ℕ → ℕ
clamp v lo hi = if ltb v lo then lo else if ltb hi v then hi else v

module _ {F : Type 0} ⦃fl : Float F⦄ where
  -- DefaultTolerance
  abbrev pub default_tolerance : F
  default_tolerance = fl.tenth

  -- uint64(math.Ceil(float64(current) * ratio))
  unfoldable pub proportional : ℕ → F → ℕ
  proportional current ratio = fl.to_uint64 (fl.ceil (fl.mul (fl.of_uint64 current) ratio))

  -- Desired
  unfoldable pub desired : ℕ → F → ServicePolicy F → ℕ
  unfolding clamp proportional
  desired current value p =
      if fl.le p.target fl.zero
      then clamp current p.min p.max
      else if nat_eq current 0
      then clamp p.min p.min p.max
      else let ratio = fl.div value p.target in
        if fl.le (fl.abs (fl.sub ratio fl.one)) default_tolerance
        then clamp current p.min p.max
        else clamp (proportional current ratio) p.min p.max

-- ClampStep, over uint64: the sum wraps, and each difference is taken of a larger number.
unfoldable pub clamp_step : ℕ → ℕ → ℕ → ℕ
clamp_step current desired max_step =
    if nat_eq max_step 0 || nat_eq desired current
    then desired
    else if ltb current desired
    then (if ltb max_step (desired - current) then u64 (current + max_step) else desired)
    else (if ltb max_step (current - desired) then current - max_step else desired)
