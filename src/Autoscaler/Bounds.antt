-- ===== src/Autoscaler/Bounds.antt =====
-- The recommendation stays within the policy's bounds, and a step within its limit.
use swarm_hpa.Base.{ℕ, ◌+◌, ◌≤◌, ◌<◌, ◌^◌, ◌⊎◌, arith, Float}
use swarm_hpa.Model.{ServicePolicy}
use swarm_hpa.Autoscaler.{clamp, desired, clamp_step}

pub clamp_bounds : (v lo hi : ℕ) → lo ≤ hi → (lo ≤ clamp v lo hi) × (clamp v lo hi ≤ hi)
unfolding clamp
clamp_bounds v lo hi h = ground arith

-- Whatever the metric reads, NaN and infinities included, the recommendation is within min and max,
-- if min is at most max.
pub desired_bounds :
    {F : Type 0} ⦃fl : Float F⦄ (current : ℕ) (value : F) (p : ServicePolicy F)
    → p.min ≤ p.max
    → (p.min ≤ desired current value p) × (desired current value p ≤ p.max)
unfolding desired
desired_bounds current value p h = ground arith

-- With a limit and a uint64 wish, the count moves towards the wish by the limit at most, and never past it; the sum
-- does not wrap.
pub clamp_step_lem :
    (current wish max_step : ℕ)
    → 0 < max_step
    → wish < 2 ^ 64
    → (clamp_step current wish max_step ≤ current + max_step)
      × (current ≤ clamp_step current wish max_step + max_step)
      × (((current ≤ clamp_step current wish max_step) × (clamp_step current wish max_step ≤ wish))
          ⊎ ((clamp_step current wish max_step ≤ current)
              × (wish ≤ clamp_step current wish max_step)))
unfolding clamp_step
clamp_step_lem current wish max_step h w = ground arith
