-- ===== src/Autoscaler/Steps.antt =====
-- A wish that stands is reached by repeated steps.
use swarm_hpa.Base.{ℕ, zero, suc, ◌+◌, ◌*◌, ◌≤◌, ◌<◌, ◌^◌, ◌≡◌, arith}
use swarm_hpa.Autoscaler.{clamp_step}

-- The replica count after n ticks that each step towards the same wish.
pub step_towards : ℕ → ℕ → ℕ → ℕ → ℕ
step_towards zero current wish max_step = current
step_towards (suc n) current wish max_step =
    step_towards n (clamp_step current wish max_step) wish max_step

clamp_step_closer :
    (n current wish max_step : ℕ)
    → wish < 2 ^ 64
    → wish ≤ current + suc n * max_step
    → current ≤ wish + suc n * max_step
    → (wish ≤ clamp_step current wish max_step + n * max_step)
      × (clamp_step current wish max_step ≤ wish + n * max_step)
unfolding clamp_step
clamp_step_closer n current wish max_step w h k = ground arith

-- n steps of `max_step` reach every uint64 wish that is at most n * max_step away, from either side.
pub step_towards-reaches :
    (n current wish max_step : ℕ)
    → wish < 2 ^ 64
    → wish ≤ current + n * max_step
    → current ≤ wish + n * max_step
    → step_towards n current wish max_step ≡ wish
unfolding step_towards
step_towards-reaches zero current wish max_step w h k = omega arith
step_towards-reaches (suc n) current wish max_step w h k =
    let (h', k') = clamp_step_closer n current wish max_step w h k in
    step_towards-reaches n (clamp_step current wish max_step) wish max_step w h' k'
