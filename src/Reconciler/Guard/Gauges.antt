-- ===== src/Reconciler/Guard/Gauges.antt =====
-- The cooldown gauge agrees with the gate.
use swarm_hpa.Base.{
  min_duration, not, inl, inr, Bool-cases, ◌≡◌, ◌↔◌, true, false, some, arith, Text, Time, Duration,
  zero_duration, max_duration, pos, ◌≤ℤ◌, ◌<ℤ◌, ◌-ℤ◌, ltb_ℤ, leb_ℤ, sub, wrap_i64, saturate,
  -ℤ_parts, lookup, text_keys,
}
use swarm_hpa.Reconciler.World.{World, Env}
use swarm_hpa.Reconciler.Cooldown.{allowed}
use swarm_hpa.Reconciler.Guard.{left_over}

sub-range :
    (now last : Time)
    → last ≤ℤ now
    → (zero_duration ≤ℤ sub now last) × (sub now last ≤ℤ max_duration)
unfolding sub saturate
sub-range now last h = ground (arith, -ℤ_parts now last)

wrap_i64-fits : (d : Duration) → min_duration ≤ℤ d → d ≤ℤ max_duration → wrap_i64 d ≡ d
unfolding wrap_i64
wrap_i64-fits d lo hi = ground arith

-- What is left is positive exactly while less than the window has passed.
left_over-pos :
    (now last : Time) (window : Duration)
    → last ≤ℤ now
    → pos 0 <ℤ window
    → window ≤ℤ max_duration
    → ltb_ℤ zero_duration (left_over now last window) ≡ not (leb_ℤ window (sub now last))
unfolding left_over
left_over-pos now last window past p fits =
    let (lo, hi) = sub-range now last past in
    let e : wrap_i64 (window -ℤ sub now last) ≡ window -ℤ sub now last =
      wrap_i64-fits (window -ℤ sub now last) (omega (arith, -ℤ_parts window (sub now last)))
        (omega (arith, -ℤ_parts window (sub now last))) in
    ground (arith, e, -ℤ_parts window (sub now last))

-- For a service with a recorded action, a window that is an int64, and a clock that has not gone back
-- since that action: some of the window is left exactly when an action with that window is refused at
-- the same instant.
left_over-allowed :
    {F : Type 0} (env : Env F) (id : Text) (window : Duration) (w : World F) (last : Time)
    → lookup id w.last ≡ some last
    → last ≤ℤ env.now w.reads
    → window ≤ℤ max_duration
    → (ltb_ℤ zero_duration (left_over (env.now w.reads) last window) ≡ true)
      ↔ ((allowed env id window w).0 ≡ false)
unfolding left_over allowed
left_over-allowed env id window w last known past fits =
    elim (Bool-cases (leb_ℤ window zero_duration)) [
      | inl instant ↦ ground (arith, instant)
      | inr finite ↦
          let p : pos 0 <ℤ window = ground arith in
          let e : ltb_ℤ zero_duration (left_over (env.now w.reads) last window)
              ≡ not (leb_ℤ window (sub (env.now w.reads) last)) =
            left_over-pos (env.now w.reads) last window past p fits in
          rw (e) (ground (arith, finite, known))
    ]
