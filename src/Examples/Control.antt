-- ===== src/Examples/Control.antt =====
-- The theorems on the control loop, applied.
use swarm_hpa.Base.{
  put, sub, text_eq, ◌-ℤ◌, ℕ, ◌≤◌, ◌≡◌, refl, inl, true, some, List, [], ◌∷◌, arith, lit, pos, ◌≤ℤ◌,
  ◌+ℤ◌, +ℤ_parts, lookup, text_keys,
}
use Prim.Native.Nat.{min}
use swarm_hpa.Examples.Data.{whole, api, env, guard, fresh, config, reads, start}
use swarm_hpa.Reconciler.World.{emit, World, scale_call, force_update_call, calls}
use swarm_hpa.Reconciler.Cooldown.{record_action, allowed}
use swarm_hpa.Reconciler.Guard.{heal, scale}
use swarm_hpa.Reconciler.Guard.Commands.{Command, do_scale, do_heal, exec, step, run}
use swarm_hpa.Reconciler.Guard.Calls.{Outcome, exec-Outcome}
use swarm_hpa.Reconciler.Guard.Spacing.{IsMonotone, calls_spaced}
use swarm_hpa.Reconciler.Stabilizer
use swarm_hpa.Reconciler.Stabilizer.Damping
use swarm_hpa.Reconciler.Stabilizer.Damping.{replay, recommend-holds}
use swarm_hpa.Reconciler.Loop.{observe}
use swarm_hpa.Reconciler.Loop.Growth.{Grown}
use swarm_hpa.Reconciler.Loop.Reasons.{Reason}
use swarm_hpa.Reconciler.Loop.Safety.{observe-Reason, observe-dry_run}

observe-Reason_example :
    Grown
      (Reason config reads (api ∷ []) (env.now start.world.reads))
      fresh
      (observe env config reads [] start).1.world
observe-Reason_example =
    observe-Reason env config reads (api ∷ []) [] start refl
      ((omega arith, omega arith, omega arith), tt)

observe-dry_run_example :
    calls
      (observe env
        (record config { guard = record guard { is_dry_run = true } })
        reads
        []
        start).1.world.effects
    ≡ calls fresh.effects
observe-dry_run_example =
    observe-dry_run env (record config { guard = record guard { is_dry_run = true } }) reads []
      start refl

exec-Outcome_example : Outcome env guard (do_scale api 3) fresh
exec-Outcome_example = exec-Outcome env guard (do_scale api 3) fresh

clock_mono : IsMonotone env
clock_mono i = ground arith

scales :
    calls (step env guard (do_scale api 3) fresh).effects
    ≡ scale_call (lit "s1") 3 true ∷ calls fresh.effects
unfolding exec calls scale allowed lookup emit record_action
scales = refl

-- A refused attempt to heal, and one to scale to the same count, that stand in between.
abbrev between : List (Command ℕ)
between = do_heal api ∷ do_scale api 2 ∷ []

heals_later :
    calls
      (step env guard
        (do_heal api)
        (run env guard between (step env guard (do_scale api 3) fresh))).effects
    ≡ force_update_call (lit "s1") true
      ∷ calls (run env guard between (step env guard (do_scale api 3) fresh)).effects
unfolding exec calls heal allowed lookup scale emit record_action put text_eq sub ◌-ℤ◌
heals_later = refl

calls_spaced_example :
    pos 15 +ℤ pos 0 ≤ℤ env.now (run env guard between (step env guard (do_scale api 3) fresh)).reads
calls_spaced_example =
    calls_spaced env guard (do_scale api 3) (do_heal api) between fresh true clock_mono refl
      (omega arith) scales heals_later

abbrev acted : World ℕ
acted = record fresh { last = (lit "s1", pos 0) ∷ []; reads = 1 }

was_recorded : lookup (lit "s1") acted.last ≡ some (pos 0)
unfolding lookup text_eq
was_recorded = refl

abbrev spike : Damping.Call
spike = record { service_id = lit "s1"; current = 2; desired = 5; at = pos 0 }

recommend-holds_example :
    min 5 4
    ≤ (Stabilizer.recommend (pos 60) (replay (pos 60) [] (spike ∷ [])) (lit "s1") 4 1 (pos 30)).0
recommend-holds_example =
    recommend-holds (pos 60) [] (spike ∷ []) spike 4 1 (pos 30) (omega arith) (inl refl)
      (omega arith, tt) (ground (arith, +ℤ_parts (pos 0) (pos 60)))
