-- ===== src/Reconciler/Guard/Commands.antt =====
-- The three guarded operations as one type of commands, and runs of them. `gate` describes the
-- operations once more, as one path for all of them.
use swarm_hpa.Base.{
  ℕ, ◌≡◌, refl, inl, inr, Bool, true, false, not, ◌&&◌, Option, some, none, List, [], ◌∷◌, Text,
  lit, Duration, nat_eq, if◌then◌else◌, Bool-cases,
}
use swarm_hpa.Model.{ManagedService}
use swarm_hpa.Reconciler.World.{
  Call, World, Env, scale_call, force_update_call, swarm, Gated, scale_action, heal_action,
  rebalance_action, cooldown, dry_run, Stage, scale_stage, heal_stage, rebalance_stage, Effect,
  scale_applied, heal_applied, rebalance_applied, action_suppressed, error, emit,
}
use swarm_hpa.Reconciler.Cooldown.{allowed, record_action}
use swarm_hpa.Reconciler.Guard.{Guard, wrap, scale_window, scale, heal, rebalance}

pub data Command (F : Type 0) : Type 0 where
  do_scale : ManagedService F → ℕ → Command F
  do_heal : ManagedService F → Command F
  do_rebalance : ManagedService F → Text → Text → Command F

abbrev pub service_of : {F : Type 0} → Command F → ManagedService F
service_of (do_scale svc n) = svc
service_of (do_heal svc) = svc
service_of (do_rebalance svc from to) = svc

module _ {F : Type 0} (env : Env F) (g : Guard) where
  unfoldable pub exec : Command F → World F → Option Text × World F
  exec (do_scale svc n) w = scale env g svc n w
  exec (do_heal svc) w = heal env g svc w
  exec (do_rebalance svc from to) w = rebalance env g svc from to w

  abbrev pub step : Command F → World F → World F
  step c w = (exec c w).1

  abbrev pub run : List (Command F) → World F → World F
  run [] w = w
  run (c ∷ cs) w = run cs (step c w)

  -- The cooldown window that gates the command.
  abbrev pub window_of : Command F → Duration
  window_of (do_scale svc n) = scale_window env g svc n
  window_of (do_heal svc) = g.windows.heal
  window_of (do_rebalance svc from to) = g.windows.rebalance

-- What the operation itself checks of the service.
abbrev pub permits : {F : Type 0} → Command F → Bool
permits (do_scale svc n) = svc.replicated && not (nat_eq n svc.replicas)
permits (do_heal svc) = true
permits (do_rebalance svc from to) = svc.rebalance

-- The call that a command stands for, and whether it succeeded.
abbrev pub call_of : {F : Type 0} → Command F → Bool → Call
call_of (do_scale svc n) ok = scale_call svc.ref.id n ok
call_of (do_heal svc) ok = force_update_call svc.ref.id ok
call_of (do_rebalance svc from to) ok = force_update_call svc.ref.id ok

abbrev pub gated_of : {F : Type 0} → Command F → Gated
gated_of (do_scale svc n) = scale_action
gated_of (do_heal svc) = heal_action
gated_of (do_rebalance svc from to) = rebalance_action

abbrev pub stage_of : {F : Type 0} → Command F → Stage
stage_of (do_scale svc n) = scale_stage
stage_of (do_heal svc) = heal_stage
stage_of (do_rebalance svc from to) = rebalance_stage

abbrev pub stage_text : {F : Type 0} → Command F → Text
stage_text (do_scale svc n) = lit "scale "
stage_text (do_heal svc) = lit "heal "
stage_text (do_rebalance svc from to) = lit "rebalance "

abbrev pub applied_of : {F : Type 0} → Command F → Effect F
applied_of (do_scale svc n) = scale_applied svc.ref.name
applied_of (do_heal svc) = heal_applied svc.ref.name
applied_of (do_rebalance svc from to) = rebalance_applied svc.ref.name

module _ {F : Type 0} (env : Env F) (g : Guard) where
  abbrev pub answer_of : Command F → List (Effect F) → Option Text
  answer_of (do_scale svc n) es = env.scale_error es svc.ref.id n
  answer_of (do_heal svc) es = env.force_update_error es svc.ref.id
  answer_of (do_rebalance svc from to) es = env.force_update_error es svc.ref.id

  -- The path behind the checks of the service: cooldown, then dry-run, then Swarm.
  abbrev pub gate : Command F → World F → Option Text × World F
  gate c w =
      let (ok, w1) = allowed env (service_of c).ref.id (window_of env g c) w in
      if not ok
      then (none, emit (action_suppressed (gated_of c) cooldown) w1)
      else if g.is_dry_run
      then (
        none,
        emit (action_suppressed (gated_of c) dry_run) (record_action env (service_of c).ref.id w1),
      )
      else elim (answer_of c w1.effects) [
        | some err ↦ (
          some (wrap (stage_text c) (service_of c).ref.name err),
          emit (error (stage_of c)) (emit (swarm (call_of c false)) w1),
        )
        | none ↦ (
          none,
          emit (applied_of c)
              (record_action env (service_of c).ref.id (emit (swarm (call_of c true)) w1)),
        )
      ]

  -- Every operation is its check of the service followed by the one gate.
  pub exec-gate :
      (c : Command F) (w : World F) → exec env g c w ≡ (if permits c then gate c w else (none, w))
  unfolding exec scale heal rebalance
  exec-gate (do_scale svc n) w = elim (Bool-cases svc.replicated) [
    | inr global ↦ rw global
    | inl several ↦ elim (Bool-cases (nat_eq n svc.replicas)) [
      | inl e ↦ rw (several, e)
      | inr e ↦ rw (several, e)
    ]
  ]
  exec-gate (do_heal svc) w = refl
  exec-gate (do_rebalance svc from to) w = elim (Bool-cases svc.rebalance) [
    | inl e ↦ rw e
    | inr e ↦ rw e
  ]
