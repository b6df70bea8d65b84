-- ===== src/Reconciler/Loop/Reasons.antt =====
-- Why a pass of the loop may call Swarm, and the parts of a pass, each with its reasons.
use Prim.Native.Nat.{min, max}
use swarm_hpa.Base.{
  [], leb_ℤ, sub, All-In, All, In, some, List, Text, Bool, false, true, nat_eq_iff, ℕ, ◌≤◌, ◌<◌,
  ◌^◌, ◌≡◌, ◌≢◌, refl, Bool, true, false, some, List, arith, Text, Time, text_keys, Float, In,
}
use swarm_hpa.Model.{ManagedService, TaskView, NodeView, is_active, is_pending}
use swarm_hpa.Placement.{node_satisfies}
use swarm_hpa.Autoscaler.{desired, clamp_step}
use swarm_hpa.Autoscaler.Bounds.{desired_bounds}
use swarm_hpa.Healer.{detect}
use swarm_hpa.Healer.Signature.{detect-Signature}
use swarm_hpa.Reconciler.Stabilizer
use swarm_hpa.Reconciler.Stabilizer.{History}
use swarm_hpa.Reconciler.Stabilizer.Damping.{recommend_bounds}
use swarm_hpa.Reconciler.World.{Call, scale_call, force_update_call, World, Env}
use swarm_hpa.Reconciler.Guard.Commands.{do_scale, do_heal, do_rebalance, step}
use swarm_hpa.Reconciler.Loop.{Reads, Config}
use swarm_hpa.Reconciler.Loop.Growth.{Grown, Grown-step}

-- A policy as the label parser lets it through.
abbrev pub IsSound : {F : Type 0} → ManagedService F → Type 0
IsSound svc =
    (svc.policy.min ≤ svc.policy.max) × (svc.policy.max < 2 ^ 64) × (svc.replicas < 2 ^ 64)

-- The reasons for a call in a pass over these services at this time.
pub data Reason {F : Type 0} (cfg : Config F) (r : Reads F) (services : List (ManagedService F))
    (now : Time) (call : Call) : Type 0 where
  scaled :
      (svc : ManagedService F) (n : ℕ) (ok : Bool)
      → cfg.guard.is_dry_run ≡ false
      → In svc services
      → svc.autoscale ≡ true
      → svc.replicated ≡ true
      → n ≢ svc.replicas
      → min svc.policy.min svc.replicas ≤ n
      → n ≤ max svc.policy.max svc.replicas
      → call ≡ scale_call svc.ref.id n ok
      → Reason cfg r services now call
  healed :
      (svc : ManagedService F) (ok : Bool) (tasks : List TaskView) (nodes : List NodeView)
      (task : TaskView) (node : NodeView)
      → cfg.guard.is_dry_run ≡ false
      → In svc services
      → svc.heal ≡ true
      → r.tasks svc.ref.id ≡ some tasks
      → r.nodes ≡ some nodes
      → svc.constraints ≢ []
      → In task tasks
      → is_pending task ≡ true
      → leb_ℤ cfg.heal_threshold (sub now task.since) ≡ true
      → In node nodes
      → is_active node ≡ true
      → node_satisfies node svc.constraints ≡ true
      → call ≡ force_update_call svc.ref.id ok
      → Reason cfg r services now call
  rebalanced :
      (svc : ManagedService F) (ok : Bool)
      → cfg.guard.is_dry_run ≡ false
      → cfg.rebalancing ≡ true
      → In svc services
      → svc.rebalance ≡ true
      → call ≡ force_update_call svc.ref.id ok
      → Reason cfg r services now call

clamp_step_between :
    (current wish max_step : ℕ)
    → wish < 2 ^ 64
    → (min current wish ≤ clamp_step current wish max_step)
      × (clamp_step current wish max_step ≤ max current wish)
unfolding clamp_step
clamp_step_between current wish max_step w = ground arith

module _ {F : Type 0} ⦃fl : Float F⦄ (env : Env F) (cfg : Config F) (r : Reads F)
    (services : List (ManagedService F)) (time : Time) where
  -- The count that the autoscaling branch asks for.
  abbrev pub final_of : ManagedService F → F → Time → History → ℕ
  final_of svc val now h =
      clamp_step svc.replicas
        (Stabilizer.recommend cfg.window h svc.ref.id svc.replicas
          (desired svc.replicas val svc.policy) now).0
        cfg.max_step

  final_bounds :
      (svc : ManagedService F) (val : F) (now : Time) (h : History)
      → IsSound svc
      → (min svc.policy.min svc.replicas ≤ final_of svc val now h)
        × (final_of svc val now h ≤ max svc.policy.max svc.replicas)
  final_bounds svc val now h s =
      let d = desired svc.replicas val svc.policy in
      let wish = (Stabilizer.recommend cfg.window h svc.ref.id svc.replicas d now).0 in
      let within = desired_bounds svc.replicas val svc.policy s.0 in
      let damped = recommend_bounds cfg.window h svc.ref.id svc.replicas d now in
      let fits : wish < 2 ^ 64 = omega (arith, within, damped, s) in
      omega (arith, within, damped, clamp_step_between svc.replicas wish cfg.max_step fits)

  -- What a pass needs to know of its three guarded operations to have all its calls justified by R.
  pub record Rules (R : Call → Type 0) : Type 0 where
    pub on_scale :
        (svc : ManagedService F) (val : F) (now : Time) (h : History) (w : World F)
        → In svc services
        → svc.autoscale ≡ true
        → Grown R w (step env cfg.guard (do_scale svc (final_of svc val now h)) w)
    pub on_heal :
        (svc : ManagedService F) (tasks : List TaskView) (nodes : List NodeView) (w : World F)
        → In svc services
        → svc.heal ≡ true
        → r.tasks svc.ref.id ≡ some tasks
        → r.nodes ≡ some nodes
        → (detect svc tasks nodes cfg.heal_threshold time).stuck ≡ true
        → Grown R w (step env cfg.guard (do_heal svc) w)
    pub on_rebalance :
        (svc : ManagedService F) (from to : Text) (w : World F)
        → In svc services
        → cfg.rebalancing ≡ true
        → Grown R w (step env cfg.guard (do_rebalance svc from to) w)

  -- Over services with sound policies every call has a reason.
  pub reasoned : All IsSound services → Rules (Reason cfg r services time)
  reasoned sound = record {
    on_scale = λ svc val now h w i a.
        let s = All-In IsSound services svc sound i in
        Grown-step (Reason cfg r services time) env cfg.guard
          (do_scale svc (final_of svc val now h)) w
          (λ ok p d.
            scaled svc (final_of svc val now h) ok d i a (ground arith)
              (λ e. ground (arith, nat_eq_iff (final_of svc val now h) svc.replicas))
              (final_bounds svc val now h s).0 (final_bounds svc val now h s).1 refl);
    on_heal = λ svc tasks nodes w i h t n s.
        Grown-step (Reason cfg r services time) env cfg.guard (do_heal svc) w (λ ok p d.
          let g = detect-Signature svc tasks nodes cfg.heal_threshold time s in
          healed svc ok tasks nodes g.task g.node d i h t n g.constrained g.task_listed
            g.task_pending g.task_overdue g.node_listed g.node_active g.node_fits refl);
    on_rebalance = λ svc from to w i b.
        Grown-step (Reason cfg r services time) env cfg.guard (do_rebalance svc from to) w
          (λ ok p d. rebalanced svc ok d b i p refl);
  }

  -- In dry-run mode there is no call at all.
  pub silenced : cfg.guard.is_dry_run ≡ true → Rules (λ call. ⊥)
  silenced dry = record {
    on_scale = λ svc val now h w i a.
        Grown-step (λ call. ⊥) env cfg.guard (do_scale svc (final_of svc val now h)) w
          (λ ok p d. cc (dry, d));
    on_heal = λ svc tasks nodes w i h t n s.
        Grown-step (λ call. ⊥) env cfg.guard (do_heal svc) w (λ ok p d. cc (dry, d));
    on_rebalance = λ svc from to w i b.
        Grown-step (λ call. ⊥) env cfg.guard (do_rebalance svc from to) w (λ ok p d. cc (dry, d));
  }
