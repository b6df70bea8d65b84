-- ===== src/Reconciler/Loop/Parts.antt =====
-- Each part of a pass of the loop calls Swarm only with a reason.
use mathlib.Core.Path.{subst}
use swarm_hpa.Base.{
  ℕ, ◌≡◌, ◌⊎◌, inl, inr, refl, ◌∙◌, Bool, true, false, not, Option, none, some, List, [], ◌∷◌,
  arith, Text, text_eq, Time, Duration, Dict, lookup, put, lookup-put, text_keys, Float, In,
  Bool-cases, if◌then◌else◌,
}
use swarm_hpa.Model.{ManagedService, TaskView, NodeView, LiveService}
use swarm_hpa.Healer.{detect}
use swarm_hpa.Healer.Signature.{detect-Signature}
use swarm_hpa.TaskErrors.Tracker.{Tracked, Counts}
use swarm_hpa.Reconciler.World.{
  Call, World, Env, Action, emit, calls, task_errors_window, service_cooldown, service_decision,
}
use swarm_hpa.Reconciler.Observation.{observe_task_errors, emit_classes, emit_counts}
use swarm_hpa.Reconciler.Cooldown.{tick}
use swarm_hpa.Reconciler.Guard
use swarm_hpa.Reconciler.Guard.Commands.{exec}
use swarm_hpa.Reconciler.Loop.{
  Reads, Config, State, Metric, value, no_metric_data, unreadable, scale_to, autoscale_metric,
  autoscale_branch, heal_branch, by_id, decision_of, emit_cooldowns, gauge_branch, visit_tasks,
  visit_all,
}
use swarm_hpa.Reconciler.Loop.Growth.{Grown, Grown-silent, Grown-trans}
use swarm_hpa.Reconciler.Loop.Reasons.{Rules, final_of}

calls-emit_classes :
    {F : Type 0} (service : Text) (m : Dict Text ℕ) (w : World F)
    → calls (emit_classes service m w).effects ≡ calls w.effects
unfolding emit_classes emit calls
calls-emit_classes service [] w = refl
calls-emit_classes service ((class, n) ∷ m) w =
    calls-emit_classes service m (emit (task_errors_window service class n) w)

calls-emit_counts :
    {F : Type 0} (m : Counts) (w : World F) → calls (emit_counts m w).effects ≡ calls w.effects
unfolding emit_counts
calls-emit_counts [] w = refl
calls-emit_counts ((service, classes) ∷ m) w =
    calls-emit_counts m (emit_classes service classes w) ∙ calls-emit_classes service classes w

-- The task-error pass makes no call.
pub calls-observe_task_errors :
    {F : Type 0} (env : Env F) (watched : Bool) (window : Duration) (ts : Option (List TaskView))
    (ss : Option (List LiveService)) (m : Tracked) (w : World F)
    → calls (observe_task_errors env watched window ts ss m w).1.effects ≡ calls w.effects
unfolding observe_task_errors emit calls tick
calls-observe_task_errors env false window ts ss m w = refl
calls-observe_task_errors env true window none ss m w = refl
calls-observe_task_errors env true window (some ts) none m w = refl
calls-observe_task_errors env true window (some ts) (some ss) m w = calls-emit_counts _ (tick w)

module _ {F : Type 0} ⦃fl : Float F⦄ (env : Env F) (cfg : Config F) (r : Reads F)
    (services : List (ManagedService F)) (now : Time) (R : Call → Type 0)
    (rules : Rules env cfg r services now R) where
  -- Both worlds of a state change.
  abbrev pub Adds : State F → State F → Type 0
  Adds s t = Grown R s.world t.world

  calls-emit_cooldowns :
      (name : Text) (l : List (Action × F)) (w : World F)
      → calls (emit_cooldowns env cfg name l w).effects ≡ calls w.effects
  unfolding emit_cooldowns emit calls
  calls-emit_cooldowns name [] w = refl
  calls-emit_cooldowns name ((a, left) ∷ l) w =
      calls-emit_cooldowns name l (emit (service_cooldown name a (fl.lt fl.zero left) left) w)

  Adds-gauges :
      (svc : ManagedService F) (tasks : List TaskView) (t : Time) (st : State F)
      → Adds st (gauge_branch env cfg svc tasks t st)
  unfolding gauge_branch emit calls
  Adds-gauges svc tasks t st =
      Grown-silent R st.world (gauge_branch env cfg svc tasks t st).world
        (calls-emit_cooldowns svc.ref.name _ _)

  Adds-metric :
      (svc : ManagedService F) (m : Metric F) (t : Time) (st : State F)
      → In svc services
      → svc.autoscale ≡ true
      → Adds st (autoscale_metric env cfg svc m t st)
  unfolding autoscale_metric scale_to emit calls exec
  Adds-metric svc (value val) t st i a =
      let final = final_of env cfg r services now svc val t st.history in
      let w =
        emit
          (service_decision svc.ref.name svc.replicas final val
            (decision_of env cfg svc.replicas final))
          st.world in
      Grown-trans R st.world w (autoscale_metric env cfg svc (value val) t st).world
        (Grown-silent R st.world w refl) (rules.on_scale svc val t st.history w i a)
  Adds-metric svc no_metric_data t st i a = Grown-silent R st.world st.world refl
  Adds-metric svc unreadable t st i a =
      Grown-silent R st.world (autoscale_metric env cfg svc unreadable t st).world refl

  Adds-if :
      (b : Bool) (s t u : State F)
      → (b ≡ true → Adds s t)
      → (b ≡ false → Adds s u)
      → Adds s (if b then t else u)
  Adds-if true s t u yes' no' = yes' refl
  Adds-if false s t u yes' no' = no' refl

  pub Adds-none : (s : State F) → Adds s s
  Adds-none s = Grown-silent R s.world s.world refl

  Adds-autoscale :
      (svc : ManagedService F) (t : Time) (st : State F)
      → In svc services
      → Adds st (autoscale_branch env cfg r svc t st)
  unfolding autoscale_branch
  Adds-autoscale svc t st i =
      Adds-if svc.autoscale st (autoscale_metric env cfg svc (r.metric svc) t st) st
        (λ a. Adds-metric svc (r.metric svc) t st i a) (λ _. Adds-none st)

  -- A stuck verdict needs a node.
  stuck_nodes :
      (svc : ManagedService F) (tasks : List TaskView) (nodes : List NodeView)
      → (nodes ≡ []) ⊎ (r.nodes ≡ some nodes)
      → (detect svc tasks nodes cfg.heal_threshold now).stuck ≡ true
      → r.nodes ≡ some nodes
  stuck_nodes svc tasks nodes (inr n) s = n
  stuck_nodes svc tasks nodes (inl e) s =
      let g = detect-Signature svc tasks nodes cfg.heal_threshold now s in
      absurd (subst (In g.node) e g.node_listed)

  Adds-heal :
      (svc : ManagedService F) (tasks : List TaskView) (nodes : List NodeView) (st : State F)
      → In svc services
      → r.tasks svc.ref.id ≡ some tasks
      → (nodes ≡ []) ⊎ (r.nodes ≡ some nodes)
      → Adds st (heal_branch env cfg svc tasks nodes now st)
  unfolding heal_branch exec
  Adds-heal svc tasks nodes st i t n =
      let stuck = (detect svc tasks nodes cfg.heal_threshold now).stuck in
      let healed = record st { world = (Guard.heal env cfg.guard svc st.world).1 } in
      Adds-if (not svc.heal) st st (if not stuck then st else healed) (λ _. Adds-none st)
        (λ h.
          Adds-if (not stuck) st st healed (λ _. Adds-none st)
            (λ s.
              rules.on_heal svc tasks nodes st.world i (ground arith) t
                (stuck_nodes svc tasks nodes n (ground arith)) (ground arith)))

  Adds-visit :
      (nodes : List NodeView) (svc : ManagedService F) (tasks : Option (List TaskView))
      (tbn : Dict Text (List TaskView)) (st : State F)
      → In svc services
      → r.tasks svc.ref.id ≡ tasks
      → (nodes ≡ []) ⊎ (r.nodes ≡ some nodes)
      → Adds st (visit_tasks env cfg r nodes now svc tasks tbn st).1
  unfolding visit_tasks emit calls
  Adds-visit nodes svc none tbn st i t n =
      Grown-silent R st.world (visit_tasks env cfg r nodes now svc none tbn st).1.world refl
  Adds-visit nodes svc (some tasks) tbn st i t n =
      let s1 = gauge_branch env cfg svc tasks now st in
      let s2 = autoscale_branch env cfg r svc now s1 in
      let s3 = heal_branch env cfg svc tasks nodes now s2 in
      Grown-trans R st.world s1.world s3.world (Adds-gauges svc tasks now st) (
        Grown-trans R s1.world s2.world s3.world (Adds-autoscale svc now s1 i)
          (Adds-heal svc tasks nodes s2 i t n))

  pub Adds-visits :
      (nodes : List NodeView) (svcs : List (ManagedService F)) (tbn : Dict Text (List TaskView))
      (st : State F)
      → ((s : ManagedService F) → In s svcs → In s services)
      → (nodes ≡ []) ⊎ (r.nodes ≡ some nodes)
      → Adds st (visit_all env cfg r nodes now svcs tbn st).1
  unfolding visit_all
  Adds-visits nodes [] tbn st sub n = Adds-none st
  Adds-visits nodes (svc ∷ svcs) tbn st sub n =
      let v = visit_tasks env cfg r nodes now svc (r.tasks svc.ref.id) tbn st in
      Grown-trans R st.world v.1.world (visit_all env cfg r nodes now svcs v.0 v.1).1.world
        (Adds-visit nodes svc (r.tasks svc.ref.id) tbn st (sub svc (inl refl)) refl n)
        (Adds-visits nodes svcs v.0 v.1 (λ s i. sub s (inr i)) n)

  -- Every service of the map byID is one of the services.
  abbrev pub AllListed : Dict Text (ManagedService F) → Type 0
  AllListed m = (id : Text) (s : ManagedService F) → lookup id m ≡ some s → In s services

  pub by_id-AllListed :
      (svcs : List (ManagedService F)) (m : Dict Text (ManagedService F))
      → ((s : ManagedService F) → In s svcs → In s services)
      → AllListed m
      → AllListed (by_id env cfg svcs m)
  unfolding by_id
  by_id-AllListed [] m sub a = a
  by_id-AllListed (svc ∷ svcs) m sub a =
      by_id-AllListed svcs (put svc.ref.id svc m) (λ s i. sub s (inr i))
        (λ id s h. elim (Bool-cases (text_eq svc.ref.id id)) [
          | inl same ↦
              let e : svc ≡ s = ground (arith, lookup-put svc.ref.id id svc m, same) in
              sub s (inl e)
          | inr other ↦ a id s (ground (arith, lookup-put svc.ref.id id svc m, other))
        ])
