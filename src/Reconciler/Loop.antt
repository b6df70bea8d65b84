-- ===== src/Reconciler/Loop.antt =====
-- reconciler.go: one pass of the control loop over all services.
pub mod Growth
pub mod Reasons
pub mod Parts
pub mod Safety
use swarm_hpa.Base.{
  ℕ, Bool, true, false, not, Option, none, some, List, [], ◌∷◌, ◌++◌, Text, text_eq, Time, Duration,
  Dict, lookup, put, text_keys, or_empty, Float, ltb, length, if◌then◌else◌,
}
use swarm_hpa.Model.{ManagedService, TaskView, NodeView, LiveService, AgentReport}
use swarm_hpa.Autoscaler.{desired, clamp_step}
use swarm_hpa.Healer.{detect}
use swarm_hpa.Rebalancer.{Move, Plan, recommend}
use swarm_hpa.TaskErrors.Tracker.{Tracked}
use swarm_hpa.Reconciler.Stabilizer
use swarm_hpa.Reconciler.Stabilizer.{History}
use swarm_hpa.Reconciler.World.{
  World, Env, Effect, Action, Decision, hold, grow, shrink, services_stage, nodes_stage,
  tasks_stage, metric_stage, error, reconcile_tick, observed_services, service_decision,
  service_pending_tasks, service_cooldown, emit,
}
use swarm_hpa.Reconciler.Cooldown.{tick}
use swarm_hpa.Reconciler.Guard
use swarm_hpa.Reconciler.Guard.{Guard, cooldown_remaining}
use swarm_hpa.Reconciler.Observation.{
  count_pending, any_rebalance_opt_in, build_node_states, observe_task_errors,
}

-- The answer of MetricsProvider.Value: a value, ErrNoMetricData, or another error.
pub data Metric (F : Type 0) : Type 0 where
  value : F → Metric F
  no_metric_data : Metric F
  unreadable : Metric F

-- What the reads of one pass answer; `none` is an error.
pub record Reads (F : Type 0) : Type 0 where
  pub managed_services : Option (List (ManagedService F))
  pub nodes : Option (List NodeView)
  pub tasks : Text → Option (List TaskView)
  pub metric : ManagedService F → Metric F
  pub all_tasks : Option (List TaskView)
  pub all_services : Option (List LiveService)
  pub snapshot : List (AgentReport F)

-- The fields of Reconciler that stay as they are. `rebalancing` is `loads != nil`, `watched` is that
-- the error sink and its reader are wired, `max_step` is uint64.
pub record Config (F : Type 0) : Type 0 where
  pub guard : Guard
  pub heal_threshold : Duration
  pub window : Duration
  pub max_step : ℕ
  pub rebalancing : Bool
  pub rebalance_threshold : F
  pub watched : Bool
  pub error_window : Duration

-- What a pass changes: the guard's world, and the stabilizer's history.
pub record State (F : Type 0) : Type 0 where
  pub world : World F
  pub history : History

-- tasksByNode[t.NodeID] = append(…) for the tasks of an eligible service that have a node.
unfoldable pub add_tasks : List TaskView → Dict Text (List TaskView) → Dict Text (List TaskView)
add_tasks [] m = m
add_tasks (t ∷ ts) m =
    add_tasks ts (
      if text_eq t.node_id [] then m else put t.node_id (or_empty (lookup t.node_id m) ++ t ∷ []) m)

module _ {F : Type 0} ⦃fl : Float F⦄ (env : Env F) (cfg : Config F) where
  -- The cooldown gauges of a service.
  unfoldable pub emit_cooldowns : Text → List (Action × F) → World F → World F
  emit_cooldowns name [] w = w
  emit_cooldowns name ((action, left) ∷ rest) w =
      emit_cooldowns name rest (emit (service_cooldown name action (fl.lt fl.zero left) left) w)

  unfoldable pub decision_of : ℕ → ℕ → Decision
  decision_of current final =
      if ltb current final then grow else if ltb final current then shrink else hold

  -- The autoscaling branch at a metric value.
  unfoldable pub scale_to : ManagedService F → F → Time → State F → State F
  scale_to svc val now st =
      let (stabilized, history) =
        Stabilizer.recommend cfg.window st.history svc.ref.id svc.replicas
          (desired svc.replicas val svc.policy) now in
      let final = clamp_step svc.replicas stabilized cfg.max_step in
      let w =
        emit (service_decision svc.ref.name svc.replicas final val (decision_of svc.replicas final))
          st.world in
      record { world = (Guard.scale env cfg.guard svc final w).1; history = history }

  unfoldable pub autoscale_metric : ManagedService F → Metric F → Time → State F → State F
  autoscale_metric svc (value val) now st = scale_to svc val now st
  autoscale_metric svc no_metric_data now st = st
  autoscale_metric svc unreadable now st = record st { world = emit (error metric_stage) st.world }

  unfoldable pub autoscale_branch : Reads F → ManagedService F → Time → State F → State F
  autoscale_branch r svc now st =
      if svc.autoscale then autoscale_metric svc (r.metric svc) now st else st

  -- The healing branch; an error of Heal is only logged.
  unfoldable pub heal_branch :
      ManagedService F → List TaskView → List NodeView → Time → State F → State F
  heal_branch svc tasks nodes now st =
      if not svc.heal
      then st
      else if not (detect svc tasks nodes cfg.heal_threshold now).stuck
      then st
      else record st { world = (Guard.heal env cfg.guard svc st.world).1 }

  -- The gauges of a service whose tasks were read.
  unfoldable pub gauge_branch : ManagedService F → List TaskView → Time → State F → State F
  gauge_branch svc tasks now st =
      let w = emit (service_pending_tasks svc.ref.name (count_pending tasks)) st.world in
      record st {
        world = emit_cooldowns svc.ref.name (cooldown_remaining cfg.guard svc.ref.id now w) w;
      }

  -- One round of the loop over the services, with the tasks of that service.
  unfoldable pub visit_tasks :
      Reads F
      → List NodeView
      → Time
      → ManagedService F
      → Option (List TaskView)
      → Dict Text (List TaskView)
      → State F
      → Dict Text (List TaskView) × State F
  visit_tasks r nodes now svc none tbn st =
      (tbn, record st { world = emit (error tasks_stage) st.world })
  visit_tasks r nodes now svc (some tasks) tbn st = (
    (if svc.rebalance then add_tasks tasks tbn else tbn),
    heal_branch svc tasks nodes now (autoscale_branch r svc now (gauge_branch svc tasks now st)),
  )

  unfoldable pub visit_all :
      Reads F
      → List NodeView
      → Time
      → List (ManagedService F)
      → Dict Text (List TaskView)
      → State F
      → Dict Text (List TaskView) × State F
  visit_all r nodes now [] tbn st = (tbn, st)
  visit_all r nodes now (svc ∷ svcs) tbn st =
      let (tbn', st') = visit_tasks r nodes now svc (r.tasks svc.ref.id) tbn st in
      visit_all r nodes now svcs tbn' st'

  -- The map byID of rebalance: a later service of the same id wins.
  unfoldable pub by_id :
      List (ManagedService F) → Dict Text (ManagedService F) → Dict Text (ManagedService F)
  by_id [] m = m
  by_id (svc ∷ svcs) m = by_id svcs (put svc.ref.id svc m)

  unfoldable pub apply_moves : Dict Text (ManagedService F) → Plan F → World F → World F
  apply_moves m [] w = w
  apply_moves m (mv ∷ mvs) w = apply_moves m mvs (elim (lookup mv.service_id m) [
    | none ↦ w
    | some svc ↦ (Guard.rebalance env cfg.guard svc mv.from_node_id mv.to_node_id w).1
  ])

  -- rebalance
  unfoldable pub rebalance_pass :
      List (ManagedService F)
      → Dict Text (List TaskView)
      → List NodeView
      → List (AgentReport F)
      → World F
      → World F
  rebalance_pass services tbn nodes reports w =
      if not cfg.rebalancing
      then w
      else if not (any_rebalance_opt_in services)
      then w
      else apply_moves (by_id services [])
          (recommend (build_node_states nodes reports) services tbn cfg.rebalance_threshold) w

  -- The rest of observe, once the services and the nodes are known and the clock was read.
  unfoldable pub pass :
      Reads F
      → List (ManagedService F)
      → List NodeView
      → Time
      → Tracked
      → State F
      → Tracked × State F
  pass r services nodes now tracked st =
      let (tracked', w) =
        observe_task_errors env cfg.watched cfg.error_window r.all_tasks r.all_services tracked
          st.world in
      let (tbn, st') = visit_all r nodes now services [] (record st { world = w }) in
      (tracked', record st' { world = rebalance_pass services tbn nodes r.snapshot st'.world })

  -- The read of the nodes: an error is recorded and leaves no nodes.
  unfoldable pub read_nodes : Option (List NodeView) → World F → List NodeView × World F
  read_nodes none w = ([], emit (error nodes_stage) w)
  read_nodes (some nodes) w = (nodes, w)

  unfoldable pub observe_services :
      Reads F → Option (List (ManagedService F)) → Tracked → State F → Tracked × State F
  unfolding read_nodes
  observe_services r none tracked st =
      (tracked, record st { world = emit (error services_stage) st.world })
  observe_services r (some services) tracked st =
      let (nodes, w) = read_nodes r.nodes (emit (observed_services (length services)) st.world) in
      pass r services nodes (env.now w.reads) tracked (record st { world = tick w })

  -- observe; the deferred ReconcileTick comes last on every path.
  unfoldable pub observe : Reads F → Tracked → State F → Tracked × State F
  unfolding observe_services
  observe r tracked st =
      let (tracked', st') = observe_services r r.managed_services tracked st in
      (tracked', record st' { world = emit reconcile_tick st'.world })
