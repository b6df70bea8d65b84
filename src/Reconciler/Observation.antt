-- ===== src/Reconciler/Observation.antt =====
-- reconciler.go, the parts that only read: the counts, the joins and the task-error pass.
use swarm_hpa.Base.{
  ℕ, Bool, true, false, ◌||◌, Option, none, some, List, [], ◌∷◌, Text, text_eq, Duration, Dict,
  lookup, put, text_keys, count_if, if◌then◌else◌,
}
use swarm_hpa.Model.{
  ManagedService, TaskView, NodeView, TaskErrorEvent, LiveService, AgentReport, task_state_pending,
}
use swarm_hpa.Rebalancer.{NodeState}
use swarm_hpa.TaskErrors.Classify.{class_text, classify}
use swarm_hpa.TaskErrors.Tracker.{Tracked, Counts, max_events, record_events, window_snapshot}
use swarm_hpa.Reconciler.World.{
  World, Env, tasks_stage, services_stage, error, task_errors_window, emit,
}
use swarm_hpa.Reconciler.Cooldown.{tick}

-- The pending count of countStates; the running count is only logged.
unfoldable pub count_pending : List TaskView → ℕ
count_pending tasks = count_if (λ t. text_eq t.state task_state_pending) tasks

-- anyRebalanceOptIn
unfoldable pub any_rebalance_opt_in : {F : Type 0} → List (ManagedService F) → Bool
any_rebalance_opt_in [] = false
any_rebalance_opt_in (svc ∷ svcs) = svc.rebalance || any_rebalance_opt_in svcs

-- The loop of buildNodeStates over the reports: a later report of a node wins.
unfoldable pub loads_of : {F : Type 0} → List (AgentReport F) → Dict Text F → Dict Text F
loads_of [] m = m
loads_of (r ∷ rs) m = loads_of rs (put r.node_id r.node.cpu_percent m)

-- The loop over the nodes: a node without a report is left out.
unfoldable pub states_of : {F : Type 0} → List NodeView → Dict Text F → List (NodeState F)
states_of [] m = []
states_of (n ∷ ns) m =
    let rest = states_of ns m in
    elim (lookup n.id m) [ none ↦ rest | some l ↦ record { view = n; load = l } ∷ rest ]

-- buildNodeStates
unfoldable pub build_node_states :
    {F : Type 0} → List NodeView → List (AgentReport F) → List (NodeState F)
unfolding loads_of states_of
build_node_states nodes reports = states_of nodes (loads_of reports [])

-- The map idToName of joinTaskEvents.
unfoldable pub names_of : List LiveService → Dict Text Text → Dict Text Text
names_of [] m = m
names_of (s ∷ ss) m = names_of ss (put s.id s.name m)

-- The event of one task; a service that is not listed keeps its id as its name.
unfoldable pub event_of : Dict Text Text → TaskView → TaskErrorEvent
event_of names t = record {
  service_id = t.service_id;
  service_name = elim (lookup t.service_id names) [ none ↦ t.service_id | some n ↦ n ];
  slot = t.slot;
  task_id = t.id;
  class = class_text (classify t.err);
  since = t.since;
  err = t.err;
}

unfoldable pub events_of : Dict Text Text → List TaskView → List TaskErrorEvent
unfolding event_of
events_of names [] = []
events_of names (t ∷ ts) =
    let rest = events_of names ts in if text_eq t.err [] then rest else event_of names t ∷ rest

-- joinTaskEvents; its counts by class are only logged.
unfoldable pub join_task_events : List TaskView → List LiveService → List TaskErrorEvent
unfolding names_of events_of
join_task_events tasks services = events_of (names_of services []) tasks

-- TaskErrorsWindow for each class of one service, and for each service of a snapshot.
unfoldable pub emit_classes : {F : Type 0} → Text → Dict Text ℕ → World F → World F
emit_classes service [] w = w
emit_classes service ((class, n) ∷ m) w =
    emit_classes service m (emit (task_errors_window service class n) w)

unfoldable pub emit_counts : {F : Type 0} → Counts → World F → World F
unfolding emit_classes
emit_counts [] w = w
emit_counts ((service, classes) ∷ m) w = emit_counts m (emit_classes service classes w)

-- What observeTaskErrors does once both lists are read.
unfoldable pub track_errors :
    {F : Type 0}
    → Env F
    → Duration
    → List TaskView
    → List LiveService
    → Tracked
    → World F
    → Tracked × World F
track_errors env window tasks services tracked w =
    let recorded = record_events max_events (join_task_events tasks services) tracked in
    let (counts, left) = window_snapshot (env.now w.reads) window recorded in
    (left, emit_counts counts (tick w))

-- observeTaskErrors; `watched` is whether the sink and the reader are wired, `none` a failed read.
unfoldable pub observe_task_errors :
    {F : Type 0}
    → Env F
    → Bool
    → Duration
    → Option (List TaskView)
    → Option (List LiveService)
    → Tracked
    → World F
    → Tracked × World F
unfolding track_errors
observe_task_errors env false window tasks services tracked w = (tracked, w)
observe_task_errors env true window none services tracked w = (tracked, emit (error tasks_stage) w)
observe_task_errors env true window (some tasks) none tracked w =
    (tracked, emit (error services_stage) w)
observe_task_errors env true window (some tasks) (some services) tracked w =
    track_errors env window tasks services tracked w
