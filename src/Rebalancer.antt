-- ===== src/Rebalancer.antt =====
-- internal/core/rebalancer/rebalancer.go: is load skewed enough over the nodes to move a task?
pub mod Extremes
pub mod Movable
pub mod Moves
pub mod OneMove
use swarm_hpa.Base.{
  Bool, true, false, not, ◌&&◌, ◌||◌, Option, none, some, List, [], ◌∷◌, Text, text_eq, Dict,
  lookup, text_keys, Float, find_first, keep_if, if◌then◌else◌, or_empty,
}
use swarm_hpa.Model.{ManagedService, TaskView, NodeView, is_active}
use swarm_hpa.Placement.{node_satisfies}

pub record NodeState (F : Type 0) : Type 0 where
  pub view : NodeView
  pub load : F

-- `reason` holds what the text of the move's reason is formatted from: the spread, the threshold in
-- points, and the names of the nodes.
pub record Move (F : Type 0) : Type 0 where
  pub service_id : Text
  pub service_name : Text
  pub task_id : Text
  pub from_node_id : Text
  pub to_node_id : Text
  pub from_load : F
  pub to_load : F
  pub reason : F × F × Text × Text

-- The moves of a recommendation.
abbrev pub Plan : Type 0 → Type 0
Plan F = List (Move F)

-- activeNodes
unfoldable pub active_nodes : {F : Type 0} → List (NodeState F) → List (NodeState F)
active_nodes nodes = keep_if (λ n. is_active n.view) nodes

module _ {F : Type 0} ⦃fl : Float F⦄ where
  -- The loop of extremes over the nodes behind the first.
  unfoldable pub extremes_from :
      NodeState F → NodeState F → List (NodeState F) → NodeState F × NodeState F
  extremes_from hot cold [] = (hot, cold)
  extremes_from hot cold (n ∷ ns) =
      extremes_from (if fl.lt hot.load n.load then n else hot)
        (if fl.lt n.load cold.load then n else cold) ns

-- firstTaskOf
unfoldable pub first_task_of : List TaskView → Text → Option TaskView
first_task_of tasks service_id = find_first (λ t. text_eq t.service_id service_id) tasks

-- The conditions of the loop over the services, up to the task that it looks for.
unfoldable pub is_movable :
    {F : Type 0}
    → NodeView
    → NodeView
    → Dict Text (List TaskView)
    → ManagedService F
    → Option TaskView
unfolding first_task_of
is_movable hot cold tasks_by_node svc =
    if not svc.rebalance || not svc.replicated
    then none
    else elim (first_task_of (or_empty (lookup hot.id tasks_by_node)) svc.ref.id) [
      | none ↦ none
      | some t ↦ if node_satisfies cold svc.constraints then some t else none
    ]

-- The loop over the services: the first that can be moved, with its task.
unfoldable pub first_movable :
    {F : Type 0}
    → NodeView
    → NodeView
    → Dict Text (List TaskView)
    → List (ManagedService F)
    → Option (ManagedService F × TaskView)
first_movable hot cold tbn [] = none
first_movable hot cold tbn (svc ∷ svcs) =
    let rest = first_movable hot cold tbn svcs in
    elim (is_movable hot cold tbn svc) [ none ↦ rest | some t ↦ some (svc, t) ]

module _ {F : Type 0} ⦃fl : Float F⦄ where
  unfoldable pub move_of : NodeState F → NodeState F → F → ManagedService F → TaskView → Move F
  move_of hot cold threshold svc task = record {
    service_id = svc.ref.id;
    service_name = svc.ref.name;
    task_id = task.id;
    from_node_id = hot.view.id;
    to_node_id = cold.view.id;
    from_load = hot.load;
    to_load = cold.load;
    reason =
        (fl.sub hot.load cold.load, fl.mul threshold fl.hundred, hot.view.name, cold.view.name);
  }

  -- What follows once the extremes are known.
  unfoldable pub plan_between :
      F → List (ManagedService F) → Dict Text (List TaskView) → NodeState F × NodeState F → Plan F
  unfolding move_of
  plan_between threshold services tbn (hot, cold) =
      if fl.lt (fl.sub hot.load cold.load) (fl.mul threshold fl.hundred)
      then []
      else elim (first_movable hot.view cold.view tbn services) [
        | none ↦ []
        | some (svc, task) ↦ move_of hot cold threshold svc task ∷ []
      ]

  -- Recommend: the cases are `len(active) < 2` and at least two nodes.
  unfoldable pub recommend_active :
      List (NodeState F) → List (ManagedService F) → Dict Text (List TaskView) → F → Plan F
  unfolding plan_between
  recommend_active (a ∷ b ∷ rest) services tbn threshold =
      plan_between threshold services tbn (extremes_from a a (b ∷ rest))
  recommend_active _ services tbn threshold = []

  unfoldable pub recommend :
      List (NodeState F) → List (ManagedService F) → Dict Text (List TaskView) → F → Plan F
  unfolding recommend_active
  recommend nodes services tbn threshold =
      recommend_active (active_nodes nodes) services tbn threshold
