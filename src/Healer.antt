-- ===== src/Healer.antt =====
-- internal/core/healer/healer.go: is a service stuck, so that a forced update would free it?
pub mod Signature
use swarm_hpa.Base.{
  Bool, true, false, ◌&&◌, Option, none, some, List, [], ◌∷◌, Text, Time, Duration, sub, leb_ℤ,
  find_first,
}
use swarm_hpa.Model.{ManagedService, TaskView, NodeView, is_active, is_pending}
use swarm_hpa.Placement.{node_satisfies}

-- The texts that `Detect` formats for the log, with the duration that they print.
pub data Reason : Type 0 where
  no_placement_constraints : Reason
  no_task_pending_beyond : Duration → Reason
  node_active_again : Duration → Reason
  no_satisfying_node : Reason

pub record Verdict : Type 0 where
  pub stuck : Bool
  pub reason : Reason
  pub task_id : Text
  pub node_id : Text

-- A verdict that is not stuck leaves the two ids empty.
abbrev pub not_stuck : Reason → Verdict
not_stuck r = record { stuck = false; reason = r; task_id = []; node_id = [] }

unfoldable pub is_overdue : Duration → Time → TaskView → Bool
is_overdue threshold now t = is_pending t && leb_ℤ threshold (sub now t.since)

-- longestPending: the first task that is pending for long enough.
unfoldable pub longest_pending : List TaskView → Duration → Time → Option TaskView
longest_pending tasks threshold now = find_first (is_overdue threshold now) tasks

unfoldable pub is_home : List Text → NodeView → Bool
is_home cs n = is_active n && node_satisfies n cs

-- The loop over the nodes: the first that is schedulable and meets the constraints.
unfoldable pub recovered_node : List NodeView → List Text → Option NodeView
recovered_node nodes cs = find_first (is_home cs) nodes

unfoldable pub judge_nodes : Duration → TaskView → Option NodeView → Verdict
judge_nodes threshold pending none = not_stuck no_satisfying_node
judge_nodes threshold pending (some n) = record {
  stuck = true;
  reason = node_active_again threshold;
  task_id = pending.id;
  node_id = n.id;
}

unfoldable pub judge_tasks : List Text → List NodeView → Duration → Option TaskView → Verdict
unfolding judge_nodes
judge_tasks cs nodes threshold none = not_stuck (no_task_pending_beyond threshold)
judge_tasks cs nodes threshold (some pending) =
    judge_nodes threshold pending (recovered_node nodes cs)

unfoldable pub judge : List Text → List TaskView → List NodeView → Duration → Time → Verdict
unfolding judge_tasks
judge [] tasks nodes threshold now = not_stuck no_placement_constraints
judge (c ∷ cs) tasks nodes threshold now =
    judge_tasks (c ∷ cs) nodes threshold (longest_pending tasks threshold now)

-- Detect
unfoldable pub detect :
    {F : Type 0} → ManagedService F → List TaskView → List NodeView → Duration → Time → Verdict
unfolding judge
detect svc tasks nodes threshold now = judge svc.constraints tasks nodes threshold now
