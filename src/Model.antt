-- ===== src/Model.antt =====
-- internal/core/model: the plain data that the components exchange.
use swarm_hpa.Base.{ℕ, Bool, ◌&&◌, List, Text, text_eq, lit, Dict, Time, ℤ}

-- service.go
pub record ServiceRef : Type 0 where
  pub id : Text
  pub name : Text

-- `min` and `max` are uint64.
pub record ServicePolicy (F : Type 0) : Type 0 where
  pub enabled : Bool
  pub min : ℕ
  pub max : ℕ
  pub metric : Text
  pub target : F
  pub source : Text
  pub query : Text

-- `replicas` is uint64.
pub record ManagedService (F : Type 0) : Type 0 where
  pub ref : ServiceRef
  pub replicas : ℕ
  pub replicated : Bool
  pub policy : ServicePolicy F
  pub constraints : List Text
  pub autoscale : Bool
  pub heal : Bool
  pub rebalance : Bool

-- node.go
abbrev pub node_availability_active : Text
node_availability_active = lit "active"

abbrev pub node_state_ready : Text
node_state_ready = lit "ready"

pub record NodeView : Type 0 where
  pub id : Text
  pub name : Text
  pub availability : Text
  pub state : Text
  pub labels : Dict Text Text

unfoldable pub is_active : NodeView → Bool
is_active n = text_eq n.availability node_availability_active && text_eq n.state node_state_ready

-- task.go
abbrev pub task_state_pending : Text
task_state_pending = lit "pending"

abbrev pub task_state_running : Text
task_state_running = lit "running"

pub record TaskView : Type 0 where
  pub id : Text
  pub service_id : Text
  pub slot : ℤ
  pub state : Text
  pub desired_state : Text
  pub node_id : Text
  pub err : Text
  pub since : Time

unfoldable pub is_pending : TaskView → Bool
is_pending t = text_eq t.state task_state_pending && text_eq t.desired_state task_state_running

-- `class` is a core/taskerrors.Class value.
pub record TaskErrorEvent : Type 0 where
  pub service_id : Text
  pub service_name : Text
  pub slot : ℤ
  pub task_id : Text
  pub class : Text
  pub since : Time
  pub err : Text

-- agent.go
pub record NodeLoad (F : Type 0) : Type 0 where
  pub cpu_percent : F
  pub mem_percent : F
  pub total_cpu : ℤ
  pub total_mem_bytes : ℤ
  pub task_count : ℤ

pub record TaskMetric (F : Type 0) : Type 0 where
  pub task_id : Text
  pub service_id : Text
  pub cpu_percent : F
  pub mem_percent : F

pub record AgentReport (F : Type 0) : Type 0 where
  pub node_id : Text
  pub node_name : Text
  pub timestamp : Time
  pub node : NodeLoad F
  pub tasks : List (TaskMetric F)

-- gitops.go and stackstatus.go, as far as drift and orphans read them; counts are uint64.
pub record StackService : Type 0 where
  pub name : Text
  pub replicas : ℕ
  pub replicated : Bool
  pub labels : Dict Text Text

pub record LiveService : Type 0 where
  pub id : Text
  pub name : Text
  pub stack_namespace : Text
  pub labels : Dict Text Text

pub record ServiceDrift : Type 0 where
  pub service : Text
  pub desired : ℕ
  pub live : ℕ
  pub drifted : Bool
