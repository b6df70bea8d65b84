-- ===== src/Examples/Data.antt =====
-- The inputs of the examples: whole numbers in place of floats, two nodes, a service and its tasks.
use swarm_hpa.Base.{
  ℕ, ◌+◌, ◌-◌, ◌*◌, ◌/◌, Bool, true, false, none, some, List, [], ◌∷◌, Text, lit, Time, pos, Dict,
  ltb, leb, Float, parse_uint,
}
use swarm_hpa.Model.{ServicePolicy, ManagedService, NodeView, TaskView, TaskErrorEvent, AgentReport}
use swarm_hpa.Rebalancer.{NodeState}
use swarm_hpa.Reconciler.World.{World, Env}
use swarm_hpa.Reconciler.Guard.{Guard}
use swarm_hpa.Reconciler.Loop.{Reads, Config, State, value}

instance abbrev pub whole : Float ℕ
whole = record {
  zero = 0;
  one = 1;
  tenth = 0;
  hundred = 100;
  add = λ a b. a + b;
  sub = λ a b. a - b;
  mul = λ a b. a * b;
  div = λ a b. a / b;
  lt = ltb;
  le = leb;
  abs = λ a. a;
  ceil = λ a. a;
  of_uint64 = λ n. n;
  to_uint64 = λ n. n;
  parse = parse_uint;
}

abbrev pub any : ℕ → Bool
any n = true

abbrev pub api_policy : ServicePolicy ℕ
api_policy = record {
  enabled = true;
  min = 1;
  max = 5;
  metric = lit "cpu";
  target = 50;
  source = [];
  query = [];
}

abbrev pub home : Text
home = lit "node.hostname==n1"

abbrev pub api : ManagedService ℕ
api = record {
  ref = record { id = lit "s1"; name = lit "api" };
  replicas = 2;
  replicated = true;
  policy = api_policy;
  constraints = home ∷ [];
  autoscale = true;
  heal = true;
  rebalance = true;
}

abbrev pub node_one : NodeView
node_one = record {
  id = lit "n1";
  name = lit "n1";
  availability = lit "active";
  state = lit "ready";
  labels = [];
}

abbrev pub node_two : NodeView
node_two = record node_one { id = lit "n2"; name = lit "n2" }

abbrev pub stuck_task : TaskView
stuck_task = record {
  id = lit "t1";
  service_id = lit "s1";
  slot = pos 1;
  state = lit "pending";
  desired_state = lit "running";
  node_id = [];
  err = [];
  since = pos 0;
}

abbrev pub busy_task : TaskView
busy_task = record stuck_task { id = lit "t2"; state = lit "running"; node_id = lit "n2" }

abbrev pub idle : NodeState ℕ
idle = record { view = node_one; load = 10 }

abbrev pub busy : NodeState ℕ
busy = record { view = node_two; load = 90 }

abbrev pub by_node : Dict Text (List TaskView)
by_node = (lit "n2", busy_task ∷ []) ∷ []

abbrev pub an_error : TaskErrorEvent
an_error = record {
  service_id = lit "s1";
  service_name = lit "api";
  slot = pos 1;
  task_id = lit "t1";
  class = lit "other";
  since = pos 5;
  err = lit "no such image";
}

abbrev pub a_report : AgentReport ℕ
a_report = record {
  node_id = lit "n1";
  node_name = lit "n1";
  timestamp = pos 0;
  node = record {
    cpu_percent = 10;
    mem_percent = 20;
    total_cpu = pos 4;
    total_mem_bytes = pos 8;
    task_count = pos 1;
  };
  tasks = [];
}

-- A clock that advances by ten at every reading.
abbrev pub clock : ℕ → Time
clock i = pos (i * 10)

abbrev pub env : Env ℕ
env = record { now = clock; scale_error = λ es id n. none; force_update_error = λ es id. none }

abbrev pub guard : Guard
guard = record {
  windows = record { scale_up = pos 15; scale_down = pos 15; heal = pos 15; rebalance = pos 15 };
  is_dry_run = false;
}

abbrev pub fresh : World ℕ
fresh = record { last = []; reads = 0; effects = [] }

abbrev pub config : Config ℕ
config = record {
  guard = guard;
  heal_threshold = pos 5;
  window = pos 0;
  max_step = 1;
  rebalancing = true;
  rebalance_threshold = 0;
  watched = false;
  error_window = pos 100;
}

abbrev pub reads : Reads ℕ
reads = record {
  managed_services = some (api ∷ []);
  nodes = some (node_one ∷ node_two ∷ []);
  tasks = λ id. some (stuck_task ∷ []);
  metric = λ svc. value 200;
  all_tasks = none;
  all_services = none;
  snapshot = [];
}

abbrev pub start : State ℕ
start = record { world = fresh; history = [] }
