-- ===== src/Swarm/Read.antt =====
-- internal/adapter/swarm/swarm.go: what the reads make of Swarm's objects.
pub mod Managed
use swarm_hpa.Base.{
  ℕ, Bool, true, false, not, ◌||◌, ◌&&◌, Option, none, some, List, [], ◌∷◌, ◌++◌, Text, text_eq,
  lit, Time, ℤ, Dict, has_prefix, drop, length, Float, Result, ok, err, ◌>>=◌, if◌then◌else◌,
}
use swarm_hpa.Model.{ManagedService, ServiceRef, StackService, LiveService, TaskView, NodeView}
use swarm_hpa.Config.Labels.{
  Labels, LabelError, Parsed, label, parse_policy, label_enabled, label_heal, label_rebalance,
}
use swarm_hpa.Swarm.{Sdk}

-- The errors of toManagedService.
pub data MappingError : Type 0 where
  misconfigured : LabelError → MappingError
  not_opted_in : MappingError

-- stackNamespaceLabel
abbrev pub stack_namespace_label : Text
stack_namespace_label = lit "com.docker.stack.namespace"

-- strings.TrimPrefix(s, prefix)
unfoldable pub trim_prefix : Text → Text → Text
trim_prefix prefix s = if has_prefix prefix s then drop (length prefix) s else s

unfoldable pub is_among : Text → List Text → Bool
is_among id [] = false
is_among id (j ∷ js) = text_eq j id || is_among id js

unfoldable pub or_none : Option (List Text) → List Text
or_none none = []
or_none (some cs) = cs

-- Whether the mode is replicated, and the count, 0 where it is nil.
unfoldable pub count_of_mode : Option (Option ℕ) → ℕ × Bool
count_of_mode none = (0, false)
count_of_mode (some none) = (0, true)
count_of_mode (some (some n)) = (n, true)

module _ {Service Spec : Type 0} (sdk : Sdk Service Spec) where
  -- toLiveService
  unfoldable pub to_live_service : Service → LiveService
  to_live_service svc = record {
    id = sdk.id svc;
    name = sdk.name (sdk.spec svc);
    stack_namespace = label (sdk.labels (sdk.spec svc)) stack_namespace_label;
    labels = sdk.labels (sdk.spec svc);
  }

  -- The loop of AllServices.
  unfoldable pub to_live_services : List Service → List LiveService
  to_live_services [] = []
  to_live_services (svc ∷ svcs) = to_live_service svc ∷ to_live_services svcs

  -- A round of the loop of StackServices.
  unfoldable pub to_stack_service : Text → Service → StackService
  unfolding trim_prefix count_of_mode
  to_stack_service stack svc =
      let spec = sdk.spec svc in
      let (replicas, replicated) = count_of_mode (sdk.replicated spec) in
      record {
        name = trim_prefix (stack ++ lit "_") (sdk.name spec);
        replicas = replicas;
        replicated = replicated;
        labels = sdk.labels spec;
      }

  unfoldable pub to_stack_services : Text → List Service → List StackService
  to_stack_services stack [] = []
  to_stack_services stack (svc ∷ svcs) = to_stack_service stack svc ∷ to_stack_services stack svcs

  module _ {F : Type 0} ⦃fl : Float F⦄ where
    -- The managed service, once the labels are parsed.
    unfoldable pub managed_of : Service → Parsed F → ManagedService F
    managed_of svc p =
        let spec = sdk.spec svc in
        let (replicas, replicated) = count_of_mode (sdk.replicated spec) in
        record {
          ref = record { id = sdk.id svc; name = sdk.name spec };
          replicas = replicas;
          replicated = replicated;
          policy = p.policy;
          constraints = or_none (sdk.placement spec);
          autoscale = p.autoscale;
          heal = p.heal;
          rebalance = p.rebalance;
        }

    unfoldable pub checked :
        Service → Result LabelError (Parsed F) → Result MappingError (ManagedService F)
    checked svc (err e) = err (misconfigured e)
    checked svc (ok p) =
        if not p.autoscale && not p.heal && not p.rebalance
        then err not_opted_in
        else ok (managed_of svc p)

    -- toManagedService
    unfoldable pub to_managed_service : Service → Result MappingError (ManagedService F)
    unfolding checked managed_of
    to_managed_service svc = checked svc (parse_policy (sdk.labels (sdk.spec svc)))

    unfoldable pub keep_ok :
        Result MappingError (ManagedService F) → List (ManagedService F) → List (ManagedService F)
    keep_ok (err e) rest = rest
    keep_ok (ok ms) rest = ms ∷ rest

    -- The loop of ManagedServices, over the three groups in a row; `seen` are the ids so far.
    unfoldable pub managed_from : List Text → List Service → List (ManagedService F)
    managed_from seen [] = []
    managed_from seen (svc ∷ svcs) =
        let again = managed_from seen svcs in
        let rest = managed_from (sdk.id svc ∷ seen) svcs in
        if is_among (sdk.id svc) seen then again else keep_ok (to_managed_service svc) rest

    -- ManagedServices; `list` is ServiceList with a label filter of the form key=value.
    unfoldable pub managed_services :
        {E : Type 0} → (Text → Result E (List Service)) → Result E (List (ManagedService F))
    managed_services list = do
      enabled ← list (label_enabled ++ lit "=true")
      heal ← list (label_heal ++ lit "=true")
      rebalance ← list (label_rebalance ++ lit "=true")
      ok (managed_from [] (enabled ++ heal ++ rebalance))

-- `Task` and `Node` stand for Docker's types, with the fields that are read.
pub record TaskSdk (Task : Type 0) : Type 0 where
  pub task_id : Task → Text
  pub service_id : Task → Text
  pub slot : Task → ℤ
  pub state : Task → Text
  pub desired_state : Task → Text
  pub node_id : Task → Text
  pub status_err : Task → Text
  pub status_timestamp : Task → Time

pub record NodeSdk (Node : Type 0) : Type 0 where
  pub node_id : Node → Text
  pub hostname : Node → Text
  pub availability : Node → Text
  pub state : Node → Text
  pub labels : Node → Dict Text Text

-- toTaskView
unfoldable pub to_task_view : {Task : Type 0} → TaskSdk Task → Task → TaskView
to_task_view sdk t = record {
  id = sdk.task_id t;
  service_id = sdk.service_id t;
  slot = sdk.slot t;
  state = sdk.state t;
  desired_state = sdk.desired_state t;
  node_id = sdk.node_id t;
  err = sdk.status_err t;
  since = sdk.status_timestamp t;
}

-- toNodeView
unfoldable pub to_node_view : {Node : Type 0} → NodeSdk Node → Node → NodeView
to_node_view sdk n = record {
  id = sdk.node_id n;
  name = sdk.hostname n;
  availability = sdk.availability n;
  state = sdk.state n;
  labels = sdk.labels n;
}
