-- ===== src/Config/Labels.antt =====
-- internal/config/labels.go: the policy and the opt-ins that a service's labels spell.
pub mod Sound
pub mod OptIn
use swarm_hpa.Base.{
  ℕ, Bool, true, false, Option, none, some, [], ◌∷◌, ◌||◌, Text, text_eq, lit, Dict, lookup,
  text_keys, Float, Result, ok, err, ◌>>=◌, parse_bool, parse_uint, ltb, if◌then◌else◌,
}
use swarm_hpa.Model.{ServicePolicy}

abbrev pub label_enabled : Text
label_enabled = lit "swarm.autoscaler.enabled"

abbrev pub label_min : Text
label_min = lit "swarm.autoscaler.min"

abbrev pub label_max : Text
label_max = lit "swarm.autoscaler.max"

abbrev pub label_metric : Text
label_metric = lit "swarm.autoscaler.metric"

abbrev pub label_target : Text
label_target = lit "swarm.autoscaler.target"

abbrev pub label_source : Text
label_source = lit "swarm.autoscaler.source"

abbrev pub label_query : Text
label_query = lit "swarm.autoscaler.query"

abbrev pub label_heal : Text
label_heal = lit "swarm.autoscaler.heal"

abbrev pub label_rebalance : Text
label_rebalance = lit "swarm.autoscaler.rebalance"

-- ProviderDockerStats, ProviderPrometheus and ProviderAgents of config.go
abbrev pub provider_docker_stats : Text
provider_docker_stats = lit "dockerstats"

abbrev pub provider_prometheus : Text
provider_prometheus = lit "prometheus"

abbrev pub provider_agents : Text
provider_agents = lit "agents"

-- The errors, with the values that their texts are formatted from.
pub data LabelError : Type 0 where
  bad_value : Text → Text → LabelError
  required : Text → LabelError
  max_below_one : LabelError
  min_above_max : ℕ → ℕ → LabelError
  target_not_positive : LabelError
  unknown_source : Text → LabelError

abbrev pub Labels : Type 0
Labels = Dict Text Text

-- labels[key]: a missing key reads as the empty text.
unfoldable pub label : Labels → Text → Text
label labels key = elim (lookup key labels) [ none ↦ [] | some raw ↦ raw ]

-- An opt-in label as ParsePolicy reads it: an absent or empty one has the default.
unfoldable pub parse_opt_in : Labels → Text → Bool → Result LabelError Bool
unfolding label
parse_opt_in labels key default =
    if text_eq (label labels key) [] then ok default else elim (parse_bool (label labels key)) [
      | none ↦ err (bad_value key (label labels key))
      | some v ↦ ok v
    ]

-- parseUintLabel
unfoldable pub parse_uint_label : Labels → Text → Result LabelError ℕ
unfolding label
parse_uint_label labels key =
    if text_eq (label labels key) []
    then err (required key)
    else elim (parse_uint (label labels key)) [
      | none ↦ err (bad_value key (label labels key))
      | some v ↦ ok v
    ]

-- The results of ParsePolicy without its error.
pub record Parsed (F : Type 0) : Type 0 where
  pub policy : ServicePolicy F
  pub autoscale : Bool
  pub heal : Bool
  pub rebalance : Bool

module _ {F : Type 0} ⦃fl : Float F⦄ where
  -- parseFloatLabel
  unfoldable pub parse_float_label : Labels → Text → Result LabelError F
  unfolding label
  parse_float_label labels key =
      if text_eq (label labels key) []
      then err (required key)
      else elim (fl.parse (label labels key)) [
        | none ↦ err (bad_value key (label labels key))
        | some v ↦ ok v
      ]

  -- validatePolicy
  unfoldable pub validate_policy : ServicePolicy F → Result LabelError (Unit {0})
  validate_policy p =
      if ltb p.max 1
      then err max_below_one
      else if ltb p.max p.min
      then err (min_above_max p.min p.max)
      else if fl.le p.target fl.zero
      then err target_not_positive
      else if text_eq p.metric []
      then err (required label_metric)
      else if text_eq p.source []
          || text_eq p.source provider_docker_stats
          || text_eq p.source provider_prometheus
          || text_eq p.source provider_agents
      then ok tt
      else err (unknown_source p.source)

  -- model.ServicePolicy{}
  abbrev pub zero_policy : ServicePolicy F
  zero_policy = record {
    enabled = false;
    min = 0;
    max = 0;
    metric = [];
    target = fl.zero;
    source = [];
    query = [];
  }

  -- The policy that ParsePolicy builds once its numbers are read.
  abbrev pub policy_of : Labels → ℕ → ℕ → F → ServicePolicy F
  policy_of labels min max target = record {
    enabled = true;
    min = min;
    max = max;
    metric = label labels label_metric;
    target = target;
    source = label labels label_source;
    query = label labels label_query;
  }

  -- The part of ParsePolicy for a service that opted into autoscaling.
  unfoldable pub parse_enabled : Labels → Result LabelError (ServicePolicy F)
  parse_enabled labels = do
    min ← parse_uint_label labels label_min
    max ← parse_uint_label labels label_max
    target ← parse_float_label labels label_target
    _ ← validate_policy (policy_of labels min max target)
    ok (policy_of labels min max target)

  -- ParsePolicy
  unfoldable pub parse_policy : Labels → Result LabelError (Parsed F)
  parse_policy labels = do
    let enabled = text_eq (label labels label_enabled) (lit "true")
    heal ← parse_opt_in labels label_heal enabled
    rebalance ← parse_opt_in labels label_rebalance false
    if enabled
        then (do
          policy ← parse_enabled labels
          ok (record { policy = policy; autoscale = true; heal = heal; rebalance = rebalance }))
        else ok
            (record { policy = zero_policy; autoscale = false; heal = heal; rebalance = rebalance })
