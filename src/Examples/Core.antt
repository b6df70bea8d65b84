-- ===== src/Examples/Core.antt =====
-- The theorems on the pure decisions, applied.
use swarm_hpa.Model.{ManagedService, TaskView, is_active, is_pending}
use native.Mathlib.Nat.{mul-le-mul_left}
use swarm_hpa.Base.{
  All, ℕ, trim_left, is_space, drop, find_first, index, keep_if, lookup, or_empty, take, text_eq,
  trim_space, ◌-ℤ◌, ◌≤◌, ◌≡◌, ◌≢◌, ◌↔◌, ◌⊎◌, ◌++◌, ◌+◌, refl, inl, true, false, some, [], ◌∷◌,
  arith, Text, lit, pos, In, sub,
}
use swarm_hpa.Examples.Data.{
  whole, any, api_policy, api, home, node_one, node_two, stuck_task, idle, busy, by_node,
}
use swarm_hpa.Healer.{is_home, is_overdue, longest_pending, recovered_node, detect}
use swarm_hpa.Healer.Signature.{Signature, detect-Signature, detect_complete}
use swarm_hpa.Placement.{
  split_at, node_satisfies, parse_constraint, op_neq, Constraint, label_key_prefix,
}
use swarm_hpa.Placement.Meaning.{Violates, node_satisfies-Violates}
use swarm_hpa.Placement.Parsing.{Written, spell, IsPlain, parse_constraint-spell}
use swarm_hpa.Rebalancer.{
  NodeState, first_movable, recommend, extremes_from, move_of, active_nodes, is_movable,
}
use swarm_hpa.Rebalancer.Extremes.{FloatOrder}
use swarm_hpa.Rebalancer.Movable.{IsMovable}
use swarm_hpa.Rebalancer.Moves.{Extremes, IsJustified, recommend-IsJustified, recommend_complete}
use swarm_hpa.Autoscaler.{desired, clamp_step}
use swarm_hpa.Autoscaler.Bounds.{desired_bounds, clamp_step_lem}
use swarm_hpa.Autoscaler.Steps.{step_towards, step_towards-reaches}
use swarm_hpa.Autoscaler.Direction.{FloatScale, desired-up}

is_stuck : (detect api (stuck_task ∷ []) (node_one ∷ []) (pos 5) (pos 10)).stuck ≡ true
unfolding detect longest_pending find_first is_overdue is_pending text_eq sub ◌-ℤ◌ recovered_node
    is_home is_active node_satisfies split_at index trim_space take drop
is_stuck = refl

detect-Signature_example :
    Signature api
      (stuck_task ∷ [])
      (node_one ∷ [])
      (pos 5)
      (pos 10)
      (detect api (stuck_task ∷ []) (node_one ∷ []) (pos 5) (pos 10))
detect-Signature_example =
    detect-Signature api (stuck_task ∷ []) (node_one ∷ []) (pos 5) (pos 10) is_stuck

is_home_there : node_satisfies node_one api.constraints ≡ true
unfolding node_satisfies split_at index text_eq trim_space take drop
is_home_there = refl

constrained : api.constraints ≢ []
constrained = λ e. cc

detect_complete_example :
    (detect api (stuck_task ∷ []) (node_one ∷ []) (pos 5) (pos 10)).stuck ≡ true
unfolding is_pending text_eq sub ◌-ℤ◌ is_active
detect_complete_example =
    detect_complete api (stuck_task ∷ []) (node_one ∷ []) (pos 5) (pos 10) stuck_task node_one
      constrained (inl refl) refl refl (inl refl) refl is_home_there

node_satisfies-Violates_example :
    (node_satisfies node_two (home ∷ []) ≡ false)
    ↔ ((c : Text) × In c (home ∷ []) × Violates node_two c)
node_satisfies-Violates_example = node_satisfies-Violates node_two (home ∷ [])

abbrev zoned : Constraint
zoned = record { key = label_key_prefix ++ lit "zone"; op = op_neq; value = lit "a" }

reads_zone : parse_constraint (lit "node.labels.zone!=a") ≡ some zoned
unfolding parse_constraint split_at index text_eq trim_space take drop
reads_zone = refl

abbrev padded : Written
padded = record {
  before = lit " ";
  key = lit "node.id";
  after_key = [];
  before_value = lit " ";
  value = lit "n1";
  after = [];
}

plain : IsPlain op_neq padded
unfolding trim_left is_space
plain = record {
  key_some = λ e. cc;
  key_trimmed = (refl, refl);
  key_no_eq = (refl, (refl, (refl, (refl, (refl, (refl, (refl, tt)))))));
  key_no_bang = (refl, (refl, (refl, (refl, (refl, (refl, (refl, tt)))))));
  value_some = λ e. cc;
  value_trimmed = (refl, refl);
  value_no_eq = λ e. (refl, (refl, tt));
  blanks = ((refl, tt), tt, (refl, tt), tt);
}

parse_constraint-spell_example :
    parse_constraint (spell op_neq padded)
    ≡ some (record { key = lit "node.id"; op = op_neq; value = lit "n1" })
parse_constraint-spell_example = parse_constraint-spell op_neq padded plain

recommend-IsJustified_example : IsJustified (idle ∷ busy ∷ []) (api ∷ []) by_node 0 (
    move_of busy idle 0 api
      (record stuck_task { id = lit "t2"; state = lit "running"; node_id = lit "n2" }))
unfolding recommend active_nodes keep_if is_active text_eq extremes_from first_movable is_movable
    find_first or_empty lookup node_satisfies split_at index trim_space take drop
recommend-IsJustified_example =
    recommend-IsJustified (idle ∷ busy ∷ []) (api ∷ []) by_node 0
      (move_of busy idle 0 api
        (record stuck_task { id = lit "t2"; state = lit "running"; node_id = lit "n2" }))
      (inl refl)

none_planned : recommend (idle ∷ busy ∷ []) (record api { rebalance = false } ∷ []) by_node 0 ≡ []
unfolding recommend active_nodes keep_if is_active text_eq extremes_from first_movable is_movable
none_planned = refl

both_active : keep_if (λ n. is_active n.view) (idle ∷ busy ∷ []) ≡ idle ∷ busy ∷ []
unfolding keep_if is_active text_eq
both_active = refl

whole_order : FloatOrder whole any
whole_order = record { lt_asym = λ a b h. ground arith; lt_weak = λ a b c n h k. ground arith }

numbers : All (λ n. any n.load ≡ true) (keep_if (λ n. is_active n.view) (idle ∷ busy ∷ []))
unfolding keep_if is_active text_eq
numbers = (refl, (refl, tt))

recommend_complete_example :
    (hot : NodeState ℕ) × (cold : NodeState ℕ) × Extremes (idle ∷ busy ∷ []) hot cold
    × ((whole.lt (whole.sub hot.load cold.load) (whole.mul 0 whole.hundred) ≡ true)
        ⊎ ((svc : ManagedService ℕ) (task : TaskView)
            → In svc (record api { rebalance = false } ∷ [])
            → ¬ IsMovable hot.view cold.view by_node svc task))
recommend_complete_example =
    recommend_complete any whole_order (idle ∷ busy ∷ []) (record api { rebalance = false } ∷ [])
      by_node 0 idle busy [] both_active numbers none_planned

desired_bounds_example : (1 ≤ desired 2 200 api_policy) × (desired 2 200 api_policy ≤ 5)
desired_bounds_example = desired_bounds 2 200 api_policy (omega arith)

clamp_step_lem_example :
    (clamp_step 2 9 3 ≤ 5)
    × (2 ≤ clamp_step 2 9 3 + 3)
    × (((2 ≤ clamp_step 2 9 3) × (clamp_step 2 9 3 ≤ 9))
        ⊎ ((clamp_step 2 9 3 ≤ 2) × (9 ≤ clamp_step 2 9 3)))
clamp_step_lem_example = clamp_step_lem 2 9 3 (omega arith) (omega arith)

step_towards-reaches_example : step_towards 3 2 9 3 ≡ 9
step_towards-reaches_example =
    step_towards-reaches 3 2 9 3 (omega arith) (omega arith) (omega arith)

whole_scale : FloatScale whole any
whole_scale = record {
  mul_one = λ n. omega arith;
  mul_mono = λ n a b p h. ground (arith, mul-le-mul_left {m = a} {n = b} n);
  ceil_above = λ n x l f h. ground arith;
  ceil_below = λ n x l f h. ground arith;
}

desired-up_example : 2 ≤ desired 2 200 api_policy
desired-up_example =
    desired-up any whole_scale 2 200 api_policy (omega arith) refl (omega arith) (omega arith) refl
