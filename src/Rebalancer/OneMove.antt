-- ===== src/Rebalancer/OneMove.antt =====
-- How many tasks a recommendation moves.
use swarm_hpa.Base.{◌≤◌, List, [], ◌∷◌, arith, Text, Dict, Float, length}
use swarm_hpa.Model.{ManagedService, TaskView}
use swarm_hpa.Rebalancer.{NodeState, active_nodes, recommend_active, recommend}

module _ {F : Type 0} ⦃fl : Float F⦄ where
  length-recommend_active :
      (active : List (NodeState F)) (services : List (ManagedService F))
      (tbn : Dict Text (List TaskView)) (threshold : F)
      → length (recommend_active active services tbn threshold) ≤ 1
  unfolding recommend_active
  length-recommend_active (a ∷ b ∷ rest) services tbn threshold = ground arith
  length-recommend_active (a ∷ []) services tbn threshold = omega arith
  length-recommend_active [] services tbn threshold = omega arith

  -- At most one move is recommended.
  length-recommend :
      (nodes : List (NodeState F)) (services : List (ManagedService F))
      (tbn : Dict Text (List TaskView)) (threshold : F)
      → length (recommend nodes services tbn threshold) ≤ 1
  unfolding recommend
  length-recommend nodes services tbn threshold =
      length-recommend_active (active_nodes nodes) services tbn threshold
