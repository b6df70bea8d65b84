-- ===== src/Rebalancer/Moves.antt =====
-- What a recommended move guarantees, and when there is one.
use mathlib.Core.Path.{subst}
use swarm_hpa.Base.{
  Bool, All, In-keep_if, keep_if, ◌≡◌, ◌⊎◌, inl, inr, refl, sym, true, false, none, some, List, [],
  ◌∷◌, arith, Text, Dict, text_keys, Float, In, keep_if-In, Bool-cases, Option-cases,
}
use swarm_hpa.Model.{ManagedService, TaskView, is_active}
use swarm_hpa.Rebalancer.{
  NodeState, Move, active_nodes, extremes_from, is_movable, first_movable, move_of, plan_between,
  recommend_active, recommend,
}
use swarm_hpa.Rebalancer.Extremes.{FloatOrder, extremes_from-In, extremes_from-extreme}
use swarm_hpa.Rebalancer.Movable.{
  IsMovable, is_movable-some, first_movable-some, first_movable-none, is_movable_complete,
}

module _ {F : Type 0} ⦃fl : Float F⦄ where
  -- Why a move is recommended: it goes between two schedulable nodes whose loads differ by the
  -- threshold at least, and it moves a task of an opted-in service that the target can run.
  pub record IsJustified (nodes : List (NodeState F)) (services : List (ManagedService F))
      (tbn : Dict Text (List TaskView)) (threshold : F) (m : Move F) : Type 0 where
    pub hot : NodeState F
    pub cold : NodeState F
    pub service : ManagedService F
    pub task : TaskView
    pub hot_active : In hot nodes × (is_active hot.view ≡ true)
    pub cold_active : In cold nodes × (is_active cold.view ≡ true)
    pub skewed : fl.lt (fl.sub hot.load cold.load) (fl.mul threshold fl.hundred) ≡ false
    pub listed : In service services
    pub movable : IsMovable hot.view cold.view tbn service task
    pub named :
        (m.service_id ≡ service.ref.id)
        × (m.task_id ≡ task.id)
        × (m.from_node_id ≡ hot.view.id)
        × (m.to_node_id ≡ cold.view.id)

  active-In :
      (nodes : List (NodeState F)) (n : NodeState F)
      → In n (active_nodes nodes)
      → In n nodes × (is_active n.view ≡ true)
  unfolding active_nodes
  active-In nodes n i = keep_if-In (λ n. is_active n.view) nodes n i

  move_of-IsJustified :
      (nodes : List (NodeState F)) (services : List (ManagedService F))
      (tbn : Dict Text (List TaskView)) (threshold : F) (hot cold : NodeState F)
      (svc : ManagedService F) (task : TaskView)
      → In hot (active_nodes nodes)
      → In cold (active_nodes nodes)
      → fl.lt (fl.sub hot.load cold.load) (fl.mul threshold fl.hundred) ≡ false
      → first_movable hot.view cold.view tbn services ≡ some (svc, task)
      → IsJustified nodes services tbn threshold (move_of hot cold threshold svc task)
  unfolding move_of
  move_of-IsJustified nodes services tbn threshold hot cold svc task ih ic skew e =
      let (listed, found) = first_movable-some hot.view cold.view tbn services svc task e in
      record {
        hot = hot;
        cold = cold;
        service = svc;
        task = task;
        hot_active = active-In nodes hot ih;
        cold_active = active-In nodes cold ic;
        skewed = skew;
        listed = listed;
        movable = is_movable-some hot.view cold.view tbn svc task found;
        named = (refl, refl, refl, refl);
      }

  plan_between-IsJustified :
      (nodes : List (NodeState F)) (services : List (ManagedService F))
      (tbn : Dict Text (List TaskView)) (threshold : F) (hot cold : NodeState F)
      → In hot (active_nodes nodes)
      → In cold (active_nodes nodes)
      → (m : Move F) → In m (plan_between threshold services tbn (hot, cold))
      → IsJustified nodes services tbn threshold m
  unfolding plan_between
  plan_between-IsJustified nodes services tbn threshold hot cold ih ic m im =
      elim (Bool-cases (fl.lt (fl.sub hot.load cold.load) (fl.mul threshold fl.hundred))) [
        | inl level ↦ absurd (rw level at im)
        | inr skew ↦ elim (Option-cases (first_movable hot.view cold.view tbn services)) [
          | inl e ↦ absurd (rw (skew, e) at im)
          | inr ((svc, task), e) ↦
              let moved : (move_of hot cold threshold svc task ≡ m) ⊎ ⊥ = rw (skew, e) at im in
              elim moved [
                | inl same ↦ subst (IsJustified nodes services tbn threshold) same (
                    move_of-IsJustified nodes services tbn threshold hot cold svc task ih ic skew e)
                | inr h ↦ absurd h
              ]
        ]
      ]

  recommend_active-IsJustified :
      (nodes active : List (NodeState F)) (services : List (ManagedService F))
      (tbn : Dict Text (List TaskView)) (threshold : F)
      → active ≡ active_nodes nodes
      → (m : Move F) → In m (recommend_active active services tbn threshold)
      → IsJustified nodes services tbn threshold m
  unfolding recommend_active
  recommend_active-IsJustified nodes (a ∷ b ∷ rest) services tbn threshold e m im =
      let (ih, ic) = extremes_from-In a (b ∷ rest) in
      let (hot, cold) = extremes_from a a (b ∷ rest) in
      plan_between-IsJustified nodes services tbn threshold hot cold (subst (In hot) e ih)
        (subst (In cold) e ic) m im
  recommend_active-IsJustified nodes (a ∷ []) services tbn threshold e m im = absurd im
  recommend_active-IsJustified nodes [] services tbn threshold e m im = absurd im

  -- Every recommended move is justified.
  pub recommend-IsJustified :
      (nodes : List (NodeState F)) (services : List (ManagedService F))
      (tbn : Dict Text (List TaskView)) (threshold : F) (m : Move F)
      → In m (recommend nodes services tbn threshold)
      → IsJustified nodes services tbn threshold m
  unfolding recommend
  recommend-IsJustified nodes services tbn threshold m im =
      recommend_active-IsJustified nodes (active_nodes nodes) services tbn threshold refl m im

  plan_between-none :
      (services : List (ManagedService F)) (tbn : Dict Text (List TaskView)) (threshold : F)
      (hot cold : NodeState F) (svc : ManagedService F)
      → fl.lt (fl.sub hot.load cold.load) (fl.mul threshold fl.hundred) ≡ false
      → In svc services
      → plan_between threshold services tbn (hot, cold) ≡ []
      → is_movable hot.view cold.view tbn svc ≡ none
  unfolding plan_between
  plan_between-none services tbn threshold hot cold svc skew i h =
      elim (Option-cases (first_movable hot.view cold.view tbn services)) [
        | inl e ↦ first_movable-none hot.view cold.view tbn services svc e i
        | inr (st, e) ↦ absurd (ground (arith, e, skew))
      ]

  -- A schedulable node than which none is busier, and one than which none is idler.
  pub record Extremes (nodes : List (NodeState F)) (hot cold : NodeState F) : Type 0 where
    pub hot_active : In hot nodes × (is_active hot.view ≡ true)
    pub cold_active : In cold nodes × (is_active cold.view ≡ true)
    pub busiest :
        (n : NodeState F) → In n nodes → is_active n.view ≡ true → fl.lt hot.load n.load ≡ false
    pub idlest :
        (n : NodeState F) → In n nodes → is_active n.view ≡ true → fl.lt n.load cold.load ≡ false

  extremes_from-Extremes :
      (is_number : F → Bool)
      → FloatOrder fl is_number
      → (nodes : List (NodeState F)) (a : NodeState F) (ns : List (NodeState F))
      → active_nodes nodes ≡ a ∷ ns
      → All (λ n. is_number n.load ≡ true) (active_nodes nodes)
      → Extremes nodes (extremes_from a a ns).0 (extremes_from a a ns).1
  unfolding active_nodes
  extremes_from-Extremes is_number o nodes a ns e nums =
      let (ih, ic) = extremes_from-In a ns in
      let numbers = subst (All (λ n. is_number n.load ≡ true)) e nums in
      let extreme = λ (n : NodeState F) (i : In n nodes) (k : is_active n.view ≡ true).
        extremes_from-extreme is_number o a ns n numbers
          (subst (In n) e (In-keep_if (λ n. is_active n.view) nodes n i k)) in
      record {
        hot_active = active-In nodes (extremes_from a a ns).0 (subst (In _) (sym e) ih);
        cold_active = active-In nodes (extremes_from a a ns).1 (subst (In _) (sym e) ic);
        busiest = λ n i k. (extreme n i k).0;
        idlest = λ n i k. (extreme n i k).1;
      }

  -- No move is missed: where two nodes at least are schedulable, and the loads of those that are are numbers, ordered
  -- as IEEE 754 has it, an empty plan means that for some busiest and some idlest schedulable node, their loads differ
  -- by less than the threshold, or no service has a task on the busiest that could be moved to the idlest.
  pub recommend_complete :
      (is_number : F → Bool)
      → FloatOrder fl is_number
      → (nodes : List (NodeState F)) (services : List (ManagedService F))
        (tbn : Dict Text (List TaskView)) (threshold : F) (a b : NodeState F)
        (rest : List (NodeState F))
      → keep_if (λ n. is_active n.view) nodes ≡ a ∷ b ∷ rest
      → All (λ n. is_number n.load ≡ true) (keep_if (λ n. is_active n.view) nodes)
      → recommend nodes services tbn threshold ≡ []
      → (hot : NodeState F) × (cold : NodeState F) × Extremes nodes hot cold
        × ((fl.lt (fl.sub hot.load cold.load) (fl.mul threshold fl.hundred) ≡ true)
            ⊎ ((svc : ManagedService F) (task : TaskView)
                → In svc services
                → ¬ IsMovable hot.view cold.view tbn svc task))
  unfolding recommend recommend_active active_nodes
  recommend_complete is_number o nodes services tbn threshold a b rest ha nums h =
      let (hot, cold) = extremes_from a a (b ∷ rest) in
      (
        hot,
        cold,
        extremes_from-Extremes is_number o nodes a (b ∷ rest) ha nums,
        elim (Bool-cases (fl.lt (fl.sub hot.load cold.load) (fl.mul threshold fl.hundred))) [
          | inl level ↦ inl level
          | inr skew ↦ inr (λ svc task i.
              is_movable_complete hot.view cold.view tbn svc task
                (plan_between-none services tbn threshold hot cold svc skew i (rw ha at h)))
        ],
      )
