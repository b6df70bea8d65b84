-- ===== src/Rebalancer/Movable.antt =====
-- Which services the loop over the services finds.
use swarm_hpa.Base.{
  find_first, find_first-none, ◌≡◌, inl, inr, sym, ap, ◌∙◌, true, none, some, List, [], ◌∷◌, arith,
  Text, text_eq, text_eq_iff, Dict, lookup, or_empty, text_keys, In, find_first-some, Option-cases,
}
use swarm_hpa.Model.{ManagedService, TaskView, NodeView}
use swarm_hpa.Placement.{node_satisfies}
use swarm_hpa.Rebalancer.{first_task_of, is_movable, first_movable}

-- The service opted in, is replicated, has the task on the hot node, and fits the cold node.
pub record IsMovable {F : Type 0} (hot cold : NodeView) (tbn : Dict Text (List TaskView))
    (svc : ManagedService F) (task : TaskView) : Type 0 where
  pub opted_in : svc.rebalance ≡ true
  pub is_replicated : svc.replicated ≡ true
  pub task_there : In task (or_empty (lookup hot.id tbn))
  pub task_own : task.service_id ≡ svc.ref.id
  pub fits : node_satisfies cold svc.constraints ≡ true

first_task_of-some :
    (tasks : List TaskView) (service_id : Text) (t : TaskView)
    → first_task_of tasks service_id ≡ some t
    → In t tasks × (t.service_id ≡ service_id)
unfolding first_task_of
first_task_of-some tasks service_id t h =
    let (i, own) = find_first-some (λ t. text_eq t.service_id service_id) tasks t h in
    (i, (text_eq_iff t.service_id service_id).0 own)

pub is_movable-some :
    {F : Type 0} (hot cold : NodeView) (tbn : Dict Text (List TaskView)) (svc : ManagedService F)
    (task : TaskView)
    → is_movable hot cold tbn svc ≡ some task
    → IsMovable hot cold tbn svc task
unfolding is_movable
is_movable-some hot cold tbn svc task h =
    elim (Option-cases (first_task_of (or_empty (lookup hot.id tbn)) svc.ref.id)) [
      | inl e ↦ absurd (ground (arith, e))
      | inr (t, e) ↦
          let same : t ≡ task = ground (arith, e) in
          let (there, own) =
            first_task_of-some (or_empty (lookup hot.id tbn)) svc.ref.id task (e ∙ ap some same) in
          record {
            opted_in = ground (arith, e);
            is_replicated = ground (arith, e);
            task_there = there;
            task_own = own;
            fits = ground (arith, e);
          }
    ]

pub first_movable-some :
    {F : Type 0} (hot cold : NodeView) (tbn : Dict Text (List TaskView))
    (svcs : List (ManagedService F)) (svc : ManagedService F) (task : TaskView)
    → first_movable hot cold tbn svcs ≡ some (svc, task)
    → In svc svcs × (is_movable hot cold tbn svc ≡ some task)
unfolding first_movable
first_movable-some hot cold tbn [] svc task h = cc
first_movable-some hot cold tbn (s ∷ svcs) svc task h =
    elim (Option-cases (is_movable hot cold tbn s)) [
      | inl e ↦
          let (i, k) = first_movable-some hot cold tbn svcs svc task (ground (arith, e)) in
          (inr i, k)
      | inr (t, e) ↦
          let same_svc : s ≡ svc = ground (arith, e) in
          let same_task : t ≡ task = ground (arith, e) in
          (inl same_svc, ap (is_movable hot cold tbn) (sym same_svc) ∙ e ∙ ap some same_task)
    ]

pub first_movable-none :
    {F : Type 0} (hot cold : NodeView) (tbn : Dict Text (List TaskView))
    (svcs : List (ManagedService F)) (svc : ManagedService F)
    → first_movable hot cold tbn svcs ≡ none
    → In svc svcs
    → is_movable hot cold tbn svc ≡ none
unfolding first_movable
first_movable-none hot cold tbn [] svc h m = absurd m
first_movable-none hot cold tbn (s ∷ svcs) svc h (inl e) =
    ground (arith, ap (is_movable hot cold tbn) e)
first_movable-none hot cold tbn (s ∷ svcs) svc h (inr m) =
    first_movable-none hot cold tbn svcs svc (ground arith) m

-- A service that can be moved is found.
pub is_movable_complete :
    {F : Type 0} (hot cold : NodeView) (tbn : Dict Text (List TaskView)) (svc : ManagedService F)
    (task : TaskView)
    → is_movable hot cold tbn svc ≡ none
    → ¬ IsMovable hot cold tbn svc task
unfolding is_movable first_task_of
is_movable_complete hot cold tbn svc task h m =
    let on_hot = or_empty (lookup hot.id tbn) in
    let own = λ (t : TaskView). text_eq t.service_id svc.ref.id in
    elim (Option-cases (find_first own on_hot)) [
      | inl e ↦
          let other = find_first-none own on_hot task e m.task_there in
          absurd (ground (arith, other, m.task_own, text_eq_iff task.service_id svc.ref.id))
      | inr (t, e) ↦ absurd (ground (arith, h, e, m.opted_in, m.is_replicated, m.fits))
    ]
