-- ===== src/Healer/Signature.antt =====
-- `Detect` is the conjunction that its comment calls the stuck-pending signature.
use swarm_hpa.Base.{
  ◌≡◌, ◌≢◌, inl, inr, true, some, List, [], arith, Text, Time, Duration, In, Option-cases, sub,
  leb_ℤ, find_first-some, find_first-none, ap,
}
use swarm_hpa.Model.{ManagedService, TaskView, NodeView, is_active, is_pending}
use swarm_hpa.Placement.{node_satisfies}
use swarm_hpa.Healer.{Verdict, is_overdue, longest_pending, recovered_node, is_home, judge, detect}

-- The three conditions, with the task and the node that the verdict names.
pub record Signature {F : Type 0} (svc : ManagedService F) (tasks : List TaskView)
    (nodes : List NodeView) (threshold : Duration) (now : Time) (v : Verdict) : Type 0 where
  pub constrained : svc.constraints ≢ []
  pub task : TaskView
  pub task_listed : In task tasks
  pub task_pending : is_pending task ≡ true
  pub task_overdue : leb_ℤ threshold (sub now task.since) ≡ true
  pub task_named : v.task_id ≡ task.id
  pub node : NodeView
  pub node_listed : In node nodes
  pub node_active : is_active node ≡ true
  pub node_fits : node_satisfies node svc.constraints ≡ true
  pub node_named : v.node_id ≡ node.id

overdue_parts :
    (threshold : Duration) (now : Time) (t : TaskView)
    → is_overdue threshold now t ≡ true
    → (is_pending t ≡ true) × (leb_ℤ threshold (sub now t.since) ≡ true)
unfolding is_overdue
overdue_parts threshold now t h = ground arith

home_parts :
    (cs : List Text) (n : NodeView)
    → is_home cs n ≡ true
    → (is_active n ≡ true) × (node_satisfies n cs ≡ true)
unfolding is_home
home_parts cs n h = ground arith

module _ {F : Type 0} (svc : ManagedService F) (tasks : List TaskView) (nodes : List NodeView)
    (threshold : Duration) (now : Time) where
  stuck_constrained : (detect svc tasks nodes threshold now).stuck ≡ true → svc.constraints ≢ []
  unfolding detect
  stuck_constrained h e = ground (arith, ap (λ cs. (judge cs tasks nodes threshold now).stuck) e)

  stuck_parts :
      (detect svc tasks nodes threshold now).stuck ≡ true
      → (t : TaskView) × (n : NodeView) × (longest_pending tasks threshold now ≡ some t)
        × (recovered_node nodes svc.constraints ≡ some n)
        × ((detect svc tasks nodes threshold now).task_id ≡ t.id)
        × ((detect svc tasks nodes threshold now).node_id ≡ n.id)
  unfolding detect
  stuck_parts h = elim (Option-cases (longest_pending tasks threshold now)) [
    | inl e ↦ absurd (ground (arith, e))
    | inr (t, e) ↦ elim (Option-cases (recovered_node nodes svc.constraints)) [
      | inl u ↦ absurd (ground (arith, e, u))
      | inr (n, u) ↦ (t, n, e, u, ground (arith, e, u), ground (arith, e, u))
    ]
  ]

  -- Every stuck verdict has the signature, with the task and the node that it names.
  pub detect-Signature :
      (detect svc tasks nodes threshold now).stuck ≡ true
      → Signature svc tasks nodes threshold now (detect svc tasks nodes threshold now)
  unfolding longest_pending recovered_node
  detect-Signature h =
      let (t, n, et, en, named_t, named_n) = stuck_parts h in
      let (mt, ot) = find_first-some (is_overdue threshold now) tasks t et in
      let (mn, on) = find_first-some (is_home svc.constraints) nodes n en in
      record {
        constrained = stuck_constrained h;
        task = t;
        task_listed = mt;
        task_pending = (overdue_parts threshold now t ot).0;
        task_overdue = (overdue_parts threshold now t ot).1;
        task_named = named_t;
        node = n;
        node_listed = mn;
        node_active = (home_parts svc.constraints n on).0;
        node_fits = (home_parts svc.constraints n on).1;
        node_named = named_n;
      }

  -- Whenever the service has constraints, some task is overdue and some schedulable node meets the
  -- constraints, the verdict is stuck.
  pub detect_complete :
      (t : TaskView) (n : NodeView)
      → svc.constraints ≢ []
      → In t tasks
      → is_pending t ≡ true
      → leb_ℤ threshold (sub now t.since) ≡ true
      → In n nodes
      → is_active n ≡ true
      → node_satisfies n svc.constraints ≡ true
      → (detect svc tasks nodes threshold now).stuck ≡ true
  unfolding detect longest_pending recovered_node is_overdue is_home
  detect_complete t n hc mt hp ho mn ha hs =
      elim (Option-cases (longest_pending tasks threshold now)) [
        | inl e ↦ absurd (ground (arith, find_first-none (is_overdue threshold now) tasks t e mt))
        | inr (u, e) ↦ elim (Option-cases (recovered_node nodes svc.constraints)) [
          | inl d ↦ absurd (ground (arith, find_first-none (is_home svc.constraints) nodes n d mn))
          | inr (m, d) ↦ ground (arith, e, d, hc)
        ]
      ]
