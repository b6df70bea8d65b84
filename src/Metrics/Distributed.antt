-- ===== src/Metrics/Distributed.antt =====
-- internal/adapter/metrics/distributed/distributed.go: the mean over the tasks that agents reported.
use native.Mathlib.Nat.{zero-add}
use swarm_hpa.Base.{
  ℕ, suc, ◌+◌, ◌≡◌, refl, sym, ap, ◌∙◌, inl, inr, List, [], ◌∷◌, ◌++◌, arith, Text, text_eq, lit,
  trim_space, Float, Result, ok, err, ◌>>=◌, nat_eq, length, keep_if, Bool-cases, ◌||◌,
  if◌then◌else◌, length-append,
}
use swarm_hpa.Model.{ManagedService, AgentReport, TaskMetric}
use swarm_hpa.Metrics.{Failure, no_metric_data, unsupported_metric}

-- `to_lower` is strings.ToLower.
module _ {F : Type 0} ⦃fl : Float F⦄ (to_lower : Text → Text) where
  -- metricSelector
  unfoldable pub metric_selector : Text → Result Failure (TaskMetric F → F)
  metric_selector metric =
      let name = to_lower (trim_space metric) in
      if text_eq name (lit "cpu") || text_eq name []
      then ok (λ tm. tm.cpu_percent)
      else if text_eq name (lit "memory") || text_eq name (lit "mem")
      then ok (λ tm. tm.mem_percent)
      else err (unsupported_metric metric)

  -- The inner loop of Value, over the sum and the number of the tasks so far.
  unfoldable pub add_tasks : Text → (TaskMetric F → F) → List (TaskMetric F) → F × ℕ → F × ℕ
  add_tasks id selector [] acc = acc
  add_tasks id selector (tm ∷ tms) (sum, n) =
      add_tasks id selector tms
        (if text_eq tm.service_id id then (fl.add sum (selector tm), suc n) else (sum, n))

  -- The outer loop, over the reports.
  unfoldable pub add_reports : Text → (TaskMetric F → F) → List (AgentReport F) → F × ℕ → F × ℕ
  add_reports id selector [] acc = acc
  add_reports id selector (rep ∷ reps) acc =
      add_reports id selector reps (add_tasks id selector rep.tasks acc)

  -- Value, at the reports of the registry's Snapshot.
  unfoldable pub mean_value : List (AgentReport F) → ManagedService F → Result Failure F
  mean_value reports svc = do
    selector ← metric_selector svc.policy.metric
    let (sum, n) = add_reports svc.ref.id selector reports (fl.zero, 0)
    if nat_eq n 0 then err no_metric_data else ok (fl.div sum (fl.of_uint64 n))

  -- The reported tasks of a service, in order.
  pub tasks_of : Text → List (AgentReport F) → List (TaskMetric F)
  tasks_of id [] = []
  tasks_of id (rep ∷ reps) = keep_if (λ tm. text_eq tm.service_id id) rep.tasks ++ tasks_of id reps

  -- The sum from the left, as floats are added in order.
  pub total : (TaskMetric F → F) → F → List (TaskMetric F) → F
  total selector sum [] = sum
  total selector sum (tm ∷ tms) = total selector (fl.add sum (selector tm)) tms

  total-append :
      (selector : TaskMetric F → F) (sum : F) (xs ys : List (TaskMetric F))
      → total selector sum (xs ++ ys) ≡ total selector (total selector sum xs) ys
  unfolding total
  total-append selector sum [] ys = refl
  total-append selector sum (x ∷ xs) ys = total-append selector (fl.add sum (selector x)) xs ys

  add_tasks-total :
      (id : Text) (selector : TaskMetric F → F) (tms : List (TaskMetric F)) (sum : F) (n : ℕ)
      → add_tasks id selector tms (sum, n) ≡ (
        total selector sum (keep_if (λ tm. text_eq tm.service_id id) tms),
        n + length (keep_if (λ tm. text_eq tm.service_id id) tms),
      )
  unfolding add_tasks total keep_if
  add_tasks-total id selector [] sum n = ap (λ (m : ℕ). (sum, m)) (omega arith)
  add_tasks-total id selector (tm ∷ tms) sum n = elim (Bool-cases (text_eq tm.service_id id)) [
    | inl own ↦ rw own (
        add_tasks-total id selector tms (fl.add sum (selector tm)) (suc n)
        ∙ ap
            (λ (m : ℕ). (
              total selector (fl.add sum (selector tm))
                  (keep_if (λ tm. text_eq tm.service_id id) tms),
              m,
            ))
            (omega arith))
    | inr foreign ↦ rw foreign (add_tasks-total id selector tms sum n)
  ]

  add_reports-total :
      (id : Text) (selector : TaskMetric F → F) (reports : List (AgentReport F)) (sum : F) (n : ℕ)
      → add_reports id selector reports (sum, n)
        ≡ (total selector sum (tasks_of id reports), n + length (tasks_of id reports))
  unfolding add_reports tasks_of total
  add_reports-total id selector [] sum n = ap (λ (m : ℕ). (sum, m)) (omega arith)
  add_reports-total id selector (rep ∷ reps) sum n =
      let own = keep_if (λ tm. text_eq tm.service_id id) rep.tasks in
      let rest = tasks_of id reps in
      rw (add_tasks-total id selector rep.tasks sum n) (
        add_reports-total id selector reps (total selector sum own) (n + length own)
        ∙ ap (λ (m : ℕ). (total selector (total selector sum own) rest, m))
            (omega (arith, length-append own rest))
        ∙ ap (λ (t : F). (t, n + length (own ++ rest))) (sym (total-append selector sum own rest)))

  -- Where the policy's metric is a supported one, the value is the sum of that metric over all the tasks that all
  -- the agents reported for the service, divided by their number; without such a task it is ErrNoMetricData.
  pub mean_value_lem :
      (reports : List (AgentReport F)) (svc : ManagedService F) (selector : TaskMetric F → F)
      → metric_selector svc.policy.metric ≡ ok selector
      → mean_value reports svc ≡ (
          let tms = tasks_of svc.ref.id reports in
          if nat_eq (length tms) 0
          then err no_metric_data
          else ok (fl.div (total selector fl.zero tms) (fl.of_uint64 (length tms))))
  unfolding mean_value
  mean_value_lem reports svc selector h =
      rw
        (
          h,
          add_reports-total svc.ref.id selector reports fl.zero 0,
          zero-add (length (tasks_of svc.ref.id reports)),
        )
        refl
