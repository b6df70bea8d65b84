-- ===== src/Examples/Status.antt =====
-- The theorems on metric sources, drift and orphans, applied.
use swarm_hpa.Base.{
  pos, lookup, put, text_eq, trim_space, ℕ, ◌≡◌, ◌↔◌, refl, inl, true, false, nat_eq, some, none,
  List, [], ◌∷◌, Text, lit, Dict, In, length, ok, err, if◌then◌else◌,
}
use swarm_hpa.Model.{AgentReport, TaskMetric, StackService, LiveService, ServiceDrift}
use swarm_hpa.Examples.Data.{whole, api, a_report}
use swarm_hpa.Metrics.{no_metric_data}
use swarm_hpa.Metrics.Router.{Router, Provider, source_of, route, Serves, route-Serves}
use swarm_hpa.Metrics.Distributed.{metric_selector, mean_value, tasks_of, total, mean_value_lem}
use swarm_hpa.Statusstore.{StackStatus, blank, set_status}
use swarm_hpa.Statusstore.Results.{Shows, write_all, state_write, status_write, set_status-Shows}
use swarm_hpa.Stackstatus.{drift_entries, drift_of, live_by_name, drift, orphans}
use swarm_hpa.Stackstatus.Orphans.{IsOptIn, orphans-In}

abbrev router : Router ℕ
router = record {
  dockerstats = some (λ svc. ok 7);
  prometheus = none;
  agents = none;
  default_source = lit "dockerstats";
}

routed : route router api ≡ ok 7
unfolding route text_eq source_of
routed = refl

route-Serves_example :
    (p : Provider ℕ) × Serves router
      (if text_eq api.policy.source [] then lit "dockerstats" else api.policy.source)
      p
    × (p api ≡ ok 7)
route-Serves_example = route-Serves router api 7 routed

abbrev unchanged : Text → Text
unchanged s = s

abbrev reports : List (AgentReport ℕ)
reports =
    record a_report {
      tasks =
          record { task_id = lit "t1"; service_id = lit "s1"; cpu_percent = 30; mem_percent = 1 }
          ∷ record { task_id = lit "t2"; service_id = lit "s2"; cpu_percent = 99; mem_percent = 1 }
          ∷ [];
    }
    ∷ record a_report {
      tasks =
          record { task_id = lit "t3"; service_id = lit "s1"; cpu_percent = 50; mem_percent = 1 }
          ∷ [];
    }
    ∷ []

abbrev cpu : TaskMetric ℕ → ℕ
cpu tm = tm.cpu_percent

selected : metric_selector unchanged api.policy.metric ≡ ok cpu
unfolding metric_selector text_eq trim_space
selected = refl

mean_value_lem_example : mean_value unchanged reports api ≡ (
    let tms = tasks_of unchanged (lit "s1") reports in
    if nat_eq (length tms) 0
    then err no_metric_data
    else ok (whole.div (total unchanged cpu 0 tms) (whole.of_uint64 (length tms))))
mean_value_lem_example = mean_value_lem unchanged reports api cpu selected

abbrev web : StackService
web = record { name = lit "web"; replicas = 3; replicated = true; labels = [] }

abbrev wanted : Dict Text ℕ
wanted = (lit "web", 3) ∷ []

abbrev web_entry : ServiceDrift
web_entry = record { service = lit "web"; desired = 3; live = 3; drifted = false }

abbrev as_listed : List ServiceDrift → List ServiceDrift
as_listed l = l

abbrev as_found : List LiveService → List LiveService
as_found l = l

listed : In web_entry (drift as_listed as_found wanted (web ∷ []))
unfolding drift drift_entries drift_of lookup live_by_name put text_eq
listed = inl refl

abbrev stray : LiveService
stray = record { id = lit "s9"; name = lit "stray"; stack_namespace = lit "old"; labels = [] }

orphans-In_example :
    In stray (orphans as_listed as_found (lit "prod" ∷ []) (stray ∷ []))
    ↔ (In stray (stray ∷ []) × (¬ In (lit "old") (lit "prod" ∷ [])) × (¬ IsOptIn stray.labels))
orphans-In_example =
    orphans-In as_listed as_found (λ l a. (λ i. i, λ i. i)) (lit "prod" ∷ []) (stray ∷ []) stray

abbrev synced : StackStatus
synced = record (blank (pos 0) (lit "web")) { revision = lit "abc"; is_ok = true; deploy_count = 4 }

set_status-Shows_example :
    Shows
      (write_all
        (pos 0)
        (state_write (lit "web") (lit "infra") (lit "waiting")
          ∷ status_write (lit "db") synced
          ∷ state_write (lit "web") (lit "infra") (lit "syncing")
          ∷ [])
        (set_status (lit "web") synced []))
      (lit "web")
      (record synced { name = lit "web" })
set_status-Shows_example =
    set_status-Shows (pos 0) (lit "web") synced
      (state_write (lit "web") (lit "infra") (lit "waiting")
        ∷ status_write (lit "db") synced
        ∷ state_write (lit "web") (lit "infra") (lit "syncing")
        ∷ [])
      [] (tt, ((λ e. cc), (tt, tt)))
