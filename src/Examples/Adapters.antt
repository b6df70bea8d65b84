-- ===== src/Examples/Adapters.antt =====
-- The theorems on labels, task errors and the registry, applied.
use swarm_hpa.Base.{
  not, Text, parse_uint, text_eq, ◌-ℤ◌, ℕ, ◌≤◌, ◌≡◌, ◌≢◌, ◌↔◌, ◌&&◌, refl, true, false, [], ◌∷◌,
  arith, lit, pos, In, length, ok, leb_ℤ, sub, Occurs, count_if, lookup,
}
use swarm_hpa.Examples.Data.{whole, an_error, a_report, clock}
use swarm_hpa.Config.Labels.{
  parse_enabled, parse_float_label, parse_opt_in, parse_uint_label, validate_policy, Labels, Parsed,
  parse_policy,
}
use swarm_hpa.Config.Labels.Sound.{IsValid, parse_policy-IsValid}
use swarm_hpa.TaskErrors.Classify.{
  classify, vxlan_file_exists, sandbox_join_failed, vxlan_file_exists_class, network_sandbox_join,
  other, classify-Occurs,
}
use swarm_hpa.TaskErrors.Tracker.{Tracked, keys, key_of, record_events, window_snapshot}
use swarm_hpa.TaskErrors.Tracker.Capacity.{record_events-capacity}
use swarm_hpa.TaskErrors.Tracker.Window.{count_of, is_of, window_snapshot-counts}
use swarm_hpa.Registry.{Entry, Registry, ingest, snapshot}
use swarm_hpa.Registry.Unique.{Distinct, polled, ingested, serve, snapshot-Distinct}
use swarm_hpa.Registry.Freshness.{ingest-snapshot, snapshot-IsFresh}

abbrev opted_in : Labels
opted_in =
    (lit "swarm.autoscaler.enabled", lit "true")
    ∷ (lit "swarm.autoscaler.min", lit "1")
    ∷ (lit "swarm.autoscaler.max", lit "5")
    ∷ (lit "swarm.autoscaler.metric", lit "cpu")
    ∷ (lit "swarm.autoscaler.target", lit "50")
    ∷ []

abbrev result : Parsed ℕ
result = record {
  policy = record {
    enabled = true;
    min = 1;
    max = 5;
    metric = lit "cpu";
    target = 50;
    source = [];
    query = [];
  };
  autoscale = true;
  heal = true;
  rebalance = false;
}

parsed : parse_policy opted_in ≡ ok result
unfolding parse_policy parse_opt_in text_eq lookup parse_enabled parse_uint_label parse_uint
    parse_float_label validate_policy
parsed = refl

parse_policy-IsValid_example : IsValid result.policy
parse_policy-IsValid_example = parse_policy-IsValid opted_in result parsed refl

classify-Occurs_example :
    ((classify (lit "file exists") ≡ vxlan_file_exists_class)
      ↔ Occurs vxlan_file_exists (lit "file exists"))
    × ((classify (lit "file exists") ≡ network_sandbox_join) ↔ (
        Occurs sandbox_join_failed (lit "file exists")
        × ¬ Occurs vxlan_file_exists (lit "file exists")))
    × ((classify (lit "file exists") ≡ other) ↔ (
        ¬ Occurs sandbox_join_failed (lit "file exists")
        × ¬ Occurs vxlan_file_exists (lit "file exists")))
classify-Occurs_example = classify-Occurs (lit "file exists")

abbrev one_tracked : Tracked
one_tracked = (key_of an_error, an_error) ∷ []

record_events-capacity_example :
    length (record_events 1 (record an_error { task_id = lit "t9" } ∷ []) one_tracked) ≤ 1
record_events-capacity_example =
    record_events-capacity 1 (record an_error { task_id = lit "t9" } ∷ []) one_tracked (omega arith)
      (omega arith)

some_tracked : one_tracked ≢ []
some_tracked = λ e. cc

window_snapshot-counts_example :
    count_of (window_snapshot (pos 9) (pos 8) one_tracked).0 (lit "api") (lit "other")
    ≡ count_if
        (λ x. not (leb_ℤ (pos 8) (sub (pos 9) x.1.since)) && is_of (lit "api") (lit "other") x)
        one_tracked
window_snapshot-counts_example =
    window_snapshot-counts (pos 9) (pos 8) one_tracked (lit "api") (lit "other")

abbrev empty : Registry ℕ
empty = record { entries = []; reads = 0; events = [] }

snapshot-Distinct_example :
    Distinct
      (snapshot clock (pos 15) (
        serve clock
          (pos 15)
          (ingested a_report (lit "a") ∷ polled ∷ ingested a_report (lit "b") ∷ [])
          empty)).0
snapshot-Distinct_example =
    snapshot-Distinct clock (pos 15)
      (ingested a_report (lit "a") ∷ polled ∷ ingested a_report (lit "b") ∷ []) empty tt

soon : leb_ℤ (sub (clock 1) (clock 0)) (pos 15) ≡ true
unfolding sub ◌-ℤ◌
soon = refl

has_id : a_report.node_id ≢ []
has_id = λ e. cc

ingest-snapshot_example :
    In a_report (snapshot clock (pos 15) (ingest clock (pos 15) a_report (lit "a") empty).1).0
ingest-snapshot_example = ingest-snapshot clock (pos 15) a_report (lit "a") empty has_id soon

abbrev one_report : Registry ℕ
one_report = record empty {
  entries = (lit "n1", record { report = a_report; last_seen = pos 0; source = lit "a" }) ∷ [];
}

snapshot-IsFresh_example : In a_report (snapshot clock (pos 15) one_report).0 ↔ (
    (x : Text × Entry ℕ) × In x one_report.entries
    × (x.1.report ≡ a_report)
    × (leb_ℤ (sub (clock 0) x.1.last_seen) (pos 15) ≡ true))
snapshot-IsFresh_example = snapshot-IsFresh clock (pos 15) a_report one_report
