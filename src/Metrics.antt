-- ===== src/Metrics.antt =====
-- internal/adapter/metrics: where a service's metric value comes from.
pub mod Stats
pub mod Router
pub mod Distributed
use swarm_hpa.Base.{Text}

-- The errors of the providers; `upstream` is an error of a provider that the router passes on.
pub data Failure : Type 0 where
  no_metric_data : Failure
  unavailable_dockerstats unavailable_prometheus unavailable_agents : Text → Failure
  unknown_source : Text → Text → Failure
  unsupported_metric : Text → Failure
  upstream : Text → Failure
