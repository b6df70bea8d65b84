-- ===== src/Swarm.antt =====
-- internal/adapter/swarm: Swarm's services as the reconcile loop sees them, and its two mutations.
-- The types of Docker's client are parameters: `Service` and `Spec` stand for its Service and
-- ServiceSpec, with the fields that the adapter reads and writes.
pub mod Mutate
pub mod Read
use swarm_hpa.Base.{ℕ, Option, List, Text, Dict}

pub record Sdk (Service Spec : Type 0) : Type 0 where
  -- svc.ID, svc.Version, svc.Spec
  pub id : Service → Text
  pub version : Service → ℕ
  pub spec : Service → Spec
  -- Name, Labels, Mode.Replicated and its Replicas, each of which can be nil
  pub name : Spec → Text
  pub labels : Spec → Dict Text Text
  pub replicated : Spec → Option (Option ℕ)
  -- TaskTemplate.Placement, which can be nil, and its Constraints
  pub placement : Spec → Option (List Text)
  -- Mode.Replicated.Replicas = &n, and TaskTemplate.ForceUpdate++
  pub with_replicas : ℕ → Spec → Spec
  pub with_force_update : Spec → Spec
