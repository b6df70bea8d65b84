-- ===== src/Stackstatus.antt =====
-- internal/core/stackstatus: which services drifted from their stack, and which belong to none.
pub mod Orphans
pub mod Drift
use swarm_hpa.Base.{
  ℕ, suc, ◌≡◌, ◌≢◌, ◌↔◌, refl, sym, ap, ◌∙◌, inl, inr, Bool, true, false, not, ◌&&◌, ◌||◌, Option,
  none, some, List, [], ◌∷◌, arith, Text, text_eq, text_eq_iff, text_keys, lit, Dict, lookup, put,
  lookup-put, has_prefix, In, keep_if, In-keep_if, keep_if-In, length, nat_eq, ltb, Bool-cases,
  if◌then◌else◌,
}
use swarm_hpa.Model.{StackService, LiveService, ServiceDrift}

-- autoscalerLabelPrefix
abbrev pub autoscaler_label_prefix : Text
autoscaler_label_prefix = lit "swarm.autoscaler."

-- managedByDaemon
unfoldable pub managed_by_daemon : Dict Text Text → Bool
managed_by_daemon [] = false
managed_by_daemon ((k, v) ∷ labels) =
    let rest = managed_by_daemon labels in
    if ltb (length autoscaler_label_prefix) (length k) && has_prefix autoscaler_label_prefix k
    then true
    else rest

-- The set of configured stacks, as membership in the list.
unfoldable pub is_configured : List Text → Text → Bool
is_configured [] stack = false
is_configured (s ∷ ss) stack = text_eq s stack || is_configured ss stack

-- The loop of Orphans keeps the services that pass its two tests.
unfoldable pub is_orphan : List Text → LiveService → Bool
is_orphan stacks svc =
    not (is_configured stacks svc.stack_namespace) && not (managed_by_daemon svc.labels)

-- liveByName
unfoldable pub live_by_name : List StackService → Dict Text StackService → Dict Text StackService
live_by_name [] m = m
live_by_name (s ∷ live) m = live_by_name live (put s.name s m)

-- One entry of the result of Drift, at what liveByName has under the name.
unfoldable pub drift_of : Text → ℕ → Option StackService → ServiceDrift
drift_of name want none = record { service = name; desired = want; live = 0; drifted = true }
drift_of name want (some ls) = record {
  service = name;
  desired = want;
  live = ls.replicas;
  drifted = not ls.replicated || not (nat_eq ls.replicas want);
}

unfoldable pub drift_entries : Dict Text StackService → Dict Text ℕ → List ServiceDrift
drift_entries by_name [] = []
drift_entries by_name ((name, want) ∷ desired) =
    drift_of name want (lookup name by_name) ∷ drift_entries by_name desired

-- `by_service` and `by_name` are sort.Slice with the comparisons of Drift and Orphans.
module _ (by_service : List ServiceDrift → List ServiceDrift)
    (by_name : List LiveService → List LiveService) where
  -- Drift
  unfoldable pub drift : Dict Text ℕ → List StackService → List ServiceDrift
  drift desired live = by_service (drift_entries (live_by_name live []) desired)

  -- Orphans
  unfoldable pub orphans : List Text → List LiveService → List LiveService
  orphans stacks live = by_name (keep_if (is_orphan stacks) live)
