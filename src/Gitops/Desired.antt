-- ===== src/Gitops/Desired.antt =====
-- internal/app/gitopsync/loop.go, its last part: the counts that a merge group asks for, where the
-- autoscaler does not own them.
pub mod Agreement
use swarm_hpa.Base.{
  ℕ, suc, Bool, true, false, Option, none, some, List, [], ◌∷◌, Text, text_eq, lit, Dict, lookup,
  put, text_keys, ℤ, pos, negsuc, Float, if◌then◌else◌,
}
use swarm_hpa.Config.Labels.{label, label_enabled}
use swarm_hpa.Compose.Fields.{
  Value, int, uint, float, object, Fields, get, entries, as_text, object_at,
}
use swarm_hpa.Compose.Labels.{flat_service_labels}

-- mergedGroupService; `replicas` is there where `hasReplicas` is true.
pub record MergedGroupService : Type 0 where
  pub labels : Dict Text Text
  pub is_global : Bool
  pub replicas : Option ℕ

unfoldable pub or_new : Option MergedGroupService → MergedGroupService
or_new none = record { labels = []; is_global = false; replicas = none }
or_new (some ms) = ms

unfoldable pub put_labels : Dict Text Text → Dict Text Text → Dict Text Text
put_labels [] m = m
put_labels ((k, v) ∷ kvs) m = put_labels kvs (put k v m)

unfoldable pub group_mode : Option Text → Bool → Bool
group_mode none before = before
group_mode (some mode) before = text_eq mode (lit "global")

unfoldable pub or_before : Option ℕ → Option ℕ → Option ℕ
or_before none before = before
or_before (some n) before = some n

module _ {F : Type 0} where
  unfoldable pub filled : Option (Value F) → Option Text
  unfolding as_text
  filled v = elim (as_text v) [ none ↦ none | some s ↦ if text_eq s [] then none else some s ]

  unfoldable pub mode_in_deploy : Fields F → Option Text
  mode_in_deploy svc = elim (object_at (lit "deploy") svc) [
    | none ↦ none
    | some d ↦ filled (get (lit "mode") d)
  ]

  -- explicitServiceMode
  unfoldable pub explicit_service_mode : Fields F → Option Text
  explicit_service_mode svc = elim (mode_in_deploy svc) [
    | none ↦ filled (get (lit "mode") svc)
    | some m ↦ some m
  ]

module _ {F : Type 0} ⦃fl : Float F⦄ (sprint : Value F → Text) where
  -- asUint64
  unfoldable pub as_uint64 : Option (Value F) → Option ℕ
  as_uint64 (some (int (pos n))) = some n
  as_uint64 (some (int (negsuc n))) = none
  as_uint64 (some (uint n)) = some n
  as_uint64 (some (float x)) = if fl.lt x fl.zero then none else some (fl.to_uint64 x)
  as_uint64 _ = none

  unfoldable pub replicas_in_deploy : Option (Fields F) → Option ℕ
  unfolding as_uint64
  replicas_in_deploy none = none
  replicas_in_deploy (some d) = as_uint64 (get (lit "replicas") d)

  -- replicasOf
  unfoldable pub replicas_of : Fields F → Option ℕ
  unfolding replicas_in_deploy
  replicas_of svc = elim (replicas_in_deploy (object_at (lit "deploy") svc)) [
    | none ↦ as_uint64 (get (lit "replicas") svc)
    | some n ↦ some n
  ]

  -- One round of the loop over a document's services.
  unfoldable pub merge_group_service :
      Text × Value F → Dict Text MergedGroupService → Dict Text MergedGroupService
  merge_group_service (name, object svc) m =
      let ms = or_new (lookup name m) in
      put name
        (record {
          labels = put_labels (flat_service_labels sprint svc) ms.labels;
          is_global = group_mode (explicit_service_mode svc) ms.is_global;
          replicas = or_before (replicas_of svc) ms.replicas;
        })
        m
  merge_group_service (name, _) m = m

  unfoldable pub merge_group_round :
      List (Text × Value F) → Dict Text MergedGroupService → Dict Text MergedGroupService
  merge_group_round [] m = m
  merge_group_round (s ∷ ss) m = merge_group_round ss (merge_group_service s m)

  unfoldable pub merge_group_doc :
      Option (Fields F) → Dict Text MergedGroupService → Dict Text MergedGroupService
  merge_group_doc none m = m
  merge_group_doc (some services) m = merge_group_round (entries services) m

  -- mergeGroupServices, from what was merged before.
  unfoldable pub merge_group_services :
      List (Fields F) → Dict Text MergedGroupService → Dict Text MergedGroupService
  merge_group_services [] m = m
  merge_group_services (doc ∷ docs) m =
      merge_group_services docs (merge_group_doc (object_at (lit "services") doc) m)

  -- The count of a service in the snapshot.
  unfoldable pub snapshot_count : MergedGroupService → Option ℕ
  snapshot_count ms =
      if ms.is_global
      then none
      else if text_eq (label ms.labels label_enabled) (lit "true")
      then none
      else ms.replicas

  unfoldable pub put_if : Text → Option ℕ → Dict Text ℕ → Dict Text ℕ
  put_if name none m = m
  put_if name (some n) m = put name n m

  -- The loop of desiredReplicasGroup, into a map that can hold other groups' counts.
  unfoldable pub add_counts : Dict Text MergedGroupService → Dict Text ℕ → Dict Text ℕ
  add_counts [] m = m
  add_counts ((name, ms) ∷ merged) m = add_counts merged (put_if name (snapshot_count ms) m)

  -- desiredReplicasGroup; the number of excluded services is only logged.
  unfoldable pub desired_replicas_group : List (Fields F) → Dict Text ℕ
  desired_replicas_group docs = add_counts (merge_group_services docs []) []
