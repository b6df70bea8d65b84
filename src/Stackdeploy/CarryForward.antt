-- ===== src/Stackdeploy/CarryForward.antt =====
-- internal/adapter/stackdeploy/carryforward.go: the live counts are written into the documents.
pub mod Count
pub mod Live
pub mod Declared
pub mod Merged
pub mod Kept
use swarm_hpa.Base.{
  ℕ, suc, ◌+◌, Bool, true, false, not, ◌&&◌, Option, none, some, List, [], ◌∷◌, map, Text, text_eq,
  lit, Dict, lookup, put, text_keys, parse_uint, ltb, Result, ok, err, if◌then◌else◌,
}
use swarm_hpa.Model.{StackService}
use swarm_hpa.Config.Labels.{label, label_enabled, label_min, label_max}
use swarm_hpa.Compose.Fields.{
  Value, object, uint, Fields, end, get, set, entries, as_text, object_at,
}
use swarm_hpa.Compose.Labels.{service_labels}
use swarm_hpa.Stackstatus.{live_by_name}

-- mergedService. Its `decls` alias the documents' own declarations of the service, so writing to
-- them is `rewrite` below, in every document; `labelSourceIdx` is only logged.
pub record MergedService : Type 0 where
  pub labels : Dict Text Text
  pub is_global : Bool

-- errNoServices
pub data CarryError : Type 0 where
  no_services : CarryError

module _ {F : Type 0} where
  -- A string that is not empty: `s, ok := v.(string); ok && s != ""`.
  unfoldable pub filled_text : Option (Value F) → Option Text
  unfolding as_text
  filled_text v = elim (as_text v) [ none ↦ none | some s ↦ if text_eq s [] then none else some s ]

  unfoldable pub deploy_mode : Fields F → Option Text
  deploy_mode svc = elim (object_at (lit "deploy") svc) [
    | none ↦ none
    | some d ↦ filled_text (get (lit "mode") d)
  ]

  -- explicitMode
  unfoldable pub explicit_mode : Fields F → Option Text
  explicit_mode svc = elim (deploy_mode svc) [
    | none ↦ filled_text (get (lit "mode") svc)
    | some m ↦ some m
  ]

-- The labels of a later document win.
unfoldable pub put_all : Dict Text Text → Dict Text Text → Dict Text Text
put_all [] m = m
put_all ((k, v) ∷ kvs) m = put_all kvs (put k v m)

unfoldable pub or_new : Option MergedService → MergedService
or_new none = record { labels = []; is_global = false }
or_new (some ms) = ms

unfoldable pub new_mode : Option Text → Bool → Bool
new_mode none before = before
new_mode (some mode) before = text_eq mode (lit "global")

-- `sprint` is fmt.Sprint.
module _ {F : Type 0} (sprint : Value F → Text) where
  -- One round of the loop over a document's services.
  unfoldable pub merge_service : Text × Value F → Dict Text MergedService → Dict Text MergedService
  merge_service (name, object svc) m =
      let ms = or_new (lookup name m) in
      put name
        (record {
          labels = put_all (service_labels sprint svc) ms.labels;
          is_global = new_mode (explicit_mode svc) ms.is_global;
        })
        m
  merge_service (name, _) m = m

  unfoldable pub merge_round :
      List (Text × Value F) → Dict Text MergedService → Dict Text MergedService
  merge_round [] m = m
  merge_round (s ∷ ss) m = merge_round ss (merge_service s m)

  unfoldable pub merge_doc :
      Option (Fields F) → Dict Text MergedService × Bool → Dict Text MergedService × Bool
  merge_doc none (m, has) = (m, has)
  merge_doc (some services) (m, has) = (merge_round (entries services) m, true)

  -- mergeServices, from what was merged before.
  unfoldable pub merge_services :
      List (Fields F) → Dict Text MergedService × Bool → Dict Text MergedService × Bool
  merge_services [] acc = acc
  merge_services (doc ∷ docs) acc =
      merge_services docs (merge_doc (object_at (lit "services") doc) acc)

-- parseUintLabel: 0 where there is no valid number.
unfoldable pub bound_label : Dict Text Text → Text → ℕ
bound_label labels key = elim (parse_uint (label labels key)) [ none ↦ 0 | some v ↦ v ]

-- The live count between the bounds; 0 is no bound.
unfoldable pub carried : ℕ → ℕ → ℕ → ℕ
carried live lo hi =
    let want = if ltb 0 hi && ltb hi live then hi else live in
    if ltb 0 lo && ltb want lo then lo else want

-- The count that a service is given, where the loop does not pass it over.
unfoldable pub live_count : Option StackService → MergedService → Option ℕ
live_count none ms = none
live_count (some ls) ms =
    if not ls.replicated
    then none
    else some
        (carried ls.replicas (bound_label ms.labels label_min) (bound_label ms.labels label_max))

unfoldable pub decide : Dict Text StackService → Text → MergedService → Option ℕ
decide live name ms =
    if ms.is_global
    then none
    else if not (text_eq (label ms.labels label_enabled) (lit "true"))
    then none
    else live_count (lookup name live) ms

module _ {F : Type 0} where
  unfoldable pub or_end : Option (Fields F) → Fields F
  or_end none = end
  or_end (some fs) = fs

  -- setReplicas
  unfoldable pub set_replicas : ℕ → Fields F → Fields F
  set_replicas n svc =
      set (lit "deploy")
        (object (set (lit "replicas") (uint n) (or_end (object_at (lit "deploy") svc)))) svc

  -- setReplicas on a document's declaration of a service, if it has one that is a map.
  unfoldable pub rewrite_in : Text → ℕ → Fields F → Fields F → Option (Fields F) → Fields F
  rewrite_in name n doc services none = doc
  rewrite_in name n doc services (some svc) =
      set (lit "services") (object (set name (object (set_replicas n svc)) services)) doc

  unfoldable pub rewrite_under : Text → ℕ → Fields F → Option (Fields F) → Fields F
  unfolding rewrite_in
  rewrite_under name n doc none = doc
  rewrite_under name n doc (some services) =
      rewrite_in name n doc services (object_at name services)

  unfoldable pub rewrite : Text → ℕ → Fields F → Fields F
  rewrite name n doc = rewrite_under name n doc (object_at (lit "services") doc)

  unfoldable pub rewrite_if : Text → Option ℕ → List (Fields F) × ℕ → List (Fields F) × ℕ
  rewrite_if name none (docs, changed) = (docs, changed)
  rewrite_if name (some n) (docs, changed) = (map (rewrite name n) docs, suc changed)

  -- The loop of ApplyCarryForwardGroup.
  unfoldable pub carry :
      Dict Text StackService → Dict Text MergedService → List (Fields F) × ℕ → List (Fields F) × ℕ
  carry live [] acc = acc
  carry live ((name, ms) ∷ merged) acc =
      carry live merged (rewrite_if name (decide live name ms) acc)

  -- ApplyCarryForwardGroup: the documents afterwards, and the number of services adjusted.
  unfoldable pub apply_carry_forward_group :
      (Value F → Text)
      → List (Fields F)
      → List StackService
      → Result CarryError (List (Fields F) × ℕ)
  apply_carry_forward_group sprint docs live =
      let (merged, has) = merge_services sprint docs ([], false) in
      if not has then err no_services else ok (carry (live_by_name live []) merged (docs, 0))
