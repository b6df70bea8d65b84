-- ===== src/Gitops/Desired/Agreement.antt =====
-- The deployer and the drift snapshot read a merge group alike.
use mathlib.Core.Option
use swarm_hpa.Base.{
  ◌≡◌, refl, sym, ap, ◌∙◌, Bool, false, Option, none, some, List, [], ◌∷◌, Text, lit, Dict, lookup,
  put, text_keys, map_values, map_values-put, lookup-map_values, Float,
}
use swarm_hpa.Compose.Fields.{
  Value, null, boolean, int, uint, float, text, items, object, Fields, entries, object_at,
}
use swarm_hpa.Compose.Labels.{service_labels, flat_service_labels, service_labels-flat}
use swarm_hpa.Stackdeploy.CarryForward
use swarm_hpa.Stackdeploy.CarryForward.{
  MergedService, put_all, new_mode, explicit_mode, deploy_mode, filled_text, merge_service,
  merge_round, merge_doc, merge_services,
}
use swarm_hpa.Gitops.Desired
use swarm_hpa.Gitops.Desired.{
  MergedGroupService, put_labels, group_mode, explicit_service_mode, mode_in_deploy, filled,
  merge_group_service, merge_group_round, merge_group_doc, merge_group_services,
}

-- What decides who owns a service's count: its merged labels, and whether it is global.
pub record Owner : Type 0 where
  pub labels : Dict Text Text
  pub is_global : Bool

abbrev pub deployer_view : MergedService → Owner
deployer_view ms = record { labels = ms.labels; is_global = ms.is_global }

abbrev pub drift_view : MergedGroupService → Owner
drift_view ms = record { labels = ms.labels; is_global = ms.is_global }

put_all-labels : (kvs m : Dict Text Text) → put_all kvs m ≡ put_labels kvs m
unfolding put_all put_labels
put_all-labels [] m = refl
put_all-labels ((k, v) ∷ kvs) m = put_all-labels kvs (put k v m)

new_mode-group : (o : Option Text) (b : Bool) → new_mode o b ≡ group_mode o b
unfolding new_mode group_mode
new_mode-group none b = refl
new_mode-group (some s) b = refl

explicit_mode-service :
    {F : Type 0} (svc : Fields F) → explicit_mode svc ≡ explicit_service_mode svc
unfolding explicit_mode explicit_service_mode deploy_mode mode_in_deploy filled_text filled
explicit_mode-service svc = refl

or_new-views :
    (o : Option MergedService) (p : Option MergedGroupService)
    → Option.map deployer_view o ≡ Option.map drift_view p
    → deployer_view (CarryForward.or_new o) ≡ drift_view (Desired.or_new p)
unfolding CarryForward.or_new Desired.or_new
or_new-views none none h = refl
or_new-views none (some p) h = cc
or_new-views (some o) none h = cc
or_new-views (some o) (some p) h = cc

module _ {F : Type 0} ⦃fl : Float F⦄ (sprint : Value F → Text)
    (plain : (s : Text) → sprint (text s) ≡ s) where
  abbrev Alike : Dict Text MergedService → Dict Text MergedGroupService → Type 0
  Alike m p = map_values deployer_view m ≡ map_values drift_view p

  lookup-Alike :
      (name : Text) (m : Dict Text MergedService) (p : Dict Text MergedGroupService)
      → Alike m p
      → Option.map deployer_view (lookup name m) ≡ Option.map drift_view (lookup name p)
  lookup-Alike name m p h =
      sym (lookup-map_values deployer_view name m)
      ∙ ap (lookup name) h
      ∙ lookup-map_values drift_view name p

  service-Alike :
      (s : Text × Value F) (m : Dict Text MergedService) (p : Dict Text MergedGroupService)
      → Alike m p
      → Alike (merge_service sprint s m) (merge_group_service sprint s p)
  unfolding merge_service merge_group_service
  service-Alike (name, null) m p h = h
  service-Alike (name, boolean b) m p h = h
  service-Alike (name, int n) m p h = h
  service-Alike (name, uint n) m p h = h
  service-Alike (name, float x) m p h = h
  service-Alike (name, text s) m p h = h
  service-Alike (name, items vs) m p h = h
  service-Alike (name, object svc) m p h =
      let o = CarryForward.or_new (lookup name m) in
      let q = Desired.or_new (lookup name p) in
      let same : deployer_view o ≡ drift_view q =
        or_new-views (lookup name m) (lookup name p) (lookup-Alike name m p h) in
      let labels_same : put_all (service_labels sprint svc) o.labels
          ≡ put_labels (flat_service_labels sprint svc) q.labels =
        ap (λ (l : Dict Text Text). put_all l o.labels) (service_labels-flat sprint plain svc)
        ∙ put_all-labels (flat_service_labels sprint svc) o.labels
        ∙ ap (λ (v : Owner). put_labels (flat_service_labels sprint svc) v.labels) same in
      let mode_same : new_mode (explicit_mode svc) o.is_global
          ≡ group_mode (explicit_service_mode svc) q.is_global =
        new_mode-group (explicit_mode svc) o.is_global
        ∙ ap (λ (v : Option Text). group_mode v o.is_global) (explicit_mode-service svc)
        ∙ ap (λ (v : Owner). group_mode (explicit_service_mode svc) v.is_global) same in
      let view_same : deployer_view (record {
        labels = put_all (service_labels sprint svc) o.labels;
        is_global = new_mode (explicit_mode svc) o.is_global;
      })
          ≡ record {
            labels = put_labels (flat_service_labels sprint svc) q.labels;
            is_global = group_mode (explicit_service_mode svc) q.is_global;
          } =
        rw (labels_same, mode_same) refl in
      map_values-put deployer_view name _ m
      ∙ ap (λ (v : Owner). put name v (map_values deployer_view m)) view_same
      ∙ ap (put name _) h
      ∙ sym (map_values-put drift_view name _ p)

  round-Alike :
      (ss : List (Text × Value F)) (m : Dict Text MergedService) (p : Dict Text MergedGroupService)
      → Alike m p
      → Alike (merge_round sprint ss m) (merge_group_round sprint ss p)
  unfolding merge_round merge_group_round
  round-Alike [] m p h = h
  round-Alike (s ∷ ss) m p h =
      round-Alike ss (merge_service sprint s m) (merge_group_service sprint s p)
        (service-Alike s m p h)

  doc-Alike :
      (o : Option (Fields F)) (m : Dict Text MergedService) (has : Bool)
      (p : Dict Text MergedGroupService)
      → Alike m p
      → Alike (merge_doc sprint o (m, has)).0 (merge_group_doc sprint o p)
  unfolding merge_doc merge_group_doc
  doc-Alike none m has p h = h
  doc-Alike (some services) m has p h = round-Alike (entries services) m p h

  services-Alike :
      (docs : List (Fields F)) (acc : Dict Text MergedService × Bool)
      (p : Dict Text MergedGroupService)
      → Alike acc.0 p
      → Alike (merge_services sprint docs acc).0 (merge_group_services sprint docs p)
  unfolding merge_services merge_group_services
  services-Alike [] acc p h = h
  services-Alike (doc ∷ docs) acc p h =
      let o = object_at (lit "services") doc in
      services-Alike docs (merge_doc sprint o acc) (merge_group_doc sprint o p)
        (doc-Alike o acc.0 acc.1 p h)

  -- Where fmt.Sprint prints a string as itself, the deployer's merged view of a group and that of the drift
  -- snapshot have the same services, each with the same labels and the same answer to whether it is
  -- global, so the two never disagree on who owns a count.
  pub merge_services-group :
      (docs : List (Fields F))
      → map_values deployer_view (merge_services sprint docs ([], false)).0
        ≡ map_values drift_view (merge_group_services sprint docs [])
  unfolding map_values
  merge_services-group docs = services-Alike docs ([], false) [] refl
