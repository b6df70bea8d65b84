-- ===== src/Stackdeploy/CarryForward/Merged.antt =====
-- The merged view of a group holds each service once.
use swarm_hpa.Base.{
  Bool, Option, none, some, List, [], ◌∷◌, Text, lit, Dict, text_keys, IsDistinct, put-IsDistinct,
}
use swarm_hpa.Compose.Fields.{
  Value, null, boolean, int, uint, float, text, items, object, Fields, entries, object_at,
}
use swarm_hpa.Stackdeploy.CarryForward.{
  MergedService, merge_service, merge_round, merge_doc, merge_services,
}

module _ {F : Type 0} (sprint : Value F → Text) where
  merge_service-IsDistinct :
      (s : Text × Value F) (m : Dict Text MergedService)
      → IsDistinct m
      → IsDistinct (merge_service sprint s m)
  unfolding merge_service
  merge_service-IsDistinct (name, null) m d = d
  merge_service-IsDistinct (name, boolean b) m d = d
  merge_service-IsDistinct (name, int n) m d = d
  merge_service-IsDistinct (name, uint n) m d = d
  merge_service-IsDistinct (name, float x) m d = d
  merge_service-IsDistinct (name, text s) m d = d
  merge_service-IsDistinct (name, items vs) m d = d
  merge_service-IsDistinct (name, object svc) m d = put-IsDistinct name _ m d

  merge_round-IsDistinct :
      (ss : List (Text × Value F)) (m : Dict Text MergedService)
      → IsDistinct m
      → IsDistinct (merge_round sprint ss m)
  unfolding merge_round
  merge_round-IsDistinct [] m d = d
  merge_round-IsDistinct (s ∷ ss) m d =
      merge_round-IsDistinct ss (merge_service sprint s m) (merge_service-IsDistinct s m d)

  merge_doc-IsDistinct :
      (o : Option (Fields F)) (acc : Dict Text MergedService × Bool)
      → IsDistinct acc.0
      → IsDistinct (merge_doc sprint o acc).0
  unfolding merge_doc
  merge_doc-IsDistinct none (m, has) d = d
  merge_doc-IsDistinct (some services) (m, has) d = merge_round-IsDistinct (entries services) m d

  pub merge_services-IsDistinct :
      (docs : List (Fields F)) (acc : Dict Text MergedService × Bool)
      → IsDistinct acc.0
      → IsDistinct (merge_services sprint docs acc).0
  unfolding merge_services
  merge_services-IsDistinct [] acc d = d
  merge_services-IsDistinct (doc ∷ docs) acc d =
      merge_services-IsDistinct docs (merge_doc sprint (object_at (lit "services") doc) acc)
        (merge_doc-IsDistinct (object_at (lit "services") doc) acc d)
