-- ===== src/Compose/Labels.antt =====
-- The labels of a compose service, in the two forms that the program flattens them: as
-- serviceLabels in internal/adapter/stackdeploy/carryforward.go, and as flatServiceLabels in
-- internal/app/gitopsync/loop.go.
use swarm_hpa.Base.{
  suc, ◌≡◌, refl, ap, ◌∙◌, Option, none, some, List, [], ◌∷◌, Text, lit, Dict, put, text_keys,
  index, take, drop, arith,
}
use swarm_hpa.Compose.Fields.{
  Value, null, boolean, int, uint, float, text, items, object, Fields, get, entries, listed,
  object_at,
}

-- strings.Cut(s, "=")
unfoldable pub cut : Text → Option (Text × Text)
cut s = elim (index (lit "=") s) [ none ↦ none | some i ↦ some (take i s, drop (suc i) s) ]

-- `sprint` is fmt.Sprint.
module _ {F : Type 0} (sprint : Value F → Text) where
  -- A label that the list form spells: the part behind `=`, or "true".
  unfoldable pub spelled : Value F → Text × Text
  unfolding cut
  spelled v = elim (cut (sprint v)) [ none ↦ (sprint v, lit "true") | some (k, w) ↦ (k, w) ]

  -- The closure `merge` of serviceLabels, over its two forms of labels.
  unfoldable pub merge_fields : List (Text × Value F) → Dict Text (Value F) → Dict Text (Value F)
  merge_fields [] m = m
  merge_fields ((k, v) ∷ kvs) m = merge_fields kvs (put k v m)

  unfoldable pub merge_items : List (Value F) → Dict Text (Value F) → Dict Text (Value F)
  unfolding spelled
  merge_items [] m = m
  merge_items (v ∷ vs) m = merge_items vs (put (spelled v).0 (text (spelled v).1) m)

  unfoldable pub merge_labels : Option (Value F) → Dict Text (Value F) → Dict Text (Value F)
  merge_labels (some (object fs)) m = merge_fields (entries fs) m
  merge_labels (some (items vs)) m = merge_items (listed vs) m
  merge_labels _ m = m

  unfoldable pub print_all : Dict Text (Value F) → Dict Text Text
  print_all [] = []
  print_all ((k, v) ∷ m) = (k, sprint v) ∷ print_all m

  -- d["labels"] of the deploy map, where there is one.
  unfoldable pub deploy_labels : Fields F → Option (Value F)
  deploy_labels svc = elim (object_at (lit "deploy") svc) [
    | none ↦ none
    | some d ↦ get (lit "labels") d
  ]

  -- serviceLabels
  unfoldable pub service_labels : Fields F → Dict Text Text
  service_labels svc =
      print_all (merge_labels (deploy_labels svc) (merge_labels (get (lit "labels") svc) []))

  -- The closure `collect` of flatServiceLabels.
  unfoldable pub collect_fields : List (Text × Value F) → Dict Text Text → Dict Text Text
  collect_fields [] m = m
  collect_fields ((k, v) ∷ kvs) m = collect_fields kvs (put k (sprint v) m)

  unfoldable pub collect_items : List (Value F) → Dict Text Text → Dict Text Text
  unfolding spelled
  collect_items [] m = m
  collect_items (v ∷ vs) m = collect_items vs (put (spelled v).0 (spelled v).1 m)

  unfoldable pub collect_labels : Option (Value F) → Dict Text Text → Dict Text Text
  collect_labels (some (object fs)) m = collect_fields (entries fs) m
  collect_labels (some (items vs)) m = collect_items (listed vs) m
  collect_labels _ m = m

  -- flatServiceLabels
  unfoldable pub flat_service_labels : Fields F → Dict Text Text
  flat_service_labels svc =
      collect_labels (deploy_labels svc) (collect_labels (get (lit "labels") svc) [])

  put-print_all :
      (k : Text) (v : Value F) (m : Dict Text (Value F))
      → print_all (put k v m) ≡ put k (sprint v) (print_all m)
  unfolding print_all put
  put-print_all k v [] = refl
  put-print_all k v ((j, w) ∷ m) = ground (arith, put-print_all k v m)

  module _ (plain : (s : Text) → sprint (text s) ≡ s) where
    merge_fields-print :
        (kvs : List (Text × Value F)) (m : Dict Text (Value F))
        → print_all (merge_fields kvs m) ≡ collect_fields kvs (print_all m)
    unfolding merge_fields collect_fields
    merge_fields-print [] m = refl
    merge_fields-print ((k, v) ∷ kvs) m =
        merge_fields-print kvs (put k v m) ∙ ap (collect_fields kvs) (put-print_all k v m)

    merge_items-print :
        (vs : List (Value F)) (m : Dict Text (Value F))
        → print_all (merge_items vs m) ≡ collect_items vs (print_all m)
    unfolding merge_items collect_items
    merge_items-print [] m = refl
    merge_items-print (v ∷ vs) m =
        merge_items-print vs (put (spelled v).0 (text (spelled v).1) m)
        ∙ ap (collect_items vs) (
            put-print_all (spelled v).0 (text (spelled v).1) m
            ∙ ap (λ (s : Text). put (spelled v).0 s (print_all m)) (plain (spelled v).1))

    merge_labels-print :
        (o : Option (Value F)) (m : Dict Text (Value F))
        → print_all (merge_labels o m) ≡ collect_labels o (print_all m)
    unfolding merge_labels collect_labels
    merge_labels-print none m = refl
    merge_labels-print (some null) m = refl
    merge_labels-print (some (boolean b)) m = refl
    merge_labels-print (some (int n)) m = refl
    merge_labels-print (some (uint n)) m = refl
    merge_labels-print (some (float x)) m = refl
    merge_labels-print (some (text s)) m = refl
    merge_labels-print (some (items vs)) m = merge_items-print (listed vs) m
    merge_labels-print (some (object fs)) m = merge_fields-print (entries fs) m

    -- Where fmt.Sprint prints a string as itself, the two flattenings of a service's labels agree.
    pub service_labels-flat : (svc : Fields F) → service_labels svc ≡ flat_service_labels svc
    unfolding service_labels flat_service_labels print_all
    service_labels-flat svc =
        let inner = merge_labels (get (lit "labels") svc) [] in
        merge_labels-print (deploy_labels svc) inner
        ∙ ap (collect_labels (deploy_labels svc)) (merge_labels-print (get (lit "labels") svc) [])
