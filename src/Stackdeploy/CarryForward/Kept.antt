-- ===== src/Stackdeploy/CarryForward/Kept.antt =====
-- What a carry-forward does to every declaration of every service.
use mathlib.Core.Option
use mathlib.Core.Path.{ap₂}
use swarm_hpa.Base.{
  ℕ, ◌≡◌, refl, sym, ap, ◌∙◌, inl, inr, false, Option, none, some, List, [], ◌∷◌, map, Text,
  text_eq, text_eq_iff, lit, Dict, lookup, text_keys, IsDistinct, lookup-IsAbsent, ok, arith,
  Bool-cases, if◌then◌else◌,
}
use swarm_hpa.Model.{StackService}
use swarm_hpa.Compose.Fields.{end, Value, uint, object, Fields, object_at, set}
use swarm_hpa.Stackstatus.{live_by_name}
use swarm_hpa.Stackdeploy.CarryForward.Live.{LastNamed, live_by_name-LastNamed}
use swarm_hpa.Stackdeploy.CarryForward.Count.{Count, undeclared, decide-Count}
use swarm_hpa.Stackdeploy.CarryForward.{
  or_end, MergedService, merge_services, decide, set_replicas, rewrite, rewrite_if, carry,
  apply_carry_forward_group,
}
use swarm_hpa.Stackdeploy.CarryForward.Declared.{declared, declared-rewrite}
use swarm_hpa.Stackdeploy.CarryForward.Merged.{merge_services-IsDistinct}

module _ {F : Type 0} where
  -- What is written into a declaration of a service.
  abbrev pub written : Option ℕ → Option (Fields F) → Option (Fields F)
  written none o = o
  written (some n) o = Option.map (set_replicas n) o

or_end-end : {F : Type 0} (o : Option (Fields F)) → or_end o ≡ (elim o [ none ↦ end | some d ↦ d ])
unfolding or_end
or_end-end none = refl
or_end-end (some d) = refl

map-ext : {A B : Type 0} (f g : A → B) (xs : List A) → ((a : A) → f a ≡ g a) → map f xs ≡ map g xs
map-ext f g [] e = refl
map-ext f g (x ∷ xs) e = ap₂ ◌∷◌ (e x) (map-ext f g xs e)

module _ {F : Type 0} where
  -- A declaration with the count under `replicas` of its `deploy`, which is made where there is none.
  abbrev pub with_count : ℕ → Fields F → Fields F
  with_count n svc =
      set (lit "deploy")
        (object (
          set (lit "replicas") (uint n)
            (elim (object_at (lit "deploy") svc) [ none ↦ end | some d ↦ d ])))
        svc

  abbrev pub counted : Option ℕ → Option (Fields F) → Option (Fields F)
  counted none o = o
  counted (some n) o = Option.map (with_count n) o

  set_replicas-with_count : (n : ℕ) (svc : Fields F) → set_replicas n svc ≡ with_count n svc
  unfolding set_replicas
  set_replicas-with_count n svc =
      ap (λ (d : Fields F). set (lit "deploy") (object (set (lit "replicas") (uint n) d)) svc)
        (or_end-end (object_at (lit "deploy") svc))

  written-counted : (c : Option ℕ) (o : Option (Fields F)) → written c o ≡ counted c o
  written-counted none o = refl
  written-counted (some n) none = refl
  written-counted (some n) (some svc) = ap some (set_replicas-with_count n svc)

-- The count of a service, from the merged view and the live services.
abbrev pub count_for : Dict Text StackService → Option MergedService → Text → Option ℕ
count_for live none name = none
count_for live (some ms) name = decide live name ms

count_for-Count :
    (live : Dict Text StackService) (merged : Option MergedService) (name : Text)
    → Count (lookup name live) merged (count_for live merged name)
count_for-Count live none name = undeclared refl
count_for-Count live (some m) name = decide-Count live name m

module _ {F : Type 0} where
  round_map :
      (name k : Text) (n : ℕ) (docs : List (Fields F))
      → map (declared k) (map (rewrite name n) docs) ≡ (
          if text_eq name k
          then map (written (some n)) (map (declared k) docs)
          else map (declared k) docs)
  round_map name k n [] = ground arith
  round_map name k n (d ∷ docs) =
      ground (arith, round_map name k n docs, declared-rewrite name k n d)

  unwritten : (os : List (Option (Fields F))) → map (written none) os ≡ os
  unwritten [] = refl
  unwritten (o ∷ os) = ap (λ (l : List (Option (Fields F))). o ∷ l) (unwritten os)

  round :
      (name k : Text) (o : Option ℕ) (acc : List (Fields F) × ℕ)
      → map (declared k) (rewrite_if name o acc).0 ≡ (
          if text_eq name k
          then map (written o) (map (declared k) acc.0)
          else map (declared k) acc.0)
  unfolding rewrite_if
  round name k none (docs, c) = ground (arith, unwritten (map (declared k) docs))
  round name k (some n) (docs, c) = round_map name k n docs

  carry-declared :
      (live : Dict Text StackService) (merged : Dict Text MergedService) (acc : List (Fields F) × ℕ)
      (k : Text)
      → IsDistinct merged
      → map (declared k) (carry live merged acc).0
        ≡ map (written (count_for live (lookup k merged) k)) (map (declared k) acc.0)
  unfolding carry lookup
  carry-declared live [] acc k d = sym (unwritten (map (declared k) acc.0))
  carry-declared live ((name, ms) ∷ merged) acc k d =
      let before = round name k (decide live name ms) acc in
      let after = carry-declared live merged (rewrite_if name (decide live name ms) acc) k d.1 in
      elim (Bool-cases (text_eq name k)) [
        | inl own ↦
            let same : name ≡ k = (text_eq_iff name k).0 own in
            let gone : lookup k merged ≡ none =
              ap (λ (j : Text). lookup j merged) (sym same) ∙ lookup-IsAbsent name merged d.0 in
            after
            ∙ ap
                (λ (o : Option MergedService).
                  map (written (count_for live o k))
                    (map (declared k) (rewrite_if name (decide live name ms) acc).0))
                gone
            ∙ unwritten (map (declared k) (rewrite_if name (decide live name ms) acc).0)
            ∙ rw own at before
            ∙ rw own
                (ap (λ (j : Text). map (written (decide live j ms)) (map (declared k) acc.0)) same)
        | inr other ↦
            after
            ∙ ap (map (written (count_for live (lookup k merged) k))) (rw other at before)
            ∙ rw other refl
      ]

module _ {F : Type 0} (sprint : Value F → Text) where
  carry_forward-written :
      (docs docs' : List (Fields F)) (live : List StackService) (changed : ℕ) (name : Text)
      → apply_carry_forward_group sprint docs live ≡ ok (docs', changed)
      → map (declared name) docs' ≡ (
          let merged = (merge_services sprint docs ([], false)).0 in
          let count = count_for (live_by_name live []) (lookup name merged) name in
          map (written count) (map (declared name) docs))
  unfolding apply_carry_forward_group
  carry_forward-written docs docs' live changed name h =
      elim (Bool-cases (merge_services sprint docs ([], false)).1) [
        | inr none_there ↦ cc (rw none_there at h)
        | inl some_there ↦
            let merged = (merge_services sprint docs ([], false)).0 in
            let same : carry (live_by_name live []) merged (docs, 0) ≡ (docs', changed) =
              cc (rw some_there at h) in
            sym (ap (λ (p : List (Fields F) × ℕ). map (declared name) p.0) same)
            ∙ carry-declared (live_by_name live []) merged (docs, 0) name
                (merge_services-IsDistinct sprint docs ([], false) tt)
      ]

  -- A carry-forward that succeeds leaves every document's declaration of every service as it is, but for the
  -- services that are declared in the group, are not global and have the label swarm.autoscaler.enabled
  -- "true" in the group's merged view, and whose live service, the last of the name in the list, is replicated. Every document's declaration of such a
  -- service gets, under deploy.replicas, the live count, at most the number of the merged label
  -- swarm.autoscaler.max where that is not 0, and then at least the number of swarm.autoscaler.min; a label that is
  -- missing or no number counts as 0.
  pub carry_forward-declared :
      (docs docs' : List (Fields F)) (live : List StackService) (changed : ℕ) (name : Text)
      → apply_carry_forward_group sprint docs live ≡ ok (docs', changed)
      → (running : Option StackService) × (count : Option ℕ) × LastNamed live name running
        × Count running (lookup name (merge_services sprint docs ([], false)).0) count
        × (map (declared name) docs' ≡ map (counted count) (map (declared name) docs))
  carry_forward-declared docs docs' live changed name h =
      let found = lookup name (merge_services sprint docs ([], false)).0 in
      let count = count_for (live_by_name live []) found name in
      (
        lookup name (live_by_name live []),
        count,
        live_by_name-LastNamed live name,
        count_for-Count (live_by_name live []) found name,
        carry_forward-written docs docs' live changed name h
            ∙ map-ext (written count) (counted count) (map (declared name) docs)
                (written-counted count),
      )
