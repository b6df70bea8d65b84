-- ===== src/Stackdeploy/CarryForward/Declared.antt =====
-- A service's declaration in a document, and what setting a count does to it.
use mathlib.Core.Option
use swarm_hpa.Base.{
  ℕ, ◌≡◌, refl, ap, ◌∙◌, Option, none, some, Text, text_eq, text_eq_iff, lit, text_keys, arith,
  if◌then◌else◌,
}
use swarm_hpa.Compose.Fields.{object, Fields, object_at, object_at-set, set}
use swarm_hpa.Stackdeploy.CarryForward.{set_replicas, rewrite, rewrite_in, rewrite_under}

module _ {F : Type 0} where
  -- A document's declaration of a service, where it has one that is a map.
  unfoldable pub declared_in : Text → Option (Fields F) → Option (Fields F)
  declared_in name none = none
  declared_in name (some services) = object_at name services

  unfoldable pub declared : Text → Fields F → Option (Fields F)
  declared name doc = declared_in name (object_at (lit "services") doc)

  declared-under :
      (k : Text) (doc : Fields F) (o : Option (Fields F))
      → object_at (lit "services") doc ≡ o
      → declared k doc ≡ declared_in k o
  unfolding declared
  declared-under k doc o e = ap (declared_in k) e

  rewrite-under :
      (name : Text) (n : ℕ) (doc : Fields F) (o : Option (Fields F))
      → object_at (lit "services") doc ≡ o
      → rewrite name n doc ≡ rewrite_under name n doc o
  unfolding rewrite
  rewrite-under name n doc o e = ap (rewrite_under name n doc) e

  declared-rewrite_in :
      (name k : Text) (n : ℕ) (doc services : Fields F) (o : Option (Fields F))
      → object_at (lit "services") doc ≡ some services
      → object_at name services ≡ o
      → declared k (rewrite_in name n doc services o) ≡ (
          if text_eq name k
          then Option.map (set_replicas n) (object_at k services)
          else object_at k services)
  unfolding rewrite_in declared_in text_eq
  declared-rewrite_in name k n doc services none e f =
      declared-under k doc (some services) e ∙ ground (arith, f, text_eq_iff name k)
  declared-rewrite_in name k n doc services (some svc) e f =
      let changed = set name (object (set_replicas n svc)) services in
      declared-under k (set (lit "services") (object changed) doc) (some changed)
        (object_at-set (lit "services") (lit "services") changed doc)
      ∙ object_at-set name k (set_replicas n svc) services
      ∙ ground (arith, f, text_eq_iff name k)

  -- Setting one service's count changes its declaration and no other.
  pub declared-rewrite :
      (name k : Text) (n : ℕ) (doc : Fields F)
      → declared k (rewrite name n doc)
        ≡ (if text_eq name k then Option.map (set_replicas n) (declared k doc) else declared k doc)
  unfolding rewrite_under declared_in
  declared-rewrite name k n doc = at (object_at (lit "services") doc) refl
    where
      at :
          (o : Option (Fields F))
          → object_at (lit "services") doc ≡ o
          → declared k (rewrite name n doc) ≡ (
              if text_eq name k
              then Option.map (set_replicas n) (declared k doc)
              else declared k doc)
      at none e =
          ap (declared k) (rewrite-under name n doc none e)
          ∙ rw (declared-under k doc none e) (ground arith)
      at (some services) e =
          ap (declared k) (rewrite-under name n doc (some services) e)
          ∙ declared-rewrite_in name k n doc services (object_at name services) e refl
          ∙ rw (declared-under k doc (some services) e) refl
