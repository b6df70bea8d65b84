-- ===== src/Placement/Meaning.antt =====
-- What the verdict of `node_satisfies` means.
use mathlib.Core.Path.{subst}
use swarm_hpa.Base.{
  ◌≡◌, ◌≢◌, ◌↔◌, inl, inr, refl, true, false, ◌&&◌, none, some, List, [], ◌∷◌, ◌++◌, arith, Text,
  text_eq, text_eq_iff, In, Bool-cases, Option-cases, ap, lookup, text_keys, has_prefix, drop,
}
use swarm_hpa.Model.{NodeView}
use swarm_hpa.Placement.Reading.{
  ReadsAs, Spells, parse-Spells, Spells-parse, value-ReadsAs, ReadsAs-value,
}
use swarm_hpa.Placement.{
  Op, op_eq, op_neq, Constraint, parse_constraint, node_value, holds, admits, node_satisfies,
  label_key_prefix, label_value,
}

-- The constraint is one that can be assessed, and the value that it reads of the node breaks it.
pub data Violates (n : NodeView) (c : Text) : Type 0 where
  unequal :
      (key value actual : Text)
      → Spells c key value op_eq
      → ReadsAs n key actual
      → actual ≢ value
      → Violates n c
  equal : (key value : Text) → Spells c key value op_neq → ReadsAs n key value → Violates n c

violation :
    (n : NodeView) (c key value actual : Text) (o : Op)
    → Spells c key value o
    → ReadsAs n key actual
    → holds o (text_eq actual value) ≡ false
    → Violates n c
unfolding holds
violation n c key value actual op_eq s r h =
    unequal key value actual s r (ground (arith, text_eq_iff actual value))
violation n c key value actual op_neq s r h =
    let same : actual ≡ value = ground (arith, text_eq_iff actual value) in
    equal key value s (subst (ReadsAs n key) same r)

-- One round of the loop, in both directions.
admits-Violates : (n : NodeView) (c : Text) → admits n c ≡ false → Violates n c
unfolding admits
admits-Violates n c h = elim (Option-cases (parse_constraint c)) [
  | inl e ↦ absurd (ground (arith, e))
  | inr (p, e) ↦ elim (Option-cases (node_value n p.key)) [
    | inl u ↦ absurd (ground (arith, e, u))
    | inr (actual, v) ↦
        violation n c p.key p.value actual p.op (parse-Spells c p e)
          (value-ReadsAs n p.key actual v) (ground (arith, e, v))
  ]
]

Violates-admits : (n : NodeView) (c : Text) → Violates n c → admits n c ≡ false
unfolding admits holds
Violates-admits n c (unequal key value actual s r ne) = ground (
  arith,
  Spells-parse c key value op_eq s,
  ReadsAs-value n key actual r,
  text_eq_iff actual value,
)
Violates-admits n c (equal key value s r) =
    ground (
      arith,
      Spells-parse c key value op_neq s,
      ReadsAs-value n key value r,
      text_eq_iff value value,
    )

refused :
    (n : NodeView) (cs : List Text)
    → node_satisfies n cs ≡ false
    → (c : Text) × In c cs × Violates n c
unfolding node_satisfies
refused n [] h = cc
refused n (c ∷ cs) h = elim (Bool-cases (admits n c)) [
  | inl ok ↦ let (d, m, v) = refused n cs (ground (arith, ok)) in (d, inr m, v)
  | inr bad ↦ (c, inl refl, admits-Violates n c bad)
]

refuses :
    (n : NodeView) (cs : List Text)
    → ((c : Text) × In c cs × Violates n c)
    → node_satisfies n cs ≡ false
unfolding node_satisfies
refuses n [] (d, m, v) = absurd m
refuses n (c ∷ cs) (d, inl e, v) = ground (arith, Violates-admits n d v)
refuses n (c ∷ cs) (d, inr m, v) = ground (arith, refuses n cs (d, m, v))

-- A node is refused exactly when one of the constraints has a key, an operator and a value, and the value that the
-- key reads of the node (its hostname, its id, or a label's value, which is empty where the label is missing) is
-- another than that of an `==`, or the one of a `!=`.
pub node_satisfies-Violates :
    (n : NodeView) (cs : List Text)
    → (node_satisfies n cs ≡ false) ↔ ((c : Text) × In c cs × Violates n c)
node_satisfies-Violates n cs = (refused n cs, refuses n cs)

-- Constraints are a conjunction.
pub node_satisfies-append :
    (n : NodeView) (cs ds : List Text)
    → node_satisfies n (cs ++ ds) ≡ (node_satisfies n cs && node_satisfies n ds)
unfolding node_satisfies
node_satisfies-append n [] ds = refl
node_satisfies-append n (c ∷ cs) ds = ground (arith, node_satisfies-append n cs ds)

node_value-label :
    (n : NodeView) (name : Text)
    → node_value n (label_key_prefix ++ name) ≡ some (label_value (lookup name n.labels))
unfolding node_value text_eq has_prefix drop
node_value-label n name = refl

-- A label that the node does not carry reads as the empty text: with a value that is not empty, a
-- constraint on it admits the node exactly when its operator is `!=`.
admits-absent_label :
    (n : NodeView) (c name : Text) (p : Constraint)
    → parse_constraint c ≡ some p
    → p.key ≡ label_key_prefix ++ name
    → p.value ≢ []
    → lookup name n.labels ≡ none
    → (admits n c ≡ true) ↔ (p.op ≡ op_neq)
unfolding admits label_value holds
admits-absent_label n c name p hp hk hv hl =
    ground (arith, node_value-label n name, text_eq_iff [] p.value, ap (node_value n) hk)
