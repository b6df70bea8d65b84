-- ===== src/Placement.antt =====
-- internal/core/placement/placement.go: can a node meet a service's placement constraints?
pub mod Reading
pub mod Parsing
pub mod Meaning
use swarm_hpa.Base.{
  Bool, true, false, not, Option, none, some, List, [], ◌∷◌, Text, text_eq, lit, lookup, index,
  take, drop, trim_space, has_prefix, length, if◌then◌else◌, ◌+◌, ◌||◌, text_keys,
}
use swarm_hpa.Model.{NodeView}

-- opEq and opNeq
pub data Op : Type 0 where
  op_eq op_neq : Op

abbrev pub op_text : Op → Text
op_text op_eq = lit "=="
op_text op_neq = lit "!="

abbrev pub key_hostname : Text
key_hostname = lit "node.hostname"

abbrev pub key_id : Text
key_id = lit "node.id"

abbrev pub label_key_prefix : Text
label_key_prefix = lit "node.labels."

-- The value of a label; a missing key reads as the empty text.
unfoldable pub label_value : Option Text → Text
label_value none = []
label_value (some v) = v

-- nodeValue; `none` is `known == false`.
unfoldable pub node_value : NodeView → Text → Option Text
unfolding label_value
node_value n key =
    if text_eq key key_hostname
    then some n.name
    else if text_eq key key_id
    then some n.id
    else if has_prefix label_key_prefix key
    then some (label_value (lookup (drop (length label_key_prefix) key) n.labels))
    else none

pub record Constraint : Type 0 where
  pub key : Text
  pub op : Op
  pub value : Text

-- The key and the value of an operator found at `i`; nothing if one of them is empty.
unfoldable pub split_at : Op → Text → Option (Option Constraint)
split_at o raw = elim (index (op_text o) raw) [
  | none ↦ none
  | some i ↦
      let key = trim_space (take i raw) in
      let value = trim_space (drop (i + length (op_text o)) raw) in
      if text_eq key [] || text_eq value []
      then some none
      else some (some (record { key = key; op = o; value = value }))
]

-- parseConstraint: the first of `==` and `!=` that is found decides; `none` is `ok == false`.
unfoldable pub parse_constraint : Text → Option Constraint
parse_constraint raw = elim (split_at op_eq raw) [
  | some r ↦ r
  | none ↦ elim (split_at op_neq raw) [ some r ↦ r | none ↦ none ]
]

-- The switch on the operator, at a value that is known.
unfoldable pub holds : Op → Bool → Bool
holds op_eq equal = equal
holds op_neq equal = not equal

-- One round of the loop: false where it returns false.
unfoldable pub admits : NodeView → Text → Bool
unfolding parse_constraint node_value holds
admits n c = elim (parse_constraint c) [
  | none ↦ true
  | some p ↦ elim (node_value n p.key) [
    | none ↦ true
    | some actual ↦ holds p.op (text_eq actual p.value)
  ]
]

-- NodeSatisfies
unfoldable pub node_satisfies : NodeView → List Text → Bool
unfolding admits
node_satisfies n [] = true
node_satisfies n (c ∷ cs) = let rest = node_satisfies n cs in if admits n c then rest else false
