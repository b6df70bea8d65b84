-- ===== src/Placement/Reading.antt =====
-- What a constraint says, and what it reads of a node, apart from the parser and the evaluator.
use mathlib.Core.Path.{subst}
use swarm_hpa.Base.{
  prefix_rest, ◌||◌, if◌then◌else◌, ℕ, ◌+◌, ◌≡◌, ◌≢◌, refl, sym, ap, ◌∙◌, inl, inr, none, some, [],
  ◌++◌, arith, Text, text_eq, text_eq_iff, lit, lookup, text_keys, index, take, drop, trim_space,
  has_prefix, Bool-cases, Option-cases,
}
use swarm_hpa.Model.{NodeView}
use swarm_hpa.Placement.{
  Op, op_eq, op_neq, Constraint, split_at, parse_constraint, node_value, label_value, key_hostname,
  key_id, label_key_prefix,
}

-- The value of a node under a key that the evaluator knows.
pub data ReadsAs (n : NodeView) (key : Text) : Text → Type 0 where
  hostname : key ≡ lit "node.hostname" → ReadsAs n key n.name
  identity : key ≡ lit "node.id" → ReadsAs n key n.id
  labelled :
      (name v : Text)
      → key ≡ lit "node.labels." ++ name
      → lookup name n.labels ≡ some v
      → ReadsAs n key v
  unlabelled :
      (name : Text)
      → key ≡ lit "node.labels." ++ name
      → lookup name n.labels ≡ none
      → ReadsAs n key []

-- The constraint has an operator, and on its two sides, but for space around them, a key and a value that
-- are not empty; the first `==` is the operator, or the first `!=` where there is no `==`.
pub data Spells (c key value : Text) : Op → Type 0 where
  with_eq :
      (i : ℕ)
      → index (lit "==") c ≡ some i
      → key ≡ trim_space (take i c)
      → value ≡ trim_space (drop (i + 2) c)
      → key ≢ []
      → value ≢ []
      → Spells c key value op_eq
  with_neq :
      (i : ℕ)
      → index (lit "==") c ≡ none
      → index (lit "!=") c ≡ some i
      → key ≡ trim_space (take i c)
      → value ≡ trim_space (drop (i + 2) c)
      → key ≢ []
      → value ≢ []
      → Spells c key value op_neq

pub Spells-parse :
    (c key value : Text) (o : Op)
    → Spells c key value o
    → parse_constraint c ≡ some (record { key = key; op = o; value = value })
unfolding parse_constraint split_at
Spells-parse c key value o (with_eq i e k v nk nv) =
    ground (arith, e, k, v, text_eq_iff key [], text_eq_iff value [])
Spells-parse c key value o (with_neq i a e k v nk nv) =
    ground (arith, a, e, k, v, text_eq_iff key [], text_eq_iff value [])

parts_of-Spells :
    (c : Text) (i : ℕ) (o : Op) (p : Constraint)
    → (let key = trim_space (take i c) in
        let value = trim_space (drop (i + 2) c) in
        (if text_eq key [] || text_eq value []
          then none
          else some (record { key = key; op = o; value = value }))
        ≡ some p)
    → (o ≡ p.op)
      × (p.key ≡ trim_space (take i c))
      × (p.value ≡ trim_space (drop (i + 2) c))
      × (p.key ≢ [])
      × (p.value ≢ [])
parts_of-Spells c i o p h =
    let key = trim_space (take i c) in
    let value = trim_space (drop (i + 2) c) in
    ground (arith, h, text_eq_iff key [], text_eq_iff value [])

pub parse-Spells :
    (c : Text) (p : Constraint) → parse_constraint c ≡ some p → Spells c p.key p.value p.op
unfolding parse_constraint split_at
parse-Spells c p h = elim (Option-cases (index (lit "==") c)) [
  | inr (i, e) ↦
      let (o, k, v, nk, nv) = parts_of-Spells c i op_eq p (ground (arith, h, e)) in
      subst (Spells c p.key p.value) o (with_eq i e k v nk nv)
  | inl a ↦ elim (Option-cases (index (lit "!=") c)) [
    | inl b ↦ absurd (ground (arith, h, a, b))
    | inr (i, e) ↦
        let (o, k, v, nk, nv) = parts_of-Spells c i op_neq p (ground (arith, h, a, e)) in
        subst (Spells c p.key p.value) o (with_neq i a e k v nk nv)
  ]
]

at_hostname : (n : NodeView) → node_value n (lit "node.hostname") ≡ some n.name
unfolding node_value text_eq
at_hostname n = refl

at_id : (n : NodeView) → node_value n (lit "node.id") ≡ some n.id
unfolding node_value text_eq
at_id n = refl

at_label :
    (n : NodeView) (name : Text)
    → node_value n (lit "node.labels." ++ name) ≡ some (label_value (lookup name n.labels))
unfolding node_value text_eq has_prefix drop
at_label n name = refl

label_value-of :
    (n : NodeView) (key name : Text)
    → key ≡ lit "node.labels." ++ name
    → node_value n key ≡ some (label_value (lookup name n.labels))
label_value-of n key name e = ap (node_value n) e ∙ at_label n name

label-ReadsAs :
    (n : NodeView) (key name v : Text)
    → key ≡ lit "node.labels." ++ name
    → some (label_value (lookup name n.labels)) ≡ some v
    → ReadsAs n key v
unfolding label_value
label-ReadsAs n key name v e h = elim (Option-cases (lookup name n.labels)) [
  | inl l ↦ let s : [] ≡ v = ground (arith, h, l) in subst (ReadsAs n key) s (unlabelled name e l)
  | inr (w, l) ↦
      let s : w ≡ v = ground (arith, h, l) in subst (ReadsAs n key) s (labelled name w e l)
]

pub value-ReadsAs : (n : NodeView) (key v : Text) → node_value n key ≡ some v → ReadsAs n key v
unfolding node_value
value-ReadsAs n key v h = elim (Bool-cases (text_eq key key_hostname)) [
  | inl a ↦
      let e : n.name ≡ v = ground (arith, h, a) in
      subst (ReadsAs n key) e (hostname ((text_eq_iff key key_hostname).0 a))
  | inr a ↦ elim (Bool-cases (text_eq key key_id)) [
    | inl b ↦
        let e : n.id ≡ v = ground (arith, h, a, b) in
        subst (ReadsAs n key) e (identity ((text_eq_iff key key_id).0 b))
    | inr b ↦ elim (Bool-cases (has_prefix label_key_prefix key)) [
      | inr c ↦ absurd (ground (arith, h, a, b, c))
      | inl c ↦
          let (name, e) = prefix_rest label_key_prefix key c in
          label-ReadsAs n key name v e (sym (label_value-of n key name e) ∙ h)
    ]
  ]
]

pub ReadsAs-value : (n : NodeView) (key v : Text) → ReadsAs n key v → node_value n key ≡ some v
unfolding label_value
ReadsAs-value n key v (hostname e) = ap (node_value n) e ∙ at_hostname n
ReadsAs-value n key v (identity e) = ap (node_value n) e ∙ at_id n
ReadsAs-value n key v (labelled name v' e l) =
    label_value-of n key name e ∙ ap (λ o. some (label_value o)) l
ReadsAs-value n key v (unlabelled name e l) =
    label_value-of n key name e ∙ ap (λ o. some (label_value o)) l
