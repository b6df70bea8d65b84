-- ===== src/TaskErrors/Classify.antt =====
-- internal/core/taskerrors/classify.go
use swarm_hpa.Base.{
  Bool-cases, inl, inr, ◌≡◌, ◌↔◌, Bool, false, ◌&&◌, arith, Text, lit, contains, Occurs,
  contains_iff, if◌then◌else◌, ltb, length,
}

pub data Class : Type 0 where
  vxlan_file_exists_class network_sandbox_join other : Class

-- The label values of the classes.
abbrev pub class_text : Class → Text
class_text vxlan_file_exists_class = lit "vxlan_file_exists"
class_text network_sandbox_join = lit "network_sandbox_join_failed"
class_text other = lit "other"

abbrev pub vxlan_file_exists : Text
vxlan_file_exists = lit "error creating vxlan interface: file exists"

abbrev pub sandbox_join_failed : Text
sandbox_join_failed = lit "network sandbox join failed"

-- contains of classify.go, with the text first.
unfoldable pub contains_text : Text → Text → Bool
contains_text s substr = ltb 0 (length substr) && contains substr s

-- Classify
unfoldable pub classify : Text → Class
unfolding contains_text
classify err =
    if contains_text err vxlan_file_exists
    then vxlan_file_exists_class
    else if contains_text err sandbox_join_failed
    then network_sandbox_join
    else other

absent : (p s : Text) → contains p s ≡ false → ¬ Occurs p s
absent p s h o = cc (h, (contains_iff p s).1 o)

-- An error is of the vxlan class exactly when the vxlan text occurs in it, of the sandbox class exactly
-- when the sandbox text occurs and the vxlan text does not, and of the other class exactly when
-- neither occurs.
pub classify-Occurs :
    (err : Text)
    → ((classify err ≡ vxlan_file_exists_class) ↔ Occurs vxlan_file_exists err)
      × ((classify err ≡ network_sandbox_join)
          ↔ (Occurs sandbox_join_failed err × ¬ Occurs vxlan_file_exists err))
      × ((classify err ≡ other)
          ↔ (¬ Occurs sandbox_join_failed err × ¬ Occurs vxlan_file_exists err))
unfolding classify
classify-Occurs err = elim (Bool-cases (contains vxlan_file_exists err)) [
  | inl v ↦
      let ov = (contains_iff vxlan_file_exists err).0 v in
      (
        (λ _. ov, λ _. ground (arith, v)),
        (λ e. absurd (ground (arith, v)), λ p. absurd (p.1 ov)),
        (λ e. absurd (ground (arith, v)), λ p. absurd (p.1 ov)),
      )
  | inr v ↦
      let nv = absent vxlan_file_exists err v in
      elim (Bool-cases (contains sandbox_join_failed err)) [
        | inl s ↦
            let os = (contains_iff sandbox_join_failed err).0 s in
            (
              (λ e. absurd (ground (arith, v, s)), λ o. absurd (nv o)),
              (λ _. (os, nv), λ _. ground (arith, v, s)),
              (λ e. absurd (ground (arith, v, s)), λ p. absurd (p.0 os)),
            )
        | inr s ↦
            let ns = absent sandbox_join_failed err s in
            (
              (λ e. absurd (ground (arith, v, s)), λ o. absurd (nv o)),
              (λ e. absurd (ground (arith, v, s)), λ p. absurd (ns p.0)),
              (λ _. (ns, nv), λ _. ground (arith, v, s)),
            )
      ]
]
