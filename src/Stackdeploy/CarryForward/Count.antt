-- ===== src/Stackdeploy/CarryForward/Count.antt =====
-- Which services of a group are carried forward, and to what count.
use Prim.Native.Nat.{min, max}
use mathlib.Core.Path.{subst}
use swarm_hpa.Base.{
  ℕ, ◌≡◌, ◌≢◌, refl, sym, not, ap, inl, inr, Bool, true, false, Option, none, some, [], Text,
  text_eq, text_eq_iff, lit, Dict, lookup, text_keys, parse_uint, nat_eq, arith, Option-cases,
  if◌then◌else◌,
}
use swarm_hpa.Model.{StackService}
use swarm_hpa.Config.Labels.{label, label_enabled, label_min, label_max}
use swarm_hpa.Stackdeploy.CarryForward.{MergedService, bound_label, carried, live_count, decide}

-- The number of a label; 0 where there is none, or none that is a number.
pub data Bound (labels : Dict Text Text) (key : Text) : ℕ → Type 0 where
  given :
      (s : Text) (n : ℕ) → lookup key labels ≡ some s → parse_uint s ≡ some n → Bound labels key n
  unreadable : (s : Text) → lookup key labels ≡ some s → parse_uint s ≡ none → Bound labels key 0
  missing : lookup key labels ≡ none → Bound labels key 0

-- The count of a service, from the live service and from its merged declaration.
pub data Count (live : Option StackService) (merged : Option MergedService)
    : Option ℕ → Type 0 where
  undeclared : merged ≡ none → Count live merged none
  global : (m : MergedService) → merged ≡ some m → m.is_global ≡ true → Count live merged none
  not_autoscaled :
      (m : MergedService)
      → merged ≡ some m
      → lookup (lit "swarm.autoscaler.enabled") m.labels ≢ some (lit "true")
      → Count live merged none
  not_live : live ≡ none → Count live merged none
  not_replicated :
      (s : StackService) → live ≡ some s → s.replicated ≡ false → Count live merged none
  bounded :
      (m : MergedService) (s : StackService) (lo hi : ℕ)
      → merged ≡ some m
      → m.is_global ≡ false
      → lookup (lit "swarm.autoscaler.enabled") m.labels ≡ some (lit "true")
      → live ≡ some s
      → s.replicated ≡ true
      → Bound m.labels (lit "swarm.autoscaler.min") lo
      → Bound m.labels (lit "swarm.autoscaler.max") hi
      → Count live merged (some (max lo (if nat_eq hi 0 then s.replicas else min hi s.replicas)))

text_true :
    (o : Option Text)
    → text_eq (elim o [ none ↦ [] | some raw ↦ raw ]) (lit "true") ≡ true
    → o ≡ some (lit "true")
unfolding text_eq
text_true none h = absurd (ground (arith, h))
text_true (some raw) h = ap some ((text_eq_iff raw (lit "true")).0 h)

text_not_true :
    (o : Option Text)
    → text_eq (elim o [ none ↦ [] | some raw ↦ raw ]) (lit "true") ≡ false
    → o ≢ some (lit "true")
unfolding text_eq
text_not_true o h e = ground (arith, h, e)

bound_label-Bound :
    (labels : Dict Text Text) (key : Text) → Bound labels key (bound_label labels key)
unfolding bound_label label parse_uint
bound_label-Bound labels key = elim (Option-cases (lookup key labels)) [
  | inl e ↦ rw (bound_label, e) (missing e)
  | inr (s, e) ↦ elim (Option-cases (parse_uint s)) [
    | inl u ↦ rw (bound_label, e, u) (unreadable s e u)
    | inr (n, u) ↦ rw (bound_label, e, u) (given s n e u)
  ]
]

carried_lem :
    (live lo hi : ℕ) → carried live lo hi ≡ max lo (if nat_eq hi 0 then live else min hi live)
unfolding carried
carried_lem live lo hi = ground arith

-- A branch of the code, by what its test is.
branch :
    (P : Option ℕ → Type 0) (b : Bool) (x y : Option ℕ)
    → (b ≡ true → P x)
    → (b ≡ false → P y)
    → P (if b then x else y)
branch P true x y f g = f refl
branch P false x y f g = g refl

live_count-Count :
    (live : Option StackService) (merged : Option MergedService) (m : MergedService)
    → merged ≡ some m
    → m.is_global ≡ false
    → lookup (lit "swarm.autoscaler.enabled") m.labels ≡ some (lit "true")
    → Count live merged (live_count live m)
unfolding live_count
live_count-Count none merged m e g h = not_live refl
live_count-Count (some s) merged m e g h =
    let lo = bound_label m.labels label_min in
    let hi = bound_label m.labels label_max in
    let want = carried s.replicas lo hi in
    branch (Count (some s) merged) (not s.replicated) none (some want)
      (λ one. not_replicated s refl (ground arith))
      (λ several.
        subst (λ n. Count (some s) merged (some n)) (sym (carried_lem s.replicas lo hi))
          (bounded m s lo hi e g h refl (ground arith) (bound_label-Bound m.labels label_min)
            (bound_label-Bound m.labels label_max)))

-- The count that the loop decides on.
pub decide-Count :
    (live : Dict Text StackService) (name : Text) (m : MergedService)
    → Count (lookup name live) (some m) (decide live name m)
unfolding decide label
decide-Count live name m =
    let given_count = live_count (lookup name live) m in
    let is_on = text_eq (label m.labels label_enabled) (lit "true") in
    branch (Count (lookup name live) (some m)) m.is_global none
      (if not is_on then none else given_count) (λ g. global m refl g)
      (λ g.
        branch (Count (lookup name live) (some m)) (not is_on) none given_count
          (λ off.
            not_autoscaled m refl (text_not_true (lookup label_enabled m.labels) (ground arith)))
          (λ on.
            live_count-Count (lookup name live) (some m) m refl g
              (text_true (lookup label_enabled m.labels) (ground arith))))
