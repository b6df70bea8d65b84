-- ===== src/Config/Labels/Sound.antt =====
-- A policy that the parser returns is one that the control loop can act on.
use mathlib.Core.Path.{subst}
use swarm_hpa.Base.{
  ◌||◌, >>=-eq-ok, ℕ, ◌≤◌, ◌<◌, ◌^◌, ◌≡◌, ◌≢◌, ◌⊎◌, inl, inr, true, false, some, [], ◌∷◌, arith,
  Text, text_eq, text_eq_iff, lit, Float, ok, parse_uint, Bool-cases,
}
use swarm_hpa.Model.{ServicePolicy}
use swarm_hpa.Config.Labels.{
  Labels, label, label_min, label_max, label_target, label_heal, label_rebalance, label_enabled,
  policy_of, parse_uint_label, parse_float_label, validate_policy, parse_enabled, zero_policy,
  Parsed, parse_policy, parse_opt_in, provider_docker_stats, provider_prometheus, provider_agents,
}

-- The source is one of the providers, or left to the daemon's default.
abbrev pub IsKnownSource : Text → Type 0
IsKnownSource s =
    (s ≡ []) ⊎ ((s ≡ provider_docker_stats) ⊎ ((s ≡ provider_prometheus) ⊎ (s ≡ provider_agents)))

module _ {F : Type 0} ⦃fl : Float F⦄ where
  pub record IsValid (p : ServicePolicy F) : Type 0 where
    pub some_replica : 1 ≤ p.max
    pub ordered : p.min ≤ p.max
    pub fits : p.max < 2 ^ 64
    pub target_not_le_zero : fl.le p.target fl.zero ≡ false
    pub metric_named : p.metric ≢ []
    pub source_known : IsKnownSource p.source

parse_uint-lt : (s : Text) (n : ℕ) → parse_uint s ≡ some n → n < 2 ^ 64
unfolding parse_uint
parse_uint-lt [] n h = cc
parse_uint-lt (c ∷ s) n h = ground arith

parse_uint_label-lt :
    (labels : Labels) (key : Text) (n : ℕ) → parse_uint_label labels key ≡ ok n → n < 2 ^ 64
unfolding parse_uint_label
parse_uint_label-lt labels key n h = ground (arith, parse_uint-lt (label labels key) n)

known_source :
    (s : Text)
    → (text_eq s []
        || text_eq s provider_docker_stats
        || text_eq s provider_prometheus
        || text_eq s provider_agents)
      ≡ true
    → IsKnownSource s
known_source s h = ground (
  arith,
  text_eq_iff s [],
  text_eq_iff s provider_docker_stats,
  text_eq_iff s provider_prometheus,
  text_eq_iff s provider_agents,
)

module _ {F : Type 0} ⦃fl : Float F⦄ where
  validate_policy-IsValid :
      (p : ServicePolicy F) → p.max < 2 ^ 64 → validate_policy p ≡ ok tt → IsValid p
  unfolding validate_policy
  validate_policy-IsValid p fits h = record {
    some_replica = ground arith;
    ordered = ground arith;
    fits = fits;
    target_not_le_zero = ground arith;
    metric_named = λ e. ground (arith, text_eq_iff p.metric []);
    source_known = known_source p.source (ground arith);
  }

  parse_enabled-IsValid :
      (labels : Labels) (p : ServicePolicy F) → parse_enabled labels ≡ ok p → IsValid p
  unfolding parse_enabled
  parse_enabled-IsValid labels p h =
      let (lo, elo, h1) = >>=-eq-ok (parse_uint_label labels label_min) _ h in
      let (hi, ehi, h2) = >>=-eq-ok (parse_uint_label labels label_max) _ h1 in
      let (t, et, h3) = >>=-eq-ok (parse_float_label labels label_target) _ h2 in
      let (u, eu, h4) = >>=-eq-ok (validate_policy (policy_of labels lo hi t)) _ h3 in
      let same : policy_of labels lo hi t ≡ p = cc h4 in
      subst IsValid same (
        validate_policy-IsValid (policy_of labels lo hi t)
          (parse_uint_label-lt labels label_max hi ehi) eu)

  -- Whatever the labels, a policy that is returned for autoscaling is valid: at least one replica,
  -- min at most max, max a uint64, a target that does not compare as at most zero, a metric that is not blank, and
  -- a known source. (A target that is not a number compares as nothing, and is let through.)
  pub parse_policy-IsValid :
      (labels : Labels) (p : Parsed F)
      → parse_policy labels ≡ ok p
      → p.autoscale ≡ true
      → IsValid p.policy
  unfolding parse_policy
  parse_policy-IsValid labels p h a =
      let (heal, eh, h1) =
        >>=-eq-ok
          (parse_opt_in labels label_heal (text_eq (label labels label_enabled) (lit "true"))) _
          h in
      let (reb, er, h2) = >>=-eq-ok (parse_opt_in labels label_rebalance false) _ h1 in
      elim (Bool-cases (text_eq (label labels label_enabled) (lit "true"))) [
        | inl on ↦
            let (q, eq, h3) = >>=-eq-ok (parse_enabled labels) _ (rw on at h2) in
            let same : q ≡ p.policy = cc h3 in
            subst IsValid same (parse_enabled-IsValid labels q eq)
        | inr off ↦ absurd (ground (arith, rw off at h2))
      ]

  -- A service that did not opt into autoscaling has the zero policy.
  pub parse_policy-zero :
      (labels : Labels) (p : Parsed F)
      → parse_policy labels ≡ ok p
      → p.autoscale ≡ false
      → p.policy ≡ zero_policy
  unfolding parse_policy
  parse_policy-zero labels p h a =
      let (heal, eh, h1) =
        >>=-eq-ok
          (parse_opt_in labels label_heal (text_eq (label labels label_enabled) (lit "true"))) _
          h in
      let (reb, er, h2) = >>=-eq-ok (parse_opt_in labels label_rebalance false) _ h1 in
      elim (Bool-cases (text_eq (label labels label_enabled) (lit "true"))) [
        | inl on ↦
            let (q, eq, h3) = >>=-eq-ok (parse_enabled labels) _ (rw on at h2) in
            absurd (ground (arith, h3, a))
        | inr off ↦ let h3 = rw off at h2 in ground (arith, h3)
      ]
