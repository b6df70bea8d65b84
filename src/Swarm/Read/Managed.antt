-- ===== src/Swarm/Read/Managed.antt =====
-- The services that ManagedServices hands to the reconcile loop.
use swarm_hpa.Base.{
  ℕ, ◌≤◌, ◌<◌, ◌^◌, ◌≡◌, ◌≢◌, refl, inl, inr, true, false, Option, none, some, List, [], ◌∷◌, ◌++◌,
  ◌||◌, Text, text_eq_iff, lit, Float, Result, ok, err, >>=-eq-ok, All, arith, Bool-cases,
}
use swarm_hpa.Model.{ManagedService}
use swarm_hpa.Config.Labels.{
  LabelError, Parsed, Labels, parse_policy, label_enabled, label_heal, label_rebalance,
}
use swarm_hpa.Config.Labels.Sound.{parse_policy-IsValid, parse_policy-zero}
use swarm_hpa.Reconciler.Loop.Reasons.{IsSound}
use swarm_hpa.Swarm.{Sdk}
use swarm_hpa.Swarm.Read.{
  MappingError, count_of_mode, is_among, checked, managed_of, to_managed_service, keep_ok,
  managed_from, managed_services,
}

count_of_mode-lt :
    (o : Option (Option ℕ))
    → ((n : ℕ) → o ≡ some (some n) → n < 2 ^ 64)
    → (count_of_mode o).0 < 2 ^ 64
unfolding count_of_mode
count_of_mode-lt none h = omega arith
count_of_mode-lt (some none) h = omega arith
count_of_mode-lt (some (some n)) h = h n refl

-- Whatever is parsed, the policy's bounds are in order and fit into a uint64.
parse_policy_sound :
    {F : Type 0} ⦃fl : Float F⦄ (labels : Labels) (p : Parsed F)
    → parse_policy labels ≡ ok p
    → (p.policy.min ≤ p.policy.max) × (p.policy.max < 2 ^ 64)
parse_policy_sound labels p h = elim (Bool-cases p.autoscale) [
  | inl on ↦ let v = parse_policy-IsValid labels p h on in (v.ordered, v.fits)
  | inr off ↦ rw (parse_policy-zero labels p h off) (omega arith, omega arith)
]

-- The ids of the services are pairwise different.
abbrev pub DistinctIds : {F : Type 0} → List (ManagedService F) → Type 0
DistinctIds [] = Unit
DistinctIds (s ∷ ss) = All (λ t. t.ref.id ≢ s.ref.id) ss × DistinctIds ss

module _ {Service Spec : Type 0} (sdk : Sdk Service Spec) (F : Type 0) ⦃fl : Float F⦄ where
  checked-id :
      (svc : Service) (r : Result LabelError (Parsed F)) (ms : ManagedService F)
      → checked sdk svc r ≡ ok ms
      → ms.ref.id ≡ sdk.id svc
  unfolding checked managed_of
  checked-id svc (err e) ms h = cc
  checked-id svc (ok p) ms h = ground (arith, h)

  weaken :
      (seen : List Text) (id : Text) (ss : List (ManagedService F))
      → All (λ t. is_among t.ref.id (id ∷ seen) ≡ false) ss
      → All (λ t. is_among t.ref.id seen ≡ false) ss
  unfolding is_among
  weaken seen id [] h = tt
  weaken seen id (t ∷ ss) h = (ground (arith, h.0), weaken seen id ss h.1)

  others :
      (seen : List Text) (id : Text) (ss : List (ManagedService F))
      → All (λ t. is_among t.ref.id (id ∷ seen) ≡ false) ss
      → All (λ t. t.ref.id ≢ id) ss
  unfolding is_among
  others seen id [] h = tt
  others seen id (t ∷ ss) h =
      ((λ q. ground (arith, text_eq_iff id t.ref.id, h.0)), others seen id ss h.1)

  fresh-keep_ok :
      (seen : List Text) (svc : Service) (r : Result MappingError (ManagedService F))
      (rest : List (ManagedService F))
      → to_managed_service sdk svc ≡ r
      → is_among (sdk.id svc) seen ≡ false
      → All (λ t. is_among t.ref.id (sdk.id svc ∷ seen) ≡ false) rest
      → All (λ t. is_among t.ref.id seen ≡ false) (keep_ok sdk r rest)
  unfolding keep_ok to_managed_service
  fresh-keep_ok seen svc (err e') rest e n h = weaken seen (sdk.id svc) rest h
  fresh-keep_ok seen svc (ok ms) rest e n h = (
    rw (checked-id svc (parse_policy (sdk.labels (sdk.spec svc))) ms e) n,
    weaken seen (sdk.id svc) rest h,
  )

  managed_from-fresh :
      (seen : List Text) (svcs : List Service)
      → All (λ (t : ManagedService F). is_among t.ref.id seen ≡ false) (managed_from sdk seen svcs)
  unfolding managed_from
  managed_from-fresh seen [] = tt
  managed_from-fresh seen (svc ∷ svcs) = elim (Bool-cases (is_among (sdk.id svc) seen)) [
    | inl again ↦ rw again (managed_from-fresh seen svcs)
    | inr new ↦ rw new (
        fresh-keep_ok seen svc (to_managed_service sdk svc)
          (managed_from sdk (sdk.id svc ∷ seen) svcs) refl new
          (managed_from-fresh (sdk.id svc ∷ seen) svcs))
  ]

  keep_ok-DistinctIds :
      (seen : List Text) (svc : Service) (r : Result MappingError (ManagedService F))
      (rest : List (ManagedService F))
      → to_managed_service sdk svc ≡ r
      → All (λ t. is_among t.ref.id (sdk.id svc ∷ seen) ≡ false) rest
      → DistinctIds rest
      → DistinctIds (keep_ok sdk r rest)
  unfolding keep_ok to_managed_service
  keep_ok-DistinctIds seen svc (err e') rest e h d = d
  keep_ok-DistinctIds seen svc (ok ms) rest e h d = (
    rw (checked-id svc (parse_policy (sdk.labels (sdk.spec svc))) ms e)
        (others seen (sdk.id svc) rest h),
    d,
  )

  managed_from-DistinctIds :
      (seen : List Text) (svcs : List Service) → DistinctIds {F = F} (managed_from sdk seen svcs)
  unfolding managed_from
  managed_from-DistinctIds seen [] = tt
  managed_from-DistinctIds seen (svc ∷ svcs) = elim (Bool-cases (is_among (sdk.id svc) seen)) [
    | inl again ↦ rw again (managed_from-DistinctIds seen svcs)
    | inr new ↦ rw new (
        keep_ok-DistinctIds seen svc (to_managed_service sdk svc)
          (managed_from sdk (sdk.id svc ∷ seen) svcs) refl
          (managed_from-fresh (sdk.id svc ∷ seen) svcs)
          (managed_from-DistinctIds (sdk.id svc ∷ seen) svcs))
  ]

  -- Sound, and opted into something.
  abbrev pub IsManageable : ManagedService F → Type 0
  IsManageable ms = IsSound ms × ((ms.autoscale || ms.heal || ms.rebalance) ≡ true)

  module _ (fits : (spec : Spec) (n : ℕ) → sdk.replicated spec ≡ some (some n) → n < 2 ^ 64) where
    checked-IsManageable :
        (svc : Service) (r : Result LabelError (Parsed F)) (ms : ManagedService F)
        → parse_policy (sdk.labels (sdk.spec svc)) ≡ r
        → checked sdk svc r ≡ ok ms
        → IsManageable ms
    unfolding checked managed_of
    checked-IsManageable svc (err e') ms e h = cc
    checked-IsManageable svc (ok p) ms e h =
        let bound = count_of_mode-lt (sdk.replicated (sdk.spec svc)) (fits (sdk.spec svc)) in
        let (lo, hi) = parse_policy_sound (sdk.labels (sdk.spec svc)) p e in
        ground (arith, h, bound, lo, hi)

    keep_ok-IsManageable :
        (svc : Service) (r : Result MappingError (ManagedService F))
        (rest : List (ManagedService F))
        → to_managed_service sdk svc ≡ r
        → All IsManageable rest
        → All IsManageable (keep_ok sdk r rest)
    unfolding keep_ok to_managed_service
    keep_ok-IsManageable svc (err e') rest e h = h
    keep_ok-IsManageable svc (ok ms) rest e h =
        (checked-IsManageable svc (parse_policy (sdk.labels (sdk.spec svc))) ms refl e, h)

    managed_from-IsManageable :
        (seen : List Text) (svcs : List Service)
        → All (λ (t : ManagedService F). IsManageable t) (managed_from sdk seen svcs)
    unfolding managed_from
    managed_from-IsManageable seen [] = tt
    managed_from-IsManageable seen (svc ∷ svcs) = elim (Bool-cases (is_among (sdk.id svc) seen)) [
      | inl again ↦ rw again (managed_from-IsManageable seen svcs)
      | inr new ↦ rw new (
          keep_ok-IsManageable svc (to_managed_service sdk svc)
            (managed_from sdk (sdk.id svc ∷ seen) svcs) refl
            (managed_from-IsManageable (sdk.id svc ∷ seen) svcs))
    ]

    -- Where the counts that Docker answers are uint64, the services that a read hands to the reconcile loop have
    -- pairwise different ids, each is opted into something, and each has min at most max and counts that
    -- are uint64, which is what the loop's theorem on its calls asks for.
    pub managed_services-IsManageable :
        {E : Type 0} (list : Text → Result E (List Service)) (mss : List (ManagedService F))
        → managed_services sdk list ≡ ok mss
        → DistinctIds mss × All IsManageable mss
    unfolding managed_services
    managed_services-IsManageable list mss h =
        let (a, ea, h1) = >>=-eq-ok (list (label_enabled ++ lit "=true")) _ h in
        let (b, eb, h2) = >>=-eq-ok (list (label_heal ++ lit "=true")) _ h1 in
        let (c, ec, h3) = >>=-eq-ok (list (label_rebalance ++ lit "=true")) _ h2 in
        let same : managed_from sdk [] (a ++ b ++ c) ≡ mss = cc h3 in
        rw (← same)
          (managed_from-DistinctIds [] (a ++ b ++ c), managed_from-IsManageable [] (a ++ b ++ c))
