-- ===== src/Stackstatus/Orphans.antt =====
-- Orphans returns the services that nobody claims, all of them.
use swarm_hpa.Base.{
  ◌≡◌, ◌↔◌, refl, ap, inl, inr, true, List, [], ◌∷◌, arith, Text, text_eq_iff, text_keys, Dict,
  has_prefix, In, keep_if, In-keep_if, keep_if-In, length, ltb, Bool-cases,
}
use swarm_hpa.Model.{LiveService, ServiceDrift}
use swarm_hpa.Stackstatus.{
  autoscaler_label_prefix, managed_by_daemon, is_configured, is_orphan, orphans,
}

is_configured-In : (stacks : List Text) (s : Text) → (is_configured stacks s ≡ true) ↔ In s stacks
unfolding is_configured
is_configured-In [] s = (λ h. cc, λ h. absurd h)
is_configured-In (t ∷ ts) s = ground (arith, text_eq_iff t s, is_configured-In ts s)

-- A label of the autoscaler: the prefix and at least one character more.
pub record IsOptIn (labels : Dict Text Text) : Type 0 where
  pub key : Text
  pub value : Text
  pub there : In (key, value) labels
  pub prefixed : has_prefix autoscaler_label_prefix key ≡ true
  pub longer : ltb (length autoscaler_label_prefix) (length key) ≡ true

opted_in : (labels : Dict Text Text) → managed_by_daemon labels ≡ true → IsOptIn labels
unfolding managed_by_daemon
opted_in [] h = cc
opted_in ((k, v) ∷ labels) h = elim (Bool-cases (has_prefix autoscaler_label_prefix k)) [
  | inl p ↦ elim (Bool-cases (ltb (length autoscaler_label_prefix) (length k))) [
    | inl l ↦ record { key = k; value = v; there = inl refl; prefixed = p; longer = l }
    | inr l ↦
        let o = opted_in labels (rw l at h) in
        record {
          key = o.key;
          value = o.value;
          there = inr o.there;
          prefixed = o.prefixed;
          longer = o.longer;
        }
  ]
  | inr p ↦
      let o = opted_in labels (ground (arith, p, h)) in
      record {
        key = o.key;
        value = o.value;
        there = inr o.there;
        prefixed = o.prefixed;
        longer = o.longer;
      }
]

managed : (labels : Dict Text Text) → IsOptIn labels → managed_by_daemon labels ≡ true
unfolding managed_by_daemon
managed labels o = at labels o.there
  where
    at : (l : Dict Text Text) → In (o.key, o.value) l → managed_by_daemon l ≡ true
    at [] i = absurd i
    at ((k, v) ∷ l) (inl e) = ground (arith, o.prefixed, o.longer, ap (λ (x : Text × Text). x.0) e)
    at ((k, v) ∷ l) (inr i) = ground (arith, at l i)

is_orphan_iff :
    (stacks : List Text) (svc : LiveService)
    → (is_orphan stacks svc ≡ true) ↔ ((¬ In svc.stack_namespace stacks) × (¬ IsOptIn svc.labels))
unfolding is_orphan
is_orphan_iff stacks svc =
    let c = is_configured-In stacks svc.stack_namespace in
    (
      λ h. (λ i. ground (arith, c.1 i, h), λ o. ground (arith, managed svc.labels o, h)),
      λ (n, m). elim (Bool-cases (is_configured stacks svc.stack_namespace)) [
        | inl t ↦ absurd (n (c.0 t))
        | inr f ↦ elim (Bool-cases (managed_by_daemon svc.labels)) [
          | inl t ↦ absurd (m (opted_in svc.labels t))
          | inr g ↦ ground (arith, f, g)
        ]
      ],
    )

-- Where the sorting keeps the entries, the orphans are exactly the live services whose namespace is no
-- configured stack and that carry no label of the autoscaler.
pub orphans-In :
    (by_service : List ServiceDrift → List ServiceDrift)
    (by_name : List LiveService → List LiveService)
    → ((l : List LiveService) (a : LiveService) → In a (by_name l) ↔ In a l)
    → (stacks : List Text) (live : List LiveService) (svc : LiveService)
    → In svc (orphans by_service by_name stacks live)
      ↔ (In svc live × (¬ In svc.stack_namespace stacks) × (¬ IsOptIn svc.labels))
unfolding orphans
orphans-In by_service by_name same stacks live svc =
    let kept = same (keep_if (is_orphan stacks) live) svc in
    (
      λ h.
          let (i, t) = keep_if-In (is_orphan stacks) live svc (kept.0 h) in
          let (n, m) = (is_orphan_iff stacks svc).0 t in (i, n, m),
      λ (i, n, m).
          kept.1 (In-keep_if (is_orphan stacks) live svc i ((is_orphan_iff stacks svc).1 (n, m))),
    )
