-- ===== src/Stackstatus/Drift.antt =====
-- What Drift says of a stack that has not drifted.
use mathlib.Core.Path.{ap₂}
use swarm_hpa.Base.{
  ℕ, ◌≡◌, ◌↔◌, ◌⊎◌, refl, sym, ap, ◌∙◌, inl, inr, true, false, Option, none, some, List, [], ◌∷◌,
  arith, Text, text_eq, text_eq_iff, text_keys, Dict, lookup, put, lookup-put, In, Bool-cases,
}
use swarm_hpa.Model.{StackService, LiveService, ServiceDrift}
use swarm_hpa.Stackstatus.{live_by_name, drift_of, drift_entries, drift}

-- A live service of the name runs replicated with the wanted count.
pub record IsLive (live : List StackService) (name : Text) (want : ℕ) : Type 0 where
  pub service : StackService
  pub there : In service live
  pub named : service.name ≡ name
  pub replicated : service.replicated ≡ true
  pub counted : service.replicas ≡ want

-- What is found under a name is in the list, or was there before.
lookup-live_by_name :
    (live : List StackService) (m : Dict Text StackService) (name : Text) (s : StackService)
    → lookup name (live_by_name live m) ≡ some s
    → (In s live × (s.name ≡ name)) ⊎ (lookup name m ≡ some s)
unfolding live_by_name
lookup-live_by_name [] m name s h = inr h
lookup-live_by_name (x ∷ live) m name s h =
    elim (lookup-live_by_name live (put x.name x m) name s h) [
      | inl (i, e) ↦ inl (inr i, e)
      | inr f ↦ elim (Bool-cases (text_eq x.name name)) [
        | inl own ↦
            let same : x ≡ s = ground (arith, lookup-put x.name name x m, own, f) in
            inl (
              inl same,
              ap (λ (y : StackService). y.name) (sym same) ∙ (text_eq_iff x.name name).0 own,
            )
        | inr foreign ↦ inr (ground (arith, lookup-put x.name name x m, foreign, f))
      ]
    ]

pub settled :
    (live : List StackService) (name : Text) (want : ℕ) (o : Option StackService)
    → lookup name (live_by_name live []) ≡ o
    → (drift_of name want o).drifted ≡ false
    → IsLive live name want
unfolding drift_of lookup
settled live name want none e h = cc
settled live name want (some s) e h = elim (lookup-live_by_name live [] name s e) [
  | inl (i, n) ↦ record {
    service = s;
    there = i;
    named = n;
    replicated = ground (arith, h);
    counted = ground (arith, h);
  }
  | inr f ↦ cc
]

drift_of-names :
    (name : Text) (want : ℕ) (o : Option StackService)
    → ((drift_of name want o).service ≡ name) × ((drift_of name want o).desired ≡ want)
unfolding drift_of
drift_of-names name want none = (refl, refl)
drift_of-names name want (some s) = (refl, refl)

entry_of :
    (live : List StackService) (desired : Dict Text ℕ) (d : ServiceDrift)
    → In d (drift_entries (live_by_name live []) desired)
    → d.drifted ≡ false
    → In (d.service, d.desired) desired × IsLive live d.service d.desired
unfolding drift_entries
entry_of live [] d i h = absurd i
entry_of live ((name, want) ∷ desired) d (inr i) h =
    let (j, l) = entry_of live desired d i h in (inr j, l)
entry_of live ((name, want) ∷ desired) d (inl e) h =
    let (n, w) = drift_of-names name want (lookup name (live_by_name live [])) in
    let n' : name ≡ d.service = sym n ∙ ap (λ (x : ServiceDrift). x.service) e in
    let w' : want ≡ d.desired = sym w ∙ ap (λ (x : ServiceDrift). x.desired) e in
    let l =
      settled live name want (lookup name (live_by_name live [])) refl
        (ap (λ (x : ServiceDrift). x.drifted) e ∙ h) in
    (
      inl (ap₂ (λ (x : Text) (y : ℕ). (x, y)) n' w'),
      record {
        service = l.service;
        there = l.there;
        named = l.named ∙ n';
        replicated = l.replicated;
        counted = l.counted ∙ w';
      },
    )

-- Where the sorting keeps the entries, an entry that is not drifted is of a desired service, and a live service of
-- its name runs replicated with the desired count.
drift-IsLive :
    (by_service : List ServiceDrift → List ServiceDrift)
    (by_name : List LiveService → List LiveService)
    → ((l : List ServiceDrift) (a : ServiceDrift) → In a (by_service l) ↔ In a l)
    → (desired : Dict Text ℕ) (live : List StackService) (d : ServiceDrift)
    → In d (drift by_service by_name desired live)
    → d.drifted ≡ false
    → In (d.service, d.desired) desired × IsLive live d.service d.desired
unfolding drift
drift-IsLive by_service by_name same desired live d i h =
    entry_of live desired d ((same (drift_entries (live_by_name live []) desired) d).0 i) h
