-- ===== src/Stackapi/Settled.antt =====
-- A stack that is shown without drift runs as it is desired.
use swarm_hpa.Base.{
  ℕ, ◌≡◌, ◌≢◌, ◌↔◌, refl, sym, ap, ◌∙◌, inl, inr, false, some, List, [], ◌∷◌, arith, Text, Dict,
  lookup, text_keys, Result, ok, err, In,
}
use swarm_hpa.Model.{StackService, ServiceDrift}
use swarm_hpa.Stackstatus.{drift, drift_entries, drift_of, live_by_name}
use swarm_hpa.Stackstatus.Drift.{IsLive, settled}
use swarm_hpa.Statusstore.{StackStatus}
use swarm_hpa.Stackapi.{
  Handler, to_drift_item, to_drift_items, any_drifted, compared, response_with, response_of,
}

any_drifted-In :
    (ds : List ServiceDrift) (d : ServiceDrift)
    → any_drifted (to_drift_items ds) ≡ false
    → In d ds
    → d.drifted ≡ false
unfolding any_drifted to_drift_items to_drift_item
any_drifted-In [] d h m = absurd m
any_drifted-In (x ∷ ds) d h (inl e) =
    let plain : x.drifted ≡ false = ground (arith, h) in
    ap (λ (y : ServiceDrift). y.drifted) (sym e) ∙ plain
any_drifted-In (x ∷ ds) d h (inr m) = any_drifted-In ds d (ground (arith, h)) m

-- Every desired service has an entry.
entries-In :
    (by_name : Dict Text StackService) (desired : Dict Text ℕ) (name : Text) (want : ℕ)
    → In (name, want) desired
    → In (drift_of name want (lookup name by_name)) (drift_entries by_name desired)
unfolding drift_entries
entries-In by_name [] name want m = absurd m
entries-In by_name ((n, w) ∷ desired) name want (inl e) =
    inl (ap (λ (x : Text × ℕ). drift_of x.0 x.1 (lookup x.0 by_name)) e)
entries-In by_name ((n, w) ∷ desired) name want (inr m) =
    inr (entries-In by_name desired name want m)

module _ (h : Handler)
    (same : (l : List ServiceDrift) (a : ServiceDrift) → In a (h.by_service l) ↔ In a l)
    (st : StackStatus) (name : Text) (want : ℕ) where
  compared-IsLive :
      (r : Result Text (List StackService))
      → ((e : Text) → r ≡ err e → e ≢ [])
      → (compared h st r).drifted ≡ false
      → (compared h st r).drift_error ≡ []
      → In (name, want) st.desired_replicas
      → (live : List StackService) × (r ≡ ok live) × IsLive live name want
  unfolding compared drift
  compared-IsLive (err e) named shown quiet m = absurd (named e refl quiet)
  compared-IsLive (ok found) named shown quiet m =
      let entries = drift_entries (live_by_name found []) st.desired_replicas in
      let entry = drift_of name want (lookup name (live_by_name found [])) in
      let listed =
        (same entries entry).1
          (entries-In (live_by_name found []) st.desired_replicas name want m) in
      (
        found,
        refl,
        settled found name want (lookup name (live_by_name found [])) refl
            (any_drifted-In (h.by_service entries) entry shown listed),
      )

  with-IsLive :
      (read : Text → Result Text (List StackService)) (desired : Dict Text ℕ)
      → ((e : Text) → read st.name ≡ err e → e ≢ [])
      → (response_with h (some read) desired st).drifted ≡ false
      → (response_with h (some read) desired st).drift_error ≡ []
      → In (name, want) desired
      → In (name, want) st.desired_replicas
      → (live : List StackService) × (read st.name ≡ ok live) × IsLive live name want
  unfolding response_with
  with-IsLive read [] named shown quiet n m = absurd n
  with-IsLive read (d ∷ desired) named shown quiet n m =
      compared-IsLive (read st.name) named shown quiet m

-- Where a reader of the live services is wired whose errors are not blank, and the sorting of Drift keeps the
-- entries: when a stack is shown as not drifted and with a blank error of the drift, the live services of the
-- stack were read, and every service that it desires is among them, replicated, with the desired count.
pub response_of-IsLive :
    (h : Handler)
    → ((l : List ServiceDrift) (a : ServiceDrift) → In a (h.by_service l) ↔ In a l)
    → (st : StackStatus) (read : Text → Result Text (List StackService)) → h.live ≡ some read
    → ((e : Text) → read st.name ≡ err e → e ≢ [])
    → (response_of h st).drifted ≡ false
    → (response_of h st).drift_error ≡ []
    → (name : Text) (want : ℕ) → In (name, want) st.desired_replicas
    → (live : List StackService) × (read st.name ≡ ok live) × IsLive live name want
unfolding response_of
response_of-IsLive h same st read wired named shown quiet name want m =
    with-IsLive h same st name want read st.desired_replicas named
      (ap (λ o. (response_with h o st.desired_replicas st).drifted) (sym wired) ∙ shown)
      (ap (λ o. (response_with h o st.desired_replicas st).drift_error) (sym wired) ∙ quiet) m m
