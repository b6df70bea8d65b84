-- ===== src/Swarm/Mutate.antt =====
-- internal/adapter/swarm/mutate.go: a service is updated at the version that was inspected, and again
-- on a conflict.
use swarm_hpa.Base.{
  ℕ, ◌+◌, ◌*◌, ◌≡◌, ◌≢◌, refl, sym, ap, Option, none, some, List, ◌∷◌, Text, Result, ok, err, arith,
  if◌then◌else◌,
}
use swarm_hpa.Retry.{
  Attempt, done, failed, conflicted, Ended, succeeded, DockerError, is_version_conflict,
  max_update_attempts, retry,
}
use swarm_hpa.Retry.Trail.{Ending, by_success, by_refusal, by_cancel, by_exhaustion, retry-Ending}
use swarm_hpa.Swarm.{Sdk}

-- The calls of an update, the newest first; waits in ms.
pub data UpdateEvent (Spec : Type 0) : Type 0 where
  inspect_call : Text → UpdateEvent Spec
  update_call : Text → ℕ → Spec → UpdateEvent Spec
  wait : ℕ → UpdateEvent Spec

pub data UpdateError (E : Type 0) : Type 0 where
  inspect_failed update_failed : E → UpdateError E
  not_replicated : Text → UpdateError E
  stopped : E → UpdateError E

-- Docker's answers after a given trace, and the context's error if it is cancelled in a wait.
pub record Client (E Service Spec : Type 0) : Type 0 where
  pub sdk : Sdk Service Spec
  pub errors : DockerError E
  pub inspect : List (UpdateEvent Spec) → Text → Result E Service
  pub update : List (UpdateEvent Spec) → Text → ℕ → Spec → Option E
  pub stop : List (UpdateEvent Spec) → Option E

module _ {E Service Spec : Type 0} (client : Client E Service Spec) (id : Text) where
  -- The part of a round behind the mutation.
  unfoldable pub send :
      ℕ
      → Result (UpdateError E) Spec
      → List (UpdateEvent Spec)
      → Attempt (UpdateError E) × List (UpdateEvent Spec)
  send version (err e) es = (failed e, es)
  send version (ok spec) es = (
    elim (client.update es id version spec) [
      | none ↦ done
      | some e ↦
          if is_version_conflict client.errors e
          then conflicted (update_failed e)
          else failed (update_failed e)
    ],
    update_call id version spec ∷ es,
  )

  unfoldable pub answer :
      (Spec → Result (UpdateError E) Spec)
      → Result E Service
      → List (UpdateEvent Spec)
      → Attempt (UpdateError E) × List (UpdateEvent Spec)
  unfolding send
  answer mutate (err e) es = (failed (inspect_failed e), es)
  answer mutate (ok svc) es = send (client.sdk.version svc) (mutate (client.sdk.spec svc)) es

  -- One round of the loop of updateService.
  unfoldable pub update_attempt :
      (Spec → Result (UpdateError E) Spec)
      → ℕ
      → List (UpdateEvent Spec)
      → Attempt (UpdateError E) × List (UpdateEvent Spec)
  unfolding answer
  update_attempt mutate attempt es = answer mutate (client.inspect es id) (inspect_call id ∷ es)

  unfoldable pub update_pause :
      ℕ → List (UpdateEvent Spec) → Option (UpdateError E) × List (UpdateEvent Spec)
  update_pause attempt es = (
    elim (client.stop (wait (attempt * 100) ∷ es)) [ none ↦ none | some e ↦ some (stopped e) ],
    wait (attempt * 100) ∷ es,
  )

  -- updateService
  unfoldable pub update_service :
      (Spec → Result (UpdateError E) Spec)
      → List (UpdateEvent Spec)
      → Ended (UpdateError E) × List (UpdateEvent Spec)
  update_service mutate es =
      retry (update_attempt mutate) update_pause max_update_attempts 1 none es

  unfoldable pub set_count : ℕ → Spec → Result (UpdateError E) Spec
  set_count replicas spec = elim (client.sdk.replicated spec) [
    | none ↦ err (not_replicated id)
    | some r ↦ ok (client.sdk.with_replicas replicas spec)
  ]

  -- Scale and ForceUpdate
  unfoldable pub scale :
      ℕ → List (UpdateEvent Spec) → Ended (UpdateError E) × List (UpdateEvent Spec)
  scale replicas es = update_service (set_count replicas) es

  unfoldable pub force_update :
      List (UpdateEvent Spec) → Ended (UpdateError E) × List (UpdateEvent Spec)
  force_update es = update_service (λ spec. ok (client.sdk.with_force_update spec)) es

  -- The last two calls: an inspection, and an update that Docker took, of the spec that the inspection
  -- answered, mutated, at the version that it answered.
  pub record Updated (mutate : Spec → Result (UpdateError E) Spec) (es : List (UpdateEvent Spec))
      : Type 0 where
    pub earlier : List (UpdateEvent Spec)
    pub service : Service
    pub spec : Spec
    pub inspected : client.inspect earlier id ≡ ok service
    pub mutated : mutate (client.sdk.spec service) ≡ ok spec
    pub accepted :
        client.update (inspect_call id ∷ earlier) id (client.sdk.version service) spec ≡ none
    pub last_calls :
        es ≡ update_call id (client.sdk.version service) spec ∷ inspect_call id ∷ earlier

  attempt-Updated :
      (mutate : Spec → Result (UpdateError E) Spec) (n : ℕ) (es es' : List (UpdateEvent Spec))
      → update_attempt mutate n es ≡ (done, es')
      → Updated mutate es'
  unfolding update_attempt
  attempt-Updated mutate n es es' h = inspected_as (client.inspect es id) refl h
    where
      sent_as :
          (svc : Service) (spec : Spec) (o : Option E)
          → client.inspect es id ≡ ok svc
          → mutate (client.sdk.spec svc) ≡ ok spec
          → client.update (inspect_call id ∷ es) id (client.sdk.version svc) spec ≡ o
          → send (client.sdk.version svc) (ok spec) (inspect_call id ∷ es) ≡ (done, es')
          → Updated mutate es'
      sent_as svc spec none i m u h' = record {
        earlier = es;
        service = svc;
        spec = spec;
        inspected = i;
        mutated = m;
        accepted = u;
        last_calls = ap (λ (r : Attempt (UpdateError E) × List (UpdateEvent Spec)). r.1) (sym h');
      }
      sent_as svc spec (some e) i m u h' = absurd (ground (arith, u, h'))

      mutated_as :
          (svc : Service) (r : Result (UpdateError E) Spec)
          → client.inspect es id ≡ ok svc
          → mutate (client.sdk.spec svc) ≡ r
          → send (client.sdk.version svc) r (inspect_call id ∷ es) ≡ (done, es')
          → Updated mutate es'
      mutated_as svc (err e) i m h' = cc
      mutated_as svc (ok spec) i m h' =
          sent_as svc spec (client.update (inspect_call id ∷ es) id (client.sdk.version svc) spec) i
            m refl h'

      inspected_as :
          (r : Result E Service)
          → client.inspect es id ≡ r
          → answer mutate r (inspect_call id ∷ es) ≡ (done, es')
          → Updated mutate es'
      inspected_as (err e) i h' = cc
      inspected_as (ok svc) i h' = mutated_as svc (mutate (client.sdk.spec svc)) i refl h'

  Ending-Updated :
      (mutate : Spec → Result (UpdateError E) Spec) (es : List (UpdateEvent Spec))
      (r : Ended (UpdateError E) × List (UpdateEvent Spec))
      → Ending (update_attempt mutate) update_pause max_update_attempts 1 es r
      → r.0 ≡ succeeded
      → Updated mutate r.1
  Ending-Updated mutate es r (by_success k s' s'' l t q) h = attempt-Updated mutate (1 + k) s' s'' q
  Ending-Updated mutate es r (by_refusal k s' s'' e l t q) h = cc
  Ending-Updated mutate es r (by_cancel k s' s1 s2 e e' l t q u) h = cc
  Ending-Updated mutate es r (by_exhaustion last s' t) h = cc

  update_service-Updated :
      (mutate : Spec → Result (UpdateError E) Spec) (es : List (UpdateEvent Spec))
      → (update_service mutate es).0 ≡ succeeded
      → Updated mutate (update_service mutate es).1
  unfolding update_service
  update_service-Updated mutate es h =
      Ending-Updated mutate es (update_service mutate es)
        (retry-Ending (update_attempt mutate) update_pause max_update_attempts 1 none es) h

  -- When Scale succeeds, its last two calls are an inspection, which answered a replicated service, and an update
  -- of the inspected spec with the new count, at the version that was inspected, which Docker answered without
  -- an error.
  pub scale-Updated :
      (replicas : ℕ) (es : List (UpdateEvent Spec))
      → (scale replicas es).0 ≡ succeeded
      → (svc : Service) × (earlier : List (UpdateEvent Spec)) × (client.inspect earlier id ≡ ok svc)
        × (client.sdk.replicated (client.sdk.spec svc) ≢ none)
        × (client.update
              (inspect_call id ∷ earlier)
              id
              (client.sdk.version svc)
              (client.sdk.with_replicas replicas (client.sdk.spec svc))
            ≡ none)
        × ((scale replicas es).1
            ≡ update_call id
                (client.sdk.version svc)
                (client.sdk.with_replicas replicas (client.sdk.spec svc))
              ∷ inspect_call id
              ∷ earlier)
  unfolding scale set_count
  scale-Updated replicas es h =
      let u = update_service-Updated (set_count replicas) es h in
      (
        u.service,
        u.earlier,
        u.inspected,
        ground (arith, u.mutated),
        ground (arith, u.mutated, u.accepted),
        ground (arith, u.mutated, u.last_calls),
      )
