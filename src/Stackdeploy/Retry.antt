-- ===== src/Stackdeploy/Retry.antt =====
-- internal/adapter/stackdeploy/retry.go: a deployment is repeated on a version conflict.
use mathlib.Core.Path.{subst}
use swarm_hpa.Base.{
  ℕ, suc, ◌+◌, ◌*◌, ◌<◌, ◌≡◌, ◌⊎◌, inl, inr, refl, sym, ap, true, false, Option, none, some, List,
  ◌∷◌, Text, lit, contains, arith, Bool-cases,
}
use swarm_hpa.Retry.{
  Attempt, done, failed, conflicted, Ended, succeeded, refused, cancelled, exhausted, DockerError,
  attempt_of, is_version_conflict, deploy_max_attempts, retry,
}
use swarm_hpa.Retry.Trail.{
  Trail, here, again, Ending, by_success, by_refusal, by_cancel, by_exhaustion, retry-Ending,
}

-- The calls of a deployment, the newest first: `docker stack deploy` with its arguments, and waits in ms.
pub data DeployEvent : Type 0 where
  deploy_call : Text → List Text → Text → DeployEvent
  wait : ℕ → DeployEvent

-- `docker` is the wrapped DeployFunc after a given trace, and `stop` the context's error, if it is
-- cancelled before a wait is over.
pub record DeployEnv (E : Type 0) : Type 0 where
  pub errors : DockerError E
  pub docker : List DeployEvent → Text → List Text → Text → Option E
  pub stop : List DeployEvent → Option E

module _ {E : Type 0} (env : DeployEnv E) (name : Text) (files : List Text) (policy : Text) where
  unfoldable pub deploy_attempt : ℕ → List DeployEvent → Attempt E × List DeployEvent
  deploy_attempt attempt es =
      (attempt_of env.errors (env.docker es name files policy), deploy_call name files policy ∷ es)

  unfoldable pub deploy_pause : ℕ → List DeployEvent → Option E × List DeployEvent
  deploy_pause attempt es = (env.stop (wait (attempt * 100) ∷ es), wait (attempt * 100) ∷ es)

  -- WithRetry
  unfoldable pub with_retry : List DeployEvent → Ended E × List DeployEvent
  with_retry es = retry deploy_attempt deploy_pause deploy_max_attempts 1 none es

  -- The call of the deployment, and the wait in ms behind call number i.
  abbrev called : List DeployEvent → List DeployEvent
  called es = deploy_call name files policy ∷ es

  abbrev waited : ℕ → List DeployEvent → List DeployEvent
  waited i es = wait (i * 100) ∷ called es

  -- Docker tells a version conflict, by the error's class or by its text.
  abbrev pub IsConflict : E → Type 0
  IsConflict e =
      (env.errors.is_conflict e ≡ true)
      ⊎ (contains (lit "update out of sequence") (env.errors.message e) ≡ true)

  -- So many calls from number i on were each answered with a version conflict, and waited behind.
  pub data Tried : ℕ → ℕ → List DeployEvent → List DeployEvent → Type 0 where
    none_yet : {i : ℕ} {es : List DeployEvent} → Tried 0 i es es
    tried :
        {k i : ℕ} {es es' : List DeployEvent} (e : E)
        → env.docker es name files policy ≡ some e
        → IsConflict e
        → env.stop (waited i es) ≡ none
        → Tried k (suc i) (waited i es) es'
        → Tried (suc k) i es es'

  -- How a deployment ends, from what Docker and the context answer.
  pub data Finish (es : List DeployEvent) : Ended E × List DeployEvent → Type 0 where
    accepted :
        (k : ℕ) (es' : List DeployEvent)
        → k < 3
        → Tried k 1 es es'
        → env.docker es' name files policy ≡ none
        → Finish es (succeeded, called es')
    rejected :
        (k : ℕ) (es' : List DeployEvent) (e : E)
        → k < 3
        → Tried k 1 es es'
        → env.docker es' name files policy ≡ some e
        → ¬ IsConflict e
        → Finish es (refused e, called es')
    interrupted :
        (k : ℕ) (es' : List DeployEvent) (e e' : E)
        → k < 3
        → Tried k 1 es es'
        → env.docker es' name files policy ≡ some e
        → IsConflict e
        → env.stop (waited (1 + k) es') ≡ some e'
        → Finish es (cancelled e', waited (1 + k) es')
    given_up :
        (last : Option E) (es' : List DeployEvent)
        → Tried 3 1 es es'
        → Finish es (exhausted last, es')

  IsConflict-cases :
      (e : E)
      → (is_version_conflict env.errors e ≡ true × IsConflict e)
        ⊎ (is_version_conflict env.errors e ≡ false × ¬ IsConflict e)
  unfolding is_version_conflict
  IsConflict-cases e = elim (Bool-cases (env.errors.is_conflict e)) [
    | inl c ↦ inl (rw c, inl c)
    | inr c ↦ elim (Bool-cases (contains (lit "update out of sequence") (env.errors.message e))) [
      | inl t ↦ inl (rw (c, t), inr t)
      | inr t ↦ inr (rw (c, t), λ x. ground (arith, x, c, t))
    ]
  ]

  answered_done : (o : Option E) → attempt_of env.errors o ≡ done → o ≡ none
  unfolding attempt_of
  answered_done none h = refl
  answered_done (some e) h = absurd (ground (arith, h))

  answered_failed :
      (o : Option E) (e : E) → attempt_of env.errors o ≡ failed e → (o ≡ some e) × ¬ IsConflict e
  unfolding attempt_of
  answered_failed none e h = cc
  answered_failed (some x) e h = elim (IsConflict-cases x) [
    | inl (c, _) ↦ cc (rw c at h)
    | inr (c, n) ↦
        let same : x ≡ e = cc (rw c at h) in (ap some same, subst (λ y. ¬ IsConflict y) same n)
  ]

  answered_conflicted :
      (o : Option E) (e : E) → attempt_of env.errors o ≡ conflicted e → (o ≡ some e) × IsConflict e
  unfolding attempt_of
  answered_conflicted none e h = cc
  answered_conflicted (some x) e h = elim (IsConflict-cases x) [
    | inr (c, _) ↦ cc (rw c at h)
    | inl (c, n) ↦ let same : x ≡ e = cc (rw c at h) in (ap some same, subst IsConflict same n)
  ]

  Trail-Tried :
      (k i : ℕ) (es es' : List DeployEvent)
      → Trail deploy_attempt deploy_pause k i es es'
      → Tried k i es es'
  unfolding deploy_attempt deploy_pause
  Trail-Tried k i es es' here = none_yet
  Trail-Tried k i es es' (again {k = j} {s1 = s1} {s2 = s2} e h p t) =
      let (d, c) = answered_conflicted (env.docker es name files policy) e (ap (λ x. x.0) h) in
      let at : called es ≡ s1 = ap (λ x. x.1) h in
      let p' = rw (← at) at p in
      let after : waited i es ≡ s2 = ap (λ x. x.1) p' in
      tried e d c (ap (λ x. x.0) p')
        (subst (λ s. Tried j (suc i) s es') (sym after) (Trail-Tried j (suc i) s2 es' t))

  Ending-Finish :
      (es : List DeployEvent) (r : Ended E × List DeployEvent)
      → Ending deploy_attempt deploy_pause 3 1 es r
      → Finish es r
  unfolding deploy_attempt deploy_pause
  Ending-Finish es r (by_success k s' s'' l t q) =
      let at : called s' ≡ s'' = ap (λ x. x.1) q in
      subst (λ s. Finish es (succeeded, s)) at
        (accepted k s' l (Trail-Tried k 1 es s' t)
          (answered_done (env.docker s' name files policy) (ap (λ x. x.0) q)))
  Ending-Finish es r (by_refusal k s' s'' e l t q) =
      let at : called s' ≡ s'' = ap (λ x. x.1) q in
      let (d, n) = answered_failed (env.docker s' name files policy) e (ap (λ x. x.0) q) in
      subst (λ s. Finish es (refused e, s)) at (rejected k s' e l (Trail-Tried k 1 es s' t) d n)
  Ending-Finish es r (by_cancel k s' s1 s2 e e' l t q u) =
      let (d, c) = answered_conflicted (env.docker s' name files policy) e (ap (λ x. x.0) q) in
      let at : called s' ≡ s1 = ap (λ x. x.1) q in
      let u' = rw (← at) at u in
      let after : waited (1 + k) s' ≡ s2 = ap (λ x. x.1) u' in
      subst (λ s. Finish es (cancelled e', s)) after
        (interrupted k s' e e' l (Trail-Tried k 1 es s' t) d c (ap (λ x. x.0) u'))
  Ending-Finish es r (by_exhaustion last s' t) = given_up last s' (Trail-Tried 3 1 es s' t)

  -- A retried deployment always ends, after at most three calls: behind at most two calls that Docker answered with a
  -- version conflict and a wait of the call's number times 100 ms, a call is answered without an error, or with an
  -- error that is no version conflict, or with one more conflict and the wait behind it is cancelled; or
  -- all three calls met a version conflict.
  pub with_retry-Ending : (es : List DeployEvent) → Finish es (with_retry es)
  unfolding with_retry
  with_retry-Ending es =
      Ending-Finish es (with_retry es)
        (retry-Ending deploy_attempt deploy_pause deploy_max_attempts 1 none es)
