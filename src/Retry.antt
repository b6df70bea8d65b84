-- ===== src/Retry.antt =====
-- The loop against Swarm's version conflicts, as the deployments of
-- internal/adapter/stackdeploy/retry.go and the updates of internal/adapter/swarm/mutate.go have it,
-- with internal/adapter/dockererr/dockererr.go, which tells the conflicts.
pub mod Trail
use swarm_hpa.Base.{
  ℕ, zero, suc, Bool, true, Option, none, some, Text, lit, contains, if◌then◌else◌,
}

-- How an attempt ends, and how the loop ends.
pub data Attempt (E : Type 0) : Type 0 where
  done : Attempt E
  failed conflicted : E → Attempt E

pub data Ended (E : Type 0) : Type 0 where
  succeeded : Ended E
  refused cancelled : E → Ended E
  exhausted : Option E → Ended E

-- deployMaxAttempts and maxUpdateAttempts
abbrev pub deploy_max_attempts : ℕ
deploy_max_attempts = 3

abbrev pub max_update_attempts : ℕ
max_update_attempts = 3

-- An error of Docker's client: what errdefs.IsConflict says of it, and its text.
pub record DockerError (E : Type 0) : Type 0 where
  pub is_conflict : E → Bool
  pub message : E → Text

-- IsVersionConflict
unfoldable pub is_version_conflict : {E : Type 0} → DockerError E → E → Bool
is_version_conflict d e =
    if d.is_conflict e then true else contains (lit "update out of sequence") (d.message e)

-- An answer of Docker as the loop takes it.
unfoldable pub attempt_of : {E : Type 0} → DockerError E → Option E → Attempt E
attempt_of d none = done
attempt_of d (some e) = if is_version_conflict d e then conflicted e else failed e

-- `run i` is attempt number i on the state of the world, and `pause i` the wait behind it, which has
-- the context's error if that is cancelled first. At most as many attempts as the first argument says.
module _ {E S : Type 0} (run : ℕ → S → Attempt E × S) (pause : ℕ → S → Option E × S) where
  unfoldable pub retry : ℕ → ℕ → Option E → S → Ended E × S
  retry zero i last s = (exhausted last, s)
  retry (suc n) i last s =
      let (a, s1) = run i s in
      elim a [
        | done ↦ (succeeded, s1)
        | failed e ↦ (refused e, s1)
        | conflicted e ↦
            let (c, s2) = pause i s1 in
            elim c [ some e' ↦ (cancelled e', s2) | none ↦ retry n (suc i) (some e) s2 ]
      ]
