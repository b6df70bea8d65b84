-- ===== src/Gitops/PostCheck.antt =====
-- internal/app/gitopsync/loop.go, runPostDeployCheck: the alert on network errors behind a deploy, from
-- the window of task errors that the reconcile loop fills.
use swarm_hpa.Base.{
  ℕ, ◌+◌, ◌≡◌, inl, inr, Bool, true, ◌||◌, List, [], ◌∷◌, ◌++◌, Text, text_eq, lit, Time, Duration,
  Dict, has_prefix, All, All-append, Bool-cases, if◌then◌else◌,
}
use swarm_hpa.TaskErrors.Classify.{class_text, vxlan_file_exists_class, network_sandbox_join}
use swarm_hpa.TaskErrors.Tracker.{Tracked, Counts, window_snapshot}

-- hit
pub record Hit : Type 0 where
  pub service : Text
  pub class : Text
  pub count : ℕ

-- The calls of the recorder.
pub data Alert : Type 0 where
  stack_task_errors : Text → Text → Text → ℕ → Alert
  deploy_network_errors : Text → ℕ → Alert

-- The classes that are alerted on.
unfoldable pub is_network : Text → Bool
is_network class =
    text_eq class (class_text vxlan_file_exists_class)
    || text_eq class (class_text network_sandbox_join)

-- The inner and the outer loop that collect the hits.
unfoldable pub class_hits : Text → Dict Text ℕ → List Hit
class_hits service [] = []
class_hits service ((class, n) ∷ classes) =
    let rest = class_hits service classes in
    if is_network class then record { service = service; class = class; count = n } ∷ rest else rest

unfoldable pub hits_of : Text → Counts → List Hit
unfolding class_hits
hits_of prefix [] = []
hits_of prefix ((service, classes) ∷ counts) =
    let rest = hits_of prefix counts in
    if has_prefix prefix service then class_hits service classes ++ rest else rest

unfoldable pub total_of : List Hit → ℕ
total_of [] = 0
total_of (h ∷ hs) = h.count + total_of hs

unfoldable pub alerts_of : Text → List Hit → List Alert
alerts_of stack [] = []
alerts_of stack (h ∷ hs) = stack_task_errors stack h.service h.class h.count ∷ alerts_of stack hs

-- The alerts for the hits, in the order of the calls.
unfoldable pub alert : Text → List Hit → List Alert
unfolding alerts_of total_of
alert stack [] = []
alert stack (h ∷ hs) =
    alerts_of stack (h ∷ hs) ++ deploy_network_errors stack (total_of (h ∷ hs)) ∷ []

-- runPostDeployCheck, with what the window leaves tracked.
unfoldable pub run_post_deploy_check : Text → Time → Duration → Tracked → List Alert × Tracked
unfolding alert hits_of
run_post_deploy_check stack now window tracked =
    let (counts, left) = window_snapshot now window tracked in
    (alert stack (hits_of (stack ++ lit "_") counts), left)

-- An alert on a service of the stack, on one of the two network classes.
abbrev pub IsOwn : Text → Hit → Type 0
IsOwn prefix h = (has_prefix prefix h.service ≡ true) × (is_network h.class ≡ true)

class_hits-IsOwn :
    (prefix service : Text) (classes : Dict Text ℕ)
    → has_prefix prefix service ≡ true
    → All (IsOwn prefix) (class_hits service classes)
unfolding class_hits
class_hits-IsOwn prefix service [] h = tt
class_hits-IsOwn prefix service ((class, n) ∷ classes) h = elim (Bool-cases (is_network class)) [
  | inl network ↦ rw network ((h, network), class_hits-IsOwn prefix service classes h)
  | inr other ↦ rw other (class_hits-IsOwn prefix service classes h)
]

-- Every hit is of a service whose name starts with the prefix, and of one of the two network classes.
hits_of-IsOwn : (prefix : Text) (counts : Counts) → All (IsOwn prefix) (hits_of prefix counts)
unfolding hits_of
hits_of-IsOwn prefix [] = tt
hits_of-IsOwn prefix ((service, classes) ∷ counts) = elim (Bool-cases (has_prefix prefix service)) [
  | inl own ↦ rw own (
      All-append (IsOwn prefix) (class_hits service classes) (hits_of prefix counts)
        (class_hits-IsOwn prefix service classes own) (hits_of-IsOwn prefix counts))
  | inr foreign ↦ rw foreign (hits_of-IsOwn prefix counts)
]
