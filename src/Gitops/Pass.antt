-- ===== src/Gitops/Pass.antt =====
-- internal/app/gitopsync/loop.go: the loop's fields, the locals of syncStack, and its calls.
-- The ports are parameters: a call answers after a given trace, and can panic.
use swarm_hpa.Base.{ℕ, Bool, Option, List, ◌∷◌, ◌++◌, Text, lit, Time, Dict, Result}
use swarm_hpa.Model.{StackService}
use swarm_hpa.Compose.Fields.{Value, Fields}
use swarm_hpa.Compose.Rotation.{ComposeError}
use swarm_hpa.Statusstore.{StackFileStatus, Store}
use swarm_hpa.Config.Gitops.{StackConfig}

-- The stages that an error names.
pub data Stage : Type 0 where
  git_stage render_stage secrets_stage rotate_stage deploy_stage sync_stage : Stage

unfoldable pub stage_text : Stage → Text
stage_text git_stage = lit "git"
stage_text render_stage = lit "render"
stage_text secrets_stage = lit "secrets"
stage_text rotate_stage = lit "rotate"
stage_text deploy_stage = lit "deploy"
stage_text sync_stage = lit "sync"

-- port.ComposeDoc
pub record ComposeDoc (F : Type 0) : Type 0 where
  pub fields : Fields F
  pub dir : Text

-- The calls of the ports and of the recorder.
pub data Event (F : Type 0) : Type 0 where
  sync_run : Event F
  git_call : Text → Event F
  read_call : Text → Event F
  render_call : List ℕ → List ℕ → Event F
  services_call : Text → Event F
  decrypt_call : Text → List Text → Event F
  deploy_call : Text → List (ComposeDoc F) → Text → Event F
  sync_error : Stage → Event F
  last_revision : Text → Text → Event F
  stack_replicas : Text → Text → ℕ → ℕ → Event F
  sync_suppressed : Text → Event F
  deploy_applied : Text → Event F
  check_scheduled : Text → Event F

pub data Answer (A : Type 0) : Type 0 where
  answered : A → Answer A
  refused panicked : Text → Answer A

-- The ports and the functions of other packages. `none` is a port that is not wired; `join` and `dir`
-- are filepath.Join and filepath.Dir, `hash` the eight hex digits of rotation, `sprint` fmt.Sprint.
pub record Ports (F : Type 0) : Type 0 where
  pub now : List (Event F) → Time
  pub never : Time
  pub sync : List (Event F) → StackConfig → Answer Text
  pub read_file : List (Event F) → StackConfig → Text → Result Text (List ℕ)
  pub worktree_path : StackConfig → Text
  pub render : List (Event F) → List ℕ → List ℕ → Answer (Fields F)
  pub stack_services : Option (List (Event F) → Text → Answer (List StackService))
  pub decrypt : Option (List (Event F) → Text → List Text → Answer Unit)
  pub deploy : List (Event F) → Text → List (ComposeDoc F) → Text → Answer Unit
  pub join : Text → Text → Text
  pub dir : Text → Text
  pub hash : List ℕ → Text
  pub sprint : Value F → Text
  pub error_text : ComposeError → Text

-- The fields of Loop that stay as they are: `stored` is that a status store is wired, `watched` that a
-- task-error tracker is.
pub record Settings : Type 0 where
  pub pull_policy : Text
  pub dry_run : Bool
  pub auto_rotate : Bool
  pub stored : Bool
  pub watched : Bool

-- The trace, the newest call first, the maps of Loop, the status store, and the locals of syncStack.
pub record Pass (F : Type 0) : Type 0 where
  pub trace : List (Event F)
  pub last_deployed_rev : Dict Text Text
  pub last_deployed_ok : Dict Text Bool
  pub last_desired : Dict Text (Dict Text ℕ)
  pub deploy_count : Dict Text ℕ
  pub store : Store
  pub revision : Text
  pub files : List StackFileStatus

-- A part of syncStack goes on with a value, or returns with an error's stage and text.
pub data Outcome (A : Type 0) : Type 0 where
  value : A → Outcome A
  broken : Stage → Text → Outcome A

abbrev pub Step : Type 0 → Type 0 → Type 0
Step F A = Pass F → Outcome A × Pass F

module _ {F : Type 0} where
  abbrev pub emit : Event F → Pass F → Pass F
  emit e p = record p { trace = e ∷ p.trace }

  module _ {A B : Type 0} where
    unfoldable pub proceed : Outcome A → (A → Step F B) → Step F B
    proceed (value a) f p = f a p
    proceed (broken stage message) f p = (broken stage message, p)

  infixl 5 ◌>>=◌ ◌>>◌
  unfoldable pub ◌>>=◌ : {A B : Type 0} → Step F A → (A → Step F B) → Step F B
  ◌>>=◌ m f p = let (o, q) = m p in proceed o f q

  unfoldable pub ◌>>◌ : {A B : Type 0} → Step F A → Step F B → Step F B
  m >> k = m >>= λ _. k

  abbrev pub pure : {A : Type 0} → A → Step F A
  pure a p = (value a, p)

  abbrev pub modify : (Pass F → Pass F) → Step F Unit
  modify f p = (value tt, f p)

  -- An error of a stage.
  unfoldable pub fail : {A : Type 0} → Stage → Text → Step F A
  fail stage message p = (broken stage message, emit (sync_error stage) p)

  -- A call's answer, in a stage; the deferred function of syncStack recovers from a panic.
  unfoldable pub settle : {A : Type 0} → Stage → Answer A → Step F A
  unfolding fail
  settle stage (answered a) = pure a
  settle stage (refused message) = fail stage message
  settle stage (panicked message) = fail sync_stage (lit "panic: " ++ message)

  unfoldable pub ask : {A : Type 0} → Stage → Event F → (List (Event F) → Answer A) → Step F A
  unfolding settle
  ask stage e f p = settle stage (f p.trace) (emit e p)
