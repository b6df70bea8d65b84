-- ===== src/Reconciler/World.antt =====
-- What the control loop acts on: the clock, Swarm's mutations and the recorder of
-- internal/core/port. Every call is an event of a trace, the newest first.
use swarm_hpa.Base.{ℕ, Bool, Option, List, [], ◌∷◌, Text, Time, Dict}

-- The actions that a cooldown gates, as the labels of the recorder spell them.
pub data Action : Type 0 where
  scale_up scale_down heal rebalance : Action

-- The first argument of ActionSuppressed, and its reasons.
pub data Gated : Type 0 where
  scale_action heal_action rebalance_action : Gated

pub data Suppression : Type 0 where
  cooldown dry_run : Suppression

-- The stages that Recorder.Error is called with.
pub data Stage : Type 0 where
  services_stage nodes_stage tasks_stage metric_stage scale_stage heal_stage rebalance_stage : Stage

pub data Decision : Type 0 where
  hold grow shrink : Decision

-- A call of SwarmController.Scale or .ForceUpdate, and whether it returned nil.
pub data Call : Type 0 where
  scale_call : Text → ℕ → Bool → Call
  force_update_call : Text → Bool → Call

pub data Effect (F : Type 0) : Type 0 where
  swarm : Call → Effect F
  reconcile_tick : Effect F
  observed_services : ℕ → Effect F
  scale_applied heal_applied rebalance_applied : Text → Effect F
  action_suppressed : Gated → Suppression → Effect F
  error : Stage → Effect F
  service_decision : Text → ℕ → ℕ → F → Decision → Effect F
  service_pending_tasks : Text → ℕ → Effect F
  service_cooldown : Text → Action → Bool → F → Effect F
  task_errors_window : Text → Text → ℕ → Effect F

-- The guard's last actions, how often the clock was read, and the trace.
pub record World (F : Type 0) : Type 0 where
  pub last : Dict Text Time
  pub reads : ℕ
  pub effects : List (Effect F)

-- The clock by the number of readings before, and the error, if any, that Swarm answers a mutation
-- with after a given trace.
pub record Env (F : Type 0) : Type 0 where
  pub now : ℕ → Time
  pub scale_error : List (Effect F) → Text → ℕ → Option Text
  pub force_update_error : List (Effect F) → Text → Option Text

unfoldable pub emit : {F : Type 0} → Effect F → World F → World F
emit e w = record w { effects = e ∷ w.effects }

-- The calls of Swarm's mutations in a trace.
unfoldable pub calls : {F : Type 0} → List (Effect F) → List Call
calls [] = []
calls (swarm c ∷ es) = c ∷ calls es
calls (_ ∷ es) = calls es
