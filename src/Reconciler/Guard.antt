-- ===== src/Reconciler/Guard.antt =====
-- internal/app/reconciler/guard.go: the one path to Swarm's mutations.
pub mod Commands
pub mod Calls
pub mod Spacing
pub mod Gauges
use swarm_hpa.Base.{
  ℕ, Bool, true, false, not, Option, none, some, List, [], ◌∷◌, ◌++◌, Text, lit, Time, Duration,
  zero_duration, sub, ltb_ℤ, leb_ℤ, ◌-ℤ◌, wrap_i64, Float, seconds, ltb, nat_eq, if◌then◌else◌,
}
use swarm_hpa.Model.{ManagedService}
use swarm_hpa.Reconciler.World.{
  Action, scale_up, scale_down, scale_action, heal_action, rebalance_action, cooldown, dry_run,
  scale_stage, heal_stage, rebalance_stage, scale_call, force_update_call, swarm, scale_applied,
  heal_applied, rebalance_applied, action_suppressed, error, World, Env, emit,
}
use swarm_hpa.Reconciler.Cooldown.{Cooldowns, allowed, record_action, until}

-- The settings of the Guard; its cooldown is in the world.
pub record Guard : Type 0 where
  pub windows : Cooldowns
  pub is_dry_run : Bool

-- fmt.Errorf("<stage> %s: %w", name, err)
abbrev pub wrap : Text → Text → Text → Text
wrap stage name err = stage ++ (name ++ (lit ": " ++ err))

module _ {F : Type 0} (env : Env F) (g : Guard) where
  -- The window of a scaling action, by its direction.
  unfoldable pub scale_window : ManagedService F → ℕ → Duration
  scale_window svc desired =
      if ltb svc.replicas desired then g.windows.scale_up else g.windows.scale_down

  -- Each operation returns its error, if any, and the new world.
  -- Scale
  unfoldable pub scale : ManagedService F → ℕ → World F → Option Text × World F
  unfolding scale_window
  scale svc desired w =
      if not svc.replicated
      then (none, w)
      else if nat_eq desired svc.replicas
      then (none, w)
      else let (ok, w1) = allowed env svc.ref.id (scale_window svc desired) w in
        if not ok
        then (none, emit (action_suppressed scale_action cooldown) w1)
        else if g.is_dry_run
        then (none, emit (action_suppressed scale_action dry_run) (record_action env svc.ref.id w1))
        else elim (env.scale_error w1.effects svc.ref.id desired) [
          | some err ↦ (
            some (wrap (lit "scale ") svc.ref.name err),
            emit (error scale_stage) (emit (swarm (scale_call svc.ref.id desired false)) w1),
          )
          | none ↦ (
            none,
            emit (scale_applied svc.ref.name) (
                record_action env svc.ref.id
                  (emit (swarm (scale_call svc.ref.id desired true)) w1)),
          )
        ]

  -- Heal
  unfoldable pub heal : ManagedService F → World F → Option Text × World F
  heal svc w =
      let (ok, w1) = allowed env svc.ref.id g.windows.heal w in
      if not ok
      then (none, emit (action_suppressed heal_action cooldown) w1)
      else if g.is_dry_run
      then (none, emit (action_suppressed heal_action dry_run) (record_action env svc.ref.id w1))
      else elim (env.force_update_error w1.effects svc.ref.id) [
        | some err ↦ (
          some (wrap (lit "heal ") svc.ref.name err),
          emit (error heal_stage) (emit (swarm (force_update_call svc.ref.id false)) w1),
        )
        | none ↦ (
          none,
          emit (heal_applied svc.ref.name)
              (record_action env svc.ref.id (emit (swarm (force_update_call svc.ref.id true)) w1)),
        )
      ]

  -- Rebalance; its nodes are only logged.
  unfoldable pub rebalance : ManagedService F → Text → Text → World F → Option Text × World F
  rebalance svc from to w =
      if not svc.rebalance
      then (none, w)
      else let (ok, w1) = allowed env svc.ref.id g.windows.rebalance w in
        if not ok
        then (none, emit (action_suppressed rebalance_action cooldown) w1)
        else if g.is_dry_run
        then (
          none,
          emit (action_suppressed rebalance_action dry_run) (record_action env svc.ref.id w1),
        )
        else elim (env.force_update_error w1.effects svc.ref.id) [
          | some err ↦ (
            some (wrap (lit "rebalance ") svc.ref.name err),
            emit (error rebalance_stage) (emit (swarm (force_update_call svc.ref.id false)) w1),
          )
          | none ↦ (
            none,
            emit (rebalance_applied svc.ref.name) (
                record_action env svc.ref.id (emit (swarm (force_update_call svc.ref.id true)) w1)),
          )
        ]

-- The duration of `rem` in CooldownRemaining: what is left of the window, or nothing.
unfoldable pub left_over : Time → Time → Duration → Duration
left_over now last window =
    if leb_ℤ window zero_duration
    then zero_duration
    else let r = wrap_i64 (window -ℤ sub now last) in
      if ltb_ℤ zero_duration r then r else zero_duration

module _ {F : Type 0} ⦃fl : Float F⦄ where
  -- A duration in seconds, as `rem` returns it.
  unfoldable pub in_seconds : Duration → F
  in_seconds d = if ltb_ℤ zero_duration d then seconds d else fl.zero

  -- The four entries of the map, one for each action.
  unfoldable pub per_action : Cooldowns → (Duration → F) → List (Action × F)
  per_action windows f =
      (scale_up, f windows.scale_up)
      ∷ (scale_down, f windows.scale_down)
      ∷ (Action.heal, f windows.heal)
      ∷ (Action.rebalance, f windows.rebalance)
      ∷ []

  -- CooldownRemaining
  unfoldable pub cooldown_remaining : Guard → Text → Time → World F → List (Action × F)
  unfolding in_seconds per_action
  cooldown_remaining g service_id now w = elim (until service_id w) [
    | none ↦ per_action g.windows (λ window. fl.zero)
    | some last ↦ per_action g.windows (λ window. in_seconds (left_over now last window))
  ]
