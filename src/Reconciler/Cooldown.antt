-- ===== src/Reconciler/Cooldown.antt =====
-- internal/app/reconciler/cooldown.go: when was the last action on each service?
use swarm_hpa.Base.{
  suc, Bool, true, Option, none, some, Text, Time, Duration, zero_duration, sub, leb_ℤ, lookup, put,
  text_keys, if◌then◌else◌,
}
use swarm_hpa.Reconciler.World.{World, Env}

pub record Cooldowns : Type 0 where
  pub scale_up : Duration
  pub scale_down : Duration
  pub heal : Duration
  pub rebalance : Duration

module _ {F : Type 0} where
  -- c.clock.Now()
  unfoldable pub tick : World F → World F
  tick w = record w { reads = suc w.reads }

  -- The part of Allowed behind the lookup; the clock is read only if there was an action.
  unfoldable pub elapsed : Env F → Duration → Option Time → World F → Bool × World F
  unfolding tick
  elapsed env window none w = (true, w)
  elapsed env window (some last) w = (leb_ℤ window (sub (env.now w.reads) last), tick w)

  -- Allowed
  unfoldable pub allowed : Env F → Text → Duration → World F → Bool × World F
  unfolding elapsed
  allowed env service_id window w =
      if leb_ℤ window zero_duration
      then (true, w)
      else elapsed env window (lookup service_id w.last) w

  -- Record
  unfoldable pub record_action : Env F → Text → World F → World F
  record_action env service_id w = record w {
    last = put service_id (env.now w.reads) w.last;
    reads = suc w.reads;
  }

  -- Until
  unfoldable pub until : Text → World F → Option Time
  until service_id w = lookup service_id w.last
