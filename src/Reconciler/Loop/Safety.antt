-- ===== src/Reconciler/Loop/Safety.antt =====
-- A whole pass of the loop calls Swarm only with a reason, and not at all in dry-run mode.
use mathlib.Core.Path.{subst}
use swarm_hpa.Base.{
  sym, ◌≡◌, ◌⊎◌, inl, inr, refl, ap, ◌∙◌, Bool, true, false, not, Option, none, some, List, [], ◌∷◌,
  ◌++◌, arith, Text, Time, Dict, lookup, length, text_keys, Float, In, All, Option-cases,
  if◌then◌else◌,
}
use swarm_hpa.Model.{ManagedService, TaskView, NodeView, AgentReport}
use swarm_hpa.Rebalancer.{Plan, Move, recommend}
use swarm_hpa.TaskErrors.Tracker.{Tracked}
use swarm_hpa.Reconciler.World.{Effect, Call, World, Env, emit, calls, observed_services}
use swarm_hpa.Reconciler.Cooldown.{tick}
use swarm_hpa.Reconciler.Observation.{observe_task_errors, any_rebalance_opt_in, build_node_states}
use swarm_hpa.Reconciler.Guard
use swarm_hpa.Reconciler.Guard.Commands.{exec}
use swarm_hpa.Reconciler.Loop.{
  Reads, Config, State, by_id, apply_moves, rebalance_pass, visit_all, pass, read_nodes,
  observe_services, observe,
}
use swarm_hpa.Reconciler.Loop.Growth.{Grown, Grown-silent, Grown-trans}
use swarm_hpa.Reconciler.Loop.Reasons.{IsSound, Reason, Rules, reasoned, silenced}
use swarm_hpa.Reconciler.Loop.Parts.{
  calls-observe_task_errors, Adds-visits, by_id-AllListed, AllListed,
}

-- Without the services a pass makes no call.
calls-unread :
    {F : Type 0} ⦃fl : Float F⦄ (env : Env F) (cfg : Config F) (r : Reads F) (tracked : Tracked)
    (st : State F)
    → r.managed_services ≡ none
    → calls (observe env cfg r tracked st).1.world.effects ≡ calls st.world.effects
unfolding observe observe_services emit calls
calls-unread env cfg r tracked st e =
    ap (λ q. calls (observe_services env cfg r q tracked st).1.world.effects) e

none_new : (l : List Call) → All (λ c. ⊥) l → l ≡ []
none_new [] h = refl
none_new (c ∷ l) h = absurd h.0

module _ {F : Type 0} ⦃fl : Float F⦄ (env : Env F) (cfg : Config F) (r : Reads F)
    (services : List (ManagedService F)) (now : Time) (R : Call → Type 0)
    (rules : Rules env cfg r services now R) where
  Grown-move :
      (mv : Move F) (o : Option (ManagedService F)) (w : World F)
      → ((svc : ManagedService F) → o ≡ some svc → In svc services)
      → cfg.rebalancing ≡ true
      → Grown R w (elim o [
        | none ↦ w
        | some svc ↦ (Guard.rebalance env cfg.guard svc mv.from_node_id mv.to_node_id w).1
      ])
  unfolding exec
  Grown-move mv none w a b = Grown-silent R w w refl
  Grown-move mv (some svc) w a b =
      rules.on_rebalance svc mv.from_node_id mv.to_node_id w (a svc refl) b

  Grown-moves :
      (m : Dict Text (ManagedService F)) (moves : Plan F) (w : World F)
      → AllListed env cfg r services now R rules m
      → cfg.rebalancing ≡ true
      → Grown R w (apply_moves env cfg m moves w)
  unfolding apply_moves
  Grown-moves m [] w a b = Grown-silent R w w refl
  Grown-moves m (mv ∷ mvs) w a b =
      let w1 = apply_moves env cfg m (mv ∷ []) w in
      Grown-trans R w w1 (apply_moves env cfg m mvs w1)
        (Grown-move mv (lookup mv.service_id m) w (a mv.service_id) b) (Grown-moves m mvs w1 a b)

  none_listed : AllListed env cfg r services now R rules []
  unfolding lookup
  none_listed id s h = cc

  Grown-if :
      (b : Bool) (u v w : World F)
      → (b ≡ true → Grown R u v)
      → (b ≡ false → Grown R u w)
      → Grown R u (if b then v else w)
  Grown-if true u v w t f = t refl
  Grown-if false u v w t f = f refl

  Grown-rebalance_pass :
      (tbn : Dict Text (List TaskView)) (nodes : List NodeView) (reports : List (AgentReport F))
      (w : World F)
      → Grown R w (rebalance_pass env cfg services tbn nodes reports w)
  unfolding rebalance_pass
  Grown-rebalance_pass tbn nodes reports w =
      let m = by_id env cfg services [] in
      let moved =
        apply_moves env cfg m
          (recommend (build_node_states nodes reports) services tbn cfg.rebalance_threshold) w in
      Grown-if (not cfg.rebalancing) w w (if not (any_rebalance_opt_in services) then w else moved)
        (λ _. Grown-silent R w w refl)
        (λ b.
          Grown-if (not (any_rebalance_opt_in services)) w w moved (λ _. Grown-silent R w w refl)
            (λ _.
              Grown-moves m
                (recommend (build_node_states nodes reports) services tbn cfg.rebalance_threshold) w
                (by_id-AllListed env cfg r services now R rules services [] (λ s i. i) none_listed)
                (ground arith)))

  Grown-pass :
      (nodes : List NodeView) (tracked : Tracked) (st : State F)
      → (nodes ≡ []) ⊎ (r.nodes ≡ some nodes)
      → Grown R st.world (pass env cfg r services nodes now tracked st).1.world
  unfolding pass
  Grown-pass nodes tracked st n =
      let o =
        observe_task_errors env cfg.watched cfg.error_window r.all_tasks r.all_services tracked
          st.world in
      let s1 = record st { world = o.1 } in
      let v = visit_all env cfg r nodes now services [] s1 in
      Grown-trans R st.world o.1 (pass env cfg r services nodes now tracked st).1.world
        (Grown-silent R st.world o.1 (
          calls-observe_task_errors env cfg.watched cfg.error_window r.all_tasks r.all_services
            tracked st.world))
        (Grown-trans R o.1 v.1.world (pass env cfg r services nodes now tracked st).1.world
          (Adds-visits env cfg r services now R rules nodes services [] s1 (λ s i. i) n)
          (Grown-rebalance_pass v.0 nodes r.snapshot v.1.world))

  read_nodes-listed :
      (o : Option (List NodeView)) (w : World F)
      → ((read_nodes env cfg o w).0 ≡ []) ⊎ (o ≡ some (read_nodes env cfg o w).0)
  unfolding read_nodes
  read_nodes-listed none w = inl refl
  read_nodes-listed (some ns) w = inr refl

  calls-read_nodes :
      (o : Option (List NodeView)) (w : World F)
      → calls (read_nodes env cfg o w).1.effects ≡ calls w.effects
  unfolding read_nodes emit calls
  calls-read_nodes none w = refl
  calls-read_nodes (some ns) w = refl

  -- The reads of the nodes take no reading of the clock.
  reads-read_nodes :
      (o : Option (List NodeView)) (w : World F) → (read_nodes env cfg o w).1.reads ≡ w.reads
  unfolding read_nodes emit
  reads-read_nodes none w = refl
  reads-read_nodes (some ns) w = refl

  reads-emit : (e : Effect F) (w : World F) → (emit e w).reads ≡ w.reads
  unfolding emit
  reads-emit e w = refl

  Grown-observe_services :
      (tracked : Tracked) (st : State F)
      → now ≡ env.now st.world.reads
      → Grown R st.world (observe_services env cfg r (some services) tracked st).1.world
  unfolding observe_services emit calls tick
  Grown-observe_services tracked st at =
      let w0 = emit (observed_services (length services)) st.world in
      let n = read_nodes env cfg r.nodes w0 in
      let s1 = record st { world = tick n.1 } in
      let same : now ≡ env.now n.1.reads =
        at
        ∙ ap env.now (
            sym (
              reads-read_nodes r.nodes w0
              ∙ reads-emit (observed_services (length services)) st.world)) in
      Grown-trans R st.world s1.world
        (observe_services env cfg r (some services) tracked st).1.world
        (Grown-silent R st.world s1.world (calls-read_nodes r.nodes w0))
        (subst (λ t. Grown R s1.world (pass env cfg r services n.0 t tracked s1).1.world) same
          (Grown-pass n.0 tracked s1 (read_nodes-listed r.nodes w0)))

  pub Grown-observe :
      (tracked : Tracked) (st : State F)
      → r.managed_services ≡ some services
      → now ≡ env.now st.world.reads
      → Grown R st.world (observe env cfg r tracked st).1.world
  unfolding observe emit calls
  Grown-observe tracked st e at =
      let o = observe_services env cfg r (some services) tracked st in
      let g = Grown-observe_services tracked st at in
      record {
        new = g.new;
        before =
            ap (λ q. calls (observe_services env cfg r q tracked st).1.world.effects) e ∙ g.before;
        each = g.each;
      }

-- Where the services were read, and each has min at most max and counts that are uint64, every call
-- that a pass adds has a reason: out of dry-run mode, it scales a replicated service that
-- opted into autoscaling, to another count between its bounds (widened to the current count), or it
-- force-updates a service that opted into healing and has constraints, of which a task that was read is pending
-- for at least the heal threshold at the clock's reading at the start of the pass, and whose constraints an
-- active node that was read meets; or it force-updates one that opted into rebalancing where rebalancing is wired.
pub observe-Reason :
    {F : Type 0} ⦃fl : Float F⦄ (env : Env F) (cfg : Config F) (r : Reads F)
    (services : List (ManagedService F)) (tracked : Tracked) (st : State F)
    → r.managed_services ≡ some services
    → All IsSound services
    → Grown
        (Reason cfg r services (env.now st.world.reads))
        st.world
        (observe env cfg r tracked st).1.world
observe-Reason env cfg r services tracked st e sound =
    let now = env.now st.world.reads in
    Grown-observe env cfg r services now (Reason cfg r services now)
      (reasoned env cfg r services now sound) tracked st e refl

-- In dry-run mode a pass makes no call, whatever its reads answer.
pub observe-dry_run :
    {F : Type 0} ⦃fl : Float F⦄ (env : Env F) (cfg : Config F) (r : Reads F) (tracked : Tracked)
    (st : State F)
    → cfg.guard.is_dry_run ≡ true
    → calls (observe env cfg r tracked st).1.world.effects ≡ calls st.world.effects
observe-dry_run env cfg r tracked st dry = elim (Option-cases r.managed_services) [
  | inl e ↦ calls-unread env cfg r tracked st e
  | inr (services, e) ↦
      let g =
        let now = env.now st.world.reads in
        Grown-observe env cfg r services now (λ call. ⊥) (silenced env cfg r services now dry)
          tracked st e refl in
      g.before ∙ ap (λ l. l ++ calls st.world.effects) (none_new g.new g.each)
]
