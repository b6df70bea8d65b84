-- ===== src/Reconciler/Guard/Calls.antt =====
-- Which calls of Swarm's mutations the guarded operations make.
use swarm_hpa.Base.{
  length, suc, ◌≤◌, ◌≡◌, ◌≢◌, inl, inr, refl, sym, ap, ◌∙◌, Bool, true, false, none, some, List, [],
  ◌∷◌, arith, Text, put, text_keys, Option-cases, Bool-cases,
}
use swarm_hpa.Reconciler.World.{swarm, World, Effect, Env, emit, calls}
use swarm_hpa.Reconciler.Cooldown.{allowed, record_action}
use swarm_hpa.Reconciler.Guard.{Guard}
use swarm_hpa.Reconciler.Guard.Commands.{
  Command, do_scale, do_heal, do_rebalance, service_of, exec, step, window_of, permits, call_of,
  applied_of, answer_of, gate, exec-gate,
}

applied-silent :
    {F : Type 0} (c : Command F) (es : List (Effect F)) → calls (applied_of c ∷ es) ≡ calls es
unfolding calls
applied-silent (do_scale svc n) es = refl
applied-silent (do_heal svc) es = refl
applied-silent (do_rebalance svc from to) es = refl

module _ {F : Type 0} (env : Env F) (g : Guard) (c : Command F) (w : World F) where
  -- What the cooldown says of the command.
  abbrev pub verdict : Bool × World F
  verdict = allowed env (service_of c).ref.id (window_of env g c) w

  -- The four ways in which a command can end: no call, no error and nothing recorded; the same with
  -- the time of the action recorded, in dry-run mode alone; a call that failed, with an error and
  -- nothing recorded; a call that succeeded, with the time of the action recorded.
  pub data Outcome : Type 0 where
    skipped :
        calls (step env g c w).effects ≡ calls w.effects
        → (exec env g c w).0 ≡ none
        → (step env g c w).last ≡ w.last
        → w.reads ≤ (step env g c w).reads
        → Outcome
    pretended :
        permits c ≡ true
        → g.is_dry_run ≡ true
        → verdict.0 ≡ true
        → calls (step env g c w).effects ≡ calls w.effects
        → (exec env g c w).0 ≡ none
        → (step env g c w).last ≡ put (service_of c).ref.id (env.now verdict.1.reads) w.last
        → (step env g c w).reads ≡ suc verdict.1.reads
        → Outcome
    failed :
        permits c ≡ true
        → g.is_dry_run ≡ false
        → verdict.0 ≡ true
        → calls (step env g c w).effects ≡ call_of c false ∷ calls w.effects
        → (exec env g c w).0 ≢ none
        → (step env g c w).last ≡ w.last
        → w.reads ≤ (step env g c w).reads
        → Outcome
    applied :
        permits c ≡ true
        → g.is_dry_run ≡ false
        → verdict.0 ≡ true
        → calls (step env g c w).effects ≡ call_of c true ∷ calls w.effects
        → (exec env g c w).0 ≡ none
        → (step env g c w).last ≡ put (service_of c).ref.id (env.now verdict.1.reads) w.last
        → (step env g c w).reads ≡ suc verdict.1.reads
        → Outcome

  effects-allowed : verdict.1.effects ≡ w.effects
  unfolding allowed
  effects-allowed = ground arith

  pub last-allowed : verdict.1.last ≡ w.last
  unfolding allowed
  last-allowed = ground arith

  pub reads-allowed : w.reads ≤ verdict.1.reads
  unfolding allowed
  reads-allowed = ground arith

  calls-applied : (es : List (Effect F)) → calls (applied_of c ∷ es) ≡ calls es
  unfolding calls
  calls-applied es = applied-silent c es

  refused : permits c ≡ false → exec env g c w ≡ (none, w)
  refused p = rw (exec-gate env g c w, p)

  permitted : permits c ≡ true → exec env g c w ≡ gate env g c w
  permitted p = rw (exec-gate env g c w, p)

  waits : permits c ≡ true → verdict.0 ≡ false → Outcome
  unfolding emit calls
  waits p v =
      skipped (ground (arith, permitted p, v, effects-allowed)) (ground (arith, permitted p, v))
        (ground (arith, permitted p, v, last-allowed))
        (ground (arith, permitted p, v, reads-allowed))

  pretends : permits c ≡ true → verdict.0 ≡ true → g.is_dry_run ≡ true → Outcome
  unfolding emit calls record_action
  pretends p v d =
      pretended p d v (ground (arith, permitted p, v, effects-allowed))
        (ground (arith, permitted p, v)) (ground (arith, permitted p, v, last-allowed))
        (ground (arith, permitted p, v))

  fails :
      (err : Text)
      → permits c ≡ true
      → verdict.0 ≡ true
      → g.is_dry_run ≡ false
      → answer_of env g c verdict.1.effects ≡ some err
      → Outcome
  unfolding emit calls
  fails err p v d a =
      failed p d v (ground (arith, permitted p, v, effects-allowed))
        (λ e. ground (arith, permitted p, v)) (ground (arith, permitted p, v, last-allowed))
        (ground (arith, permitted p, v, reads-allowed))

  succeeds :
      permits c ≡ true
      → verdict.0 ≡ true
      → g.is_dry_run ≡ false
      → answer_of env g c verdict.1.effects ≡ none
      → Outcome
  unfolding emit calls record_action
  succeeds p v d a =
      applied p d v
        (ground (
          arith,
          permitted p,
          v,
          effects-allowed,
          calls-applied (swarm (call_of c true) ∷ verdict.1.effects),
        ))
        (ground (arith, permitted p, v)) (ground (arith, permitted p, v, last-allowed))
        (ground (arith, permitted p, v))

  -- The result of a command that the operation's own checks turn away.
  turned_away : permits c ≡ false → Outcome
  turned_away p =
      skipped (ground (arith, refused p)) (ground (arith, refused p)) (ground (arith, refused p))
        (ground (arith, refused p))

  -- Every command ends in one of four ways: without a call, an error or a record; in dry-run mode alone,
  -- without a call or an error but with its time recorded; out of dry-run mode, with a call that failed, an
  -- error and no record; out of dry-run mode, with a call that succeeded, no error and its time recorded.
  pub exec-Outcome : Outcome
  exec-Outcome = elim (Bool-cases (permits c)) [
    | inr p ↦ turned_away p
    | inl p ↦ elim (Bool-cases verdict.0) [
      | inr v ↦ waits p v
      | inl v ↦ elim (Bool-cases g.is_dry_run) [
        | inl d ↦ pretends p v d
        | inr d ↦ elim (Option-cases (answer_of env g c verdict.1.effects)) [
          | inl a ↦ succeeds p v d a
          | inr (err, a) ↦ fails err p v d a
        ]
      ]
    ]
  ]

first : {A : Type 0} → A → List A → A
first a [] = a
first a (x ∷ xs) = x

not_longer : {A : Type 0} (x : A) (xs : List A) → xs ≢ x ∷ xs
not_longer x xs e = omega (arith, ap length e)

call_of-result : {F : Type 0} (c : Command F) → call_of c false ≢ call_of c true
call_of-result (do_scale svc n) e = cc
call_of-result (do_heal svc) e = cc
call_of-result (do_rebalance svc from to) e = cc

module _ {F : Type 0} (env : Env F) (g : Guard) (c : Command F) (w : World F) where
  -- A command makes a call only if the service permits it, the mode is not dry-run, and the cooldown
  -- allows it.
  pub issued-allowed :
      (ok : Bool)
      → calls (step env g c w).effects ≡ call_of c ok ∷ calls w.effects
      → (permits c ≡ true) × (g.is_dry_run ≡ false) × ((verdict env g c w).0 ≡ true)
  issued-allowed ok h = elim (exec-Outcome env g c w) [
    | skipped e _ _ _ ↦ absurd (not_longer (call_of c ok) (calls w.effects) (sym e ∙ h))
    | pretended _ _ _ e _ _ _ ↦ absurd (not_longer (call_of c ok) (calls w.effects) (sym e ∙ h))
    | failed p d v _ _ _ _ ↦ (p, d, v)
    | applied p d v _ _ _ _ ↦ (p, d, v)
  ]

  -- A call that succeeded has the time of the action recorded.
  pub applied-recorded :
      calls (step env g c w).effects ≡ call_of c true ∷ calls w.effects
      → ((step env g c w).last
          ≡ put (service_of c).ref.id (env.now (verdict env g c w).1.reads) w.last)
        × ((step env g c w).reads ≡ suc (verdict env g c w).1.reads)
  unfolding first
  applied-recorded h = elim (exec-Outcome env g c w) [
    | skipped e _ _ _ ↦ absurd (not_longer (call_of c true) (calls w.effects) (sym e ∙ h))
    | pretended _ _ _ e _ _ _ ↦ absurd (not_longer (call_of c true) (calls w.effects) (sym e ∙ h))
    | failed _ _ _ e _ _ _ ↦ absurd (call_of-result c (ap (first (call_of c false)) (sym e ∙ h)))
    | applied _ _ _ _ _ l r ↦ (l, r)
  ]
