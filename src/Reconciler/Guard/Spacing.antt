-- ===== src/Reconciler/Guard/Spacing.antt =====
-- Two actions on one service are a cooldown window apart.
use mathlib.Core.Path.{subst}
use native.Mathlib.Nat.{add-zero, add-suc}
use swarm_hpa.Base.{
  ℕ, zero, suc, ◌+◌, ◌-◌, ◌≤◌, Dict, ◌≡◌, inl, inr, sym, ap, ◌∙◌, Bool, true, false, some, List, [],
  ◌∷◌, arith, Text, text_eq, Duration, Time, zero_duration, pos, ◌+ℤ◌, ◌≤ℤ◌, ◌<ℤ◌, +ℤ_parts, leb_ℤ,
  le-sub, lookup, lookup-put, lookup-put_self, text_keys, Bool-cases, put, sub,
}
use swarm_hpa.Reconciler.World.{World, Env, calls}
use swarm_hpa.Reconciler.Cooldown.{allowed}
use swarm_hpa.Reconciler.Guard.{Guard}
use swarm_hpa.Reconciler.Guard.Commands.{Command, service_of, step, run, window_of, call_of}
use swarm_hpa.Reconciler.Guard.Calls.{
  skipped, pretended, failed, applied, verdict, reads-allowed, exec-Outcome, applied-recorded,
  issued-allowed,
}

-- The clock never goes back.
abbrev pub IsMonotone : {F : Type 0} → Env F → Type 0
IsMonotone env = (i : ℕ) → env.now i ≤ℤ env.now (suc i)

-- The service's last action is at `t` or later, and not in the future of the clock.
pub record ActedSince {F : Type 0} (env : Env F) (id : Text) (t : Time) (w : World F) : Type 0 where
  pub at : Time
  pub known : lookup id w.last ≡ some at
  pub since : t ≤ℤ at
  pub past : at ≤ℤ env.now w.reads

module _ {F : Type 0} (env : Env F) (g : Guard) (mono : IsMonotone env) where
  now_mono : (d i : ℕ) → env.now i ≤ℤ env.now (i + d)
  now_mono zero i = rw (add-zero i) (omega arith)
  now_mono (suc d) i = rw (add-suc i d) (omega (arith, now_mono d i, mono (i + d)))

  now-le : (i j : ℕ) → i ≤ j → env.now i ≤ℤ env.now j
  now-le i j h =
      let e : i + (j - i) ≡ j = omega arith in
      subst (λ k. env.now i ≤ℤ env.now k) e (now_mono (j - i) i)

  kept-ActedSince :
      (w w' : World F) (id : Text) (t : Time)
      → w'.last ≡ w.last
      → w.reads ≤ w'.reads
      → ActedSince env id t w
      → ActedSince env id t w'
  kept-ActedSince w w' id t el er a = record {
    at = a.at;
    known = ap (λ (m : Dict Text Time). lookup id m) el ∙ a.known;
    since = a.since;
    past = omega (arith, now-le w.reads w'.reads er, a.past);
  }

  put-ActedSince :
      (w w' : World F) (id j : Text) (t : Time) (k : ℕ)
      → w'.last ≡ put j (env.now k) w.last
      → w'.reads ≡ suc k
      → w.reads ≤ k
      → ActedSince env id t w
      → ActedSince env id t w'
  put-ActedSince w w' id j t k el er ek a = elim (Bool-cases (text_eq j id)) [
    | inl same ↦ record {
      at = env.now k;
      known =
          ap (λ (m : Dict Text Time). lookup id m) el
          ∙ (lookup-put j id (env.now k) w.last ∙ rw same);
      since = omega (arith, now-le w.reads k ek, a.past, a.since);
      past = rw er (mono k);
    }
    | inr other ↦ record {
      at = a.at;
      known =
          ap (λ (m : Dict Text Time). lookup id m) el
          ∙ (lookup-put j id (env.now k) w.last ∙ rw other a.known);
      since = a.since;
      past = rw er (omega (arith, now-le w.reads (suc k) (omega arith), a.past));
    }
  ]

  -- A command keeps the fact for every service: it leaves the entry, or writes a later one.
  step-ActedSince :
      (c : Command F) (w : World F) (id : Text) (t : Time)
      → ActedSince env id t w
      → ActedSince env id t (step env g c w)
  step-ActedSince c w id t a = elim (exec-Outcome env g c w) [
    | skipped _ _ l r ↦ kept-ActedSince w (step env g c w) id t l r a
    | failed _ _ _ _ _ l r ↦ kept-ActedSince w (step env g c w) id t l r a
    | pretended _ _ _ _ _ l r ↦
        put-ActedSince w (step env g c w) id (service_of c).ref.id t (verdict env g c w).1.reads l r
          (reads-allowed env g c w) a
    | applied _ _ _ _ _ l r ↦
        put-ActedSince w (step env g c w) id (service_of c).ref.id t (verdict env g c w).1.reads l r
          (reads-allowed env g c w) a
  ]

  run-ActedSince :
      (cs : List (Command F)) (w : World F) (id : Text) (t : Time)
      → ActedSince env id t w
      → ActedSince env id t (run env g cs w)
  run-ActedSince [] w id t a = a
  run-ActedSince (c ∷ cs) w id t a =
      run-ActedSince cs (step env g c w) id t (step-ActedSince c w id t a)

  -- Whoever is allowed by a positive window has waited it out.
  allowed-waited :
      (id : Text) (window : Duration) (w : World F) (t : Time)
      → pos 0 <ℤ window
      → ActedSince env id t w
      → (allowed env id window w).0 ≡ true
      → window +ℤ t ≤ℤ env.now w.reads
  unfolding allowed
  allowed-waited id window w t p a h =
      let finite : leb_ℤ window zero_duration ≡ false = ground arith in
      let elapsed : leb_ℤ window (sub (env.now w.reads) a.at) ≡ true =
        ground (arith, finite, a.known) in
      omega (
        arith,
        le-sub window (env.now w.reads) a.at p elapsed,
        +ℤ_parts window a.at,
        +ℤ_parts window t,
        a.since,
      )

  -- A call that succeeded leaves its time behind.
  applied-ActedSince :
      (c : Command F) (w : World F)
      → calls (step env g c w).effects ≡ call_of c true ∷ calls w.effects
      → ActedSince env (service_of c).ref.id (env.now w.reads) (step env g c w)
  applied-ActedSince c w h =
      let (l, r) = applied-recorded env g c w h in
      let k = (verdict env g c w).1.reads in
      record {
        at = env.now k;
        known =
            ap (λ (m : Dict Text Time). lookup (service_of c).ref.id m) l
            ∙ lookup-put_self (service_of c).ref.id (env.now k) w.last;
        since = now-le w.reads k (reads-allowed env g c w);
        past = rw r (mono k);
      }

-- Between a command that mutated a service and any later command that calls Swarm for the same
-- service, whatever commands for whatever services run in between, the clock has advanced by the
-- later command's window at least, if that is positive and the clock never goes back.
pub calls_spaced :
    {F : Type 0} (env : Env F) (g : Guard) (c d : Command F) (between : List (Command F))
    (w : World F) (ok : Bool)
    → IsMonotone env
    → (service_of d).ref.id ≡ (service_of c).ref.id
    → pos 0 <ℤ window_of env g d
    → calls (step env g c w).effects ≡ call_of c true ∷ calls w.effects
    → (let w' = run env g between (step env g c w) in
        calls (step env g d w').effects ≡ call_of d ok ∷ calls w'.effects)
    → window_of env g d +ℤ env.now w.reads ≤ℤ env.now (run env g between (step env g c w)).reads
calls_spaced env g c d between w ok mono same p done issued =
    let w' = run env g between (step env g c w) in
    let acted =
      run-ActedSince env g mono between (step env g c w) (service_of c).ref.id (env.now w.reads)
        (applied-ActedSince env g mono c w done) in
    let (_, _, waited) = issued-allowed env g d w' ok issued in
    allowed-waited env g mono (service_of d).ref.id (window_of env g d) w' (env.now w.reads) p
      (subst (λ id. ActedSince env id (env.now w.reads) w') (sym same) acted) waited
