-- ===== src/Reconciler/Loop/Growth.antt =====
-- How the calls of Swarm's mutations grow over a part of a pass.
use swarm_hpa.Base.{
  ◌≡◌, sym, ap, ◌∙◌, Bool, true, false, List, [], ◌∷◌, ◌++◌, append_assoc, All, All-append,
}
use swarm_hpa.Reconciler.World.{Call, World, Env, calls}
use swarm_hpa.Reconciler.Guard.{Guard}
use swarm_hpa.Reconciler.Guard.Commands.{Command, step, permits, call_of}
use swarm_hpa.Reconciler.Guard.Calls.{skipped, pretended, failed, applied, exec-Outcome}

-- The new calls stand before the old ones, and all of them have the property.
pub record Grown {F : Type 0} (P : Call → Type 0) (w w' : World F) : Type 0 where
  pub new : List Call
  pub before : calls w'.effects ≡ new ++ calls w.effects
  pub each : All P new

module _ {F : Type 0} (P : Call → Type 0) where
  pub Grown-silent : (w w' : World F) → calls w'.effects ≡ calls w.effects → Grown P w w'
  Grown-silent w w' e = record { new = []; before = e; each = tt }

  pub Grown-trans : (u v w : World F) → Grown P u v → Grown P v w → Grown P u w
  Grown-trans u v w a b = record {
    new = b.new ++ a.new;
    before =
        b.before
        ∙ (ap (λ l. b.new ++ l) a.before ∙ sym (append_assoc b.new a.new (calls u.effects)));
    each = All-append P b.new a.new b.each a.each;
  }

  -- A guarded command adds its call at most, and only where it is permitted and the mode is not dry-run.
  pub Grown-step :
      (env : Env F) (g : Guard) (c : Command F) (w : World F)
      → ((ok : Bool) → permits c ≡ true → g.is_dry_run ≡ false → P (call_of c ok))
      → Grown P w (step env g c w)
  Grown-step env g c w p = elim (exec-Outcome env g c w) [
    | skipped e _ _ _ ↦ Grown-silent w (step env g c w) e
    | pretended _ _ _ e _ _ _ ↦ Grown-silent w (step env g c w) e
    | failed a d _ e _ _ _ ↦ record {
      new = call_of c false ∷ [];
      before = e;
      each = (p false a d, tt);
    }
    | applied a d _ e _ _ _ ↦ record {
      new = call_of c true ∷ [];
      before = e;
      each = (p true a d, tt);
    }
  ]
