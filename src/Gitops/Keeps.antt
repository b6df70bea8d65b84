-- ===== src/Gitops/Keeps.antt =====
-- Steps of a pass that leave a part of its state as it is.
use swarm_hpa.Base.{◌≡◌, refl, ◌∙◌, Bool, true, false, if◌then◌else◌}
use swarm_hpa.Gitops.Pass.{Pass, Outcome, value, broken, Step, proceed, ◌>>=◌}

module _ {F V : Type 0} (view : Pass F → V) where
  abbrev pub Keeps : {A : Type 0} → Step F A → Type 0
  Keeps m = (p : Pass F) → view (m p).1 ≡ view p

  proceed-Keeps :
      {A B : Type 0} (o : Outcome A) (f : A → Step F B)
      → ((a : A) → Keeps (f a))
      → Keeps (proceed o f)
  unfolding proceed
  proceed-Keeps (value a) f h p = h a p
  proceed-Keeps (broken stage message) f h p = refl

  pub bind-Keeps :
      {A B : Type 0} (m : Step F A) (f : A → Step F B)
      → Keeps m
      → ((a : A) → Keeps (f a))
      → Keeps (m >>= f)
  unfolding ◌>>=◌
  bind-Keeps m f hm hf p = proceed-Keeps (m p).0 f hf (m p).1 ∙ hm p

  pub if-Keeps :
      {A : Type 0} (b : Bool) (m n : Step F A) → Keeps m → Keeps n → Keeps (if b then m else n)
  if-Keeps true m n hm hn = hm
  if-Keeps false m n hm hn = hn
