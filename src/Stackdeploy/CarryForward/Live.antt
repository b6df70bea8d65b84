-- ===== src/Stackdeploy/CarryForward/Live.antt =====
-- The live service that a name stands for: the last of the name in the list.
use mathlib.Core.Path.{subst}
use swarm_hpa.Base.{
  ◌≡◌, ◌≢◌, ◌⊎◌, refl, sym, ap, ◌∙◌, inl, inr, Option, none, some, List, [], ◌∷◌, ◌++◌, arith, Text,
  text_eq, text_eq_iff, text_keys, Dict, lookup, put, lookup-put, All, Bool-cases,
}
use swarm_hpa.Model.{StackService}
use swarm_hpa.Stackstatus.{live_by_name}

-- The last service of the name, if there is one.
pub data LastNamed (live : List StackService) (name : Text) : Option StackService → Type 0 where
  last_one :
      (before : List StackService) (s : StackService) (after : List StackService)
      → live ≡ before ++ s ∷ after
      → s.name ≡ name
      → All (λ t. t.name ≢ name) after
      → LastNamed live name (some s)
  nobody : All (λ t. t.name ≢ name) live → LastNamed live name none

-- A service before the list changes nothing behind it.
LastNamed-cons :
    (x : StackService) (live : List StackService) (name : Text) (s : StackService)
    → LastNamed live name (some s)
    → LastNamed (x ∷ live) name (some s)
LastNamed-cons x live name s (last_one before s' after e n o) =
    last_one (x ∷ before) s after (ap (λ l. x ∷ l) e) n o

-- The loop leaves what the map had under the name, or finds the last service of the name.
found :
    (live : List StackService) (m : Dict Text StackService) (name : Text)
    → (All (λ t. t.name ≢ name) live × (lookup name (live_by_name live m) ≡ lookup name m))
      ⊎ ((s : StackService) × (lookup name (live_by_name live m) ≡ some s)
          × LastNamed live name (some s))
unfolding live_by_name
found [] m name = inl (tt, refl)
found (x ∷ live) m name = elim (found live (put x.name x m) name) [
  | inr (s, e, l) ↦ inr (s, e, LastNamed-cons x live name s l)
  | inl (others, e) ↦ elim (Bool-cases (text_eq x.name name)) [
    | inl own ↦ inr (
      x,
      e ∙ ground (arith, lookup-put x.name name x m, own),
      last_one [] x live refl ((text_eq_iff x.name name).0 own) others,
    )
    | inr foreign ↦ inl (
      ((λ n. ground (arith, text_eq_iff x.name name, foreign, n)), others),
      e ∙ ground (arith, lookup-put x.name name x m, foreign),
    )
  ]
]

pub live_by_name-LastNamed :
    (live : List StackService) (name : Text)
    → LastNamed live name (lookup name (live_by_name live []))
unfolding lookup
live_by_name-LastNamed live name = elim (found live [] name) [
  | inl (others, e) ↦ subst (LastNamed live name) (sym e) (nobody others)
  | inr (s, e, l) ↦ subst (LastNamed live name) (sym e) l
]
