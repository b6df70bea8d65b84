-- ===== src/Rebalancer/Extremes.antt =====
-- The extremes are the busiest and the idlest of the nodes, where the loads are comparable.
use swarm_hpa.Base.{
  ◌≡◌, refl, Bool, true, false, List, [], ◌∷◌, Float, In, All, Bool-cases, if◌then◌else◌, inl, inr,
  ap, sym, ◌∙◌,
}
use mathlib.Core.Path.{subst}
use swarm_hpa.Rebalancer.{NodeState, extremes_from}

-- What IEEE 754 says of `<` between values that are not NaN.
pub record FloatOrder {F : Type 0} (fl : Float F) (is_number : F → Bool) : Type 0 where
  pub lt_asym : (a b : F) → fl.lt a b ≡ true → fl.lt b a ≡ false
  pub lt_weak :
      (a b c : F) → is_number b ≡ true → fl.lt a b ≡ false → fl.lt b c ≡ false → fl.lt a c ≡ false

-- One half of the loop: the last entry that beat what was held before.
module _ {F : Type 0} (beats : F → F → Bool) where
  pick : NodeState F → List (NodeState F) → NodeState F
  pick s [] = s
  pick s (n ∷ ns) = pick (if beats s.load n.load then n else s) ns

  pick-In :
      (s : NodeState F) (all ns : List (NodeState F))
      → In s all
      → ((n : NodeState F) → In n ns → In n all)
      → In (pick s ns) all
  unfolding pick
  pick-In s all [] h sub = h
  pick-In s all (n ∷ ns) h sub =
      pick-In (if beats s.load n.load then n else s) all ns
        (elim (Bool-cases (beats s.load n.load)) [
          | inl e ↦ rw e (sub n (inl refl))
          | inr e ↦ rw e h
        ])
        (λ k i. sub k (inr i))

  module _ (is_number : F → Bool) (asym : (a b : F) → beats a b ≡ true → beats b a ≡ false)
      (weak : (a b c : F)
        → is_number b ≡ true
        → beats a b ≡ false
        → beats b c ≡ false
        → beats a c ≡ false) where
    pick-unbeaten :
        (s : NodeState F) (ns : List (NodeState F)) (x : F)
        → is_number s.load ≡ true
        → All (λ n. is_number n.load ≡ true) ns
        → beats s.load x ≡ false
        → beats (pick s ns).load x ≡ false
    unfolding pick
    pick-unbeaten s [] x num nums h = h
    pick-unbeaten s (n ∷ ns) x num nums h = elim (Bool-cases (beats s.load n.load)) [
      | inl e ↦
          rw (e, pick)
            (pick-unbeaten n ns x nums.0 nums.1 (weak n.load s.load x num (asym s.load n.load e) h))
      | inr e ↦ rw (e, pick) (pick-unbeaten s ns x num nums.1 h)
    ]

    irreflexive : (x : F) → beats x x ≡ false
    irreflexive x = elim (Bool-cases (beats x x)) [ inl e ↦ asym x x e | inr e ↦ e ]

    pick-best :
        (s : NodeState F) (ns : List (NodeState F)) (m : NodeState F)
        → is_number s.load ≡ true
        → All (λ n. is_number n.load ≡ true) ns
        → In m (s ∷ ns)
        → beats (pick s ns).load m.load ≡ false
    unfolding pick
    pick-best s ns m num nums (inl e) =
        pick-unbeaten s ns m.load num nums (rw (← e) (irreflexive s.load))
    pick-best s [] m num nums (inr i) = absurd i
    pick-best s (n ∷ ns) m num nums (inr i) = elim (Bool-cases (beats s.load n.load)) [
      | inl e ↦ rw (e, pick) (pick-best n ns m nums.0 nums.1 i)
      | inr e ↦
          rw (e, pick)
            (elim i [
              | inl here ↦
                  pick-unbeaten s ns m.load num nums.1
                    (ap (λ k. beats s.load k.load) (sym here) ∙ e)
              | inr there ↦ pick-best s ns m num nums.1 (inr there)
            ])
    ]

module _ {F : Type 0} ⦃fl : Float F⦄ where
  extremes_from-pick :
      (hot cold : NodeState F) (ns : List (NodeState F))
      → extremes_from hot cold ns ≡ (pick fl.lt hot ns, pick (λ a b. fl.lt b a) cold ns)
  unfolding extremes_from pick
  extremes_from-pick hot cold [] = refl
  extremes_from-pick hot cold (n ∷ ns) =
      extremes_from-pick (if fl.lt hot.load n.load then n else hot)
        (if fl.lt n.load cold.load then n else cold) ns

  -- The extremes are two of the nodes.
  pub extremes_from-In :
      (a : NodeState F) (ns : List (NodeState F))
      → In (extremes_from a a ns).0 (a ∷ ns) × In (extremes_from a a ns).1 (a ∷ ns)
  extremes_from-In a ns =
      subst (λ p. In p.0 (a ∷ ns) × In p.1 (a ∷ ns)) (sym (extremes_from-pick a a ns))
        (
          pick-In fl.lt a (a ∷ ns) ns (inl refl) (λ n i. inr i),
          pick-In (λ b c. fl.lt c b) a (a ∷ ns) ns (inl refl) (λ n i. inr i),
        )

  -- Where the loads are comparable, no node is busier than the first extreme, and none idler than the
  -- second.
  pub extremes_from-extreme :
      (is_number : F → Bool)
      → FloatOrder fl is_number
      → (a : NodeState F) (ns : List (NodeState F)) (m : NodeState F)
      → All (λ n. is_number n.load ≡ true) (a ∷ ns)
      → In m (a ∷ ns)
      → (fl.lt (extremes_from a a ns).0.load m.load ≡ false)
        × (fl.lt m.load (extremes_from a a ns).1.load ≡ false)
  extremes_from-extreme is_number o a ns m nums i =
      subst (λ p. (fl.lt p.0.load m.load ≡ false) × (fl.lt m.load p.1.load ≡ false))
        (sym (extremes_from-pick a a ns))
        (
          pick-best fl.lt is_number o.lt_asym o.lt_weak a ns m nums.0 nums.1 i,
          pick-best (λ b c. fl.lt c b) is_number (λ b c. o.lt_asym c b)
              (λ b c d num h k. o.lt_weak d c b num k h) a ns m nums.0 nums.1 i,
        )
