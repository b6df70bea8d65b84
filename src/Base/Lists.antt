-- ===== src/Base/Lists.antt =====
-- Lists measured by native numbers, predicates over their entries, and membership by recursion.
use Prim.Native.Nat.{ℕ, suc, ◌+◌}
use mathlib.Core.Path.{◌≡◌, refl, sym, ap, subst, ◌∙◌}
use mathlib.Core.Logic.{◌⊎◌, inl, inr}
use mathlib.Core.Bool.{Bool, true, false}
use mathlib.Core.Option.{Option, none, some}
use mathlib.Core.List.{List, [], ◌∷◌, ◌++◌}
use native.Mathlib.Omega.{arith}
use swarm_hpa.Base.Tests.{if◌then◌else◌, Bool-cases}

module _ {ℓ} {A : Type ℓ} where
  abbrev pub length : List A → ℕ
  length [] = 0
  length (x ∷ xs) = suc (length xs)

  pub length-append : (xs ys : List A) → length (xs ++ ys) ≡ length xs + length ys
  length-append [] ys = omega arith
  length-append (x ∷ xs) ys = omega (arith, length-append xs ys)

-- A predicate of every entry, as a tuple.
abbrev pub All {ℓ κ} : {A : Type ℓ} → (A → Type κ) → List A → Type κ
All P [] = Unit
All P (x ∷ xs) = P x × All P xs

-- The entry stands in the list, with the place kept.
abbrev pub In : {A : Type 0} → A → List A → Type 0
In a [] = ⊥
In a (x ∷ xs) = (x ≡ a) ⊎ In a xs

pub All-append {ℓ κ} :
    {A : Type ℓ} (P : A → Type κ) (left right : List A)
    → All P left
    → All P right
    → All P (left ++ right)
All-append P [] right h k = k
All-append P (a ∷ left) right (h, hs) k = (h, All-append P left right hs k)

pub All-map {ℓ κ μ} :
    {A : Type ℓ} (P : A → Type κ) (Q : A → Type μ) (keep : (a : A) → P a → Q a) (xs : List A)
    → All P xs
    → All Q xs
All-map P Q keep [] h = tt
All-map P Q keep (x ∷ xs) h = (keep x h.0, All-map P Q keep xs h.1)

pub All-In : {A : Type 0} (P : A → Type 0) (xs : List A) (a : A) → All P xs → In a xs → P a
All-In P [] a h m = absurd m
All-In P (x ∷ xs) a h (inl e) = subst P e h.0
All-In P (x ∷ xs) a h (inr m) = All-In P xs a h.1 m

pub All-of : {A : Type 0} (P : A → Type 0) (xs : List A) → ((a : A) → In a xs → P a) → All P xs
All-of P [] h = tt
All-of P (x ∷ xs) h = (h x (inl refl), All-of P xs (λ a m. h a (inr m)))

-- The entries that pass a test, in order: the loops that append what they keep.
module _ {A : Type 0} where
  unfoldable pub keep_if : (A → Bool) → List A → List A
  keep_if p [] = []
  keep_if p (x ∷ xs) = let rest = keep_if p xs in if p x then x ∷ rest else rest

  pub keep_if-All : (p : A → Bool) (xs : List A) → All (λ x. p x ≡ true) (keep_if p xs)
  unfolding keep_if
  keep_if-All p [] = tt
  keep_if-All p (x ∷ xs) = ground (arith, keep_if-All p xs)

  pub In-keep_if : (p : A → Bool) (xs : List A) (a : A) → In a xs → p a ≡ true → In a (keep_if p xs)
  unfolding keep_if
  In-keep_if p [] a m t = m
  In-keep_if p (x ∷ xs) a (inl e) t = rw (ap p e ∙ t) (inl e)
  In-keep_if p (x ∷ xs) a (inr m) t = elim (Bool-cases (p x)) [
    | inl kept ↦ rw kept (inr (In-keep_if p xs a m t))
    | inr dropped ↦ rw dropped (In-keep_if p xs a m t)
  ]

  pub keep_if-In :
      (p : A → Bool) (xs : List A) (a : A) → In a (keep_if p xs) → In a xs × (p a ≡ true)
  unfolding keep_if
  keep_if-In p [] a m = absurd m
  keep_if-In p (x ∷ xs) a m = elim (Bool-cases (p x)) [
    | inl kept ↦ elim (rw kept at m) [
      | inl e ↦ (inl e, ap p (sym e) ∙ kept)
      | inr m' ↦ let (i, t) = keep_if-In p xs a m' in (inr i, t)
    ]
    | inr dropped ↦ let (i, t) = keep_if-In p xs a (rw dropped at m) in (inr i, t)
  ]

-- The first entry that passes a test: the loops that return at the first hit.
module _ {A : Type 0} where
  unfoldable pub find_first : (A → Bool) → List A → Option A
  find_first p [] = none
  find_first p (x ∷ xs) = let rest = find_first p xs in if p x then some x else rest

  pub find_first-some :
      (p : A → Bool) (xs : List A) (a : A) → find_first p xs ≡ some a → In a xs × (p a ≡ true)
  unfolding find_first
  find_first-some p [] a h = cc
  find_first-some p (x ∷ xs) a h = elim (Bool-cases (p x)) [
    | inl hit ↦ let e : x ≡ a = ground (arith, hit) in (inl e, ap p (sym e) ∙ hit)
    | inr miss ↦ let (m, t) = find_first-some p xs a (ground (arith, miss)) in (inr m, t)
  ]

  pub find_first-none :
      (p : A → Bool) (xs : List A) (a : A) → find_first p xs ≡ none → In a xs → p a ≡ false
  unfolding find_first
  find_first-none p [] a h m = absurd m
  find_first-none p (x ∷ xs) a h (inl e) = ground (arith, ap p e)
  find_first-none p (x ∷ xs) a h (inr m) = find_first-none p xs a (ground (arith)) m

-- How many entries pass a test.
unfoldable pub count_if : {A : Type 0} → (A → Bool) → List A → ℕ
count_if p [] = 0
count_if p (x ∷ xs) = let rest = count_if p xs in if p x then suc rest else rest
