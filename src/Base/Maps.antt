-- ===== src/Base/Maps.antt =====
-- Go maps. The representation is an association list, and Go's iteration order, which is not
-- specified, is the order of that list: a statement about every list is one about every order.
use Prim.Native.Nat.{suc, ◌≤◌, ◌<◌}
use mathlib.Core.Path.{◌≡◌, refl}
use mathlib.Core.Logic.{◌↔◌, ◌≢◌, inl, inr}
use mathlib.Core.Bool.{Bool, true}
use mathlib.Core.Option
use mathlib.Core.Option.{Option, none, some}
use mathlib.Core.List.{List, [], ◌∷◌}
use native.Mathlib.Omega.{arith}
use swarm_hpa.Base.Tests.{if◌then◌else◌, Bool-cases}
use swarm_hpa.Base.Lists.{length}
use swarm_hpa.Base.Strings.{Text, text_eq, text_eq_iff}

pub record Eq (K : Type 0) : Type 0 where
  pub beq : K → K → Bool
  pub beq_iff : (a b : K) → (beq a b ≡ true) ↔ (a ≡ b)

abbrev pub Dict : Type 0 → Type 0 → Type 0
Dict K V = List (K × V)

module _ {K V : Type 0} ⦃e : Eq K⦄ where
  -- m[k], with whether the key is there
  unfoldable pub lookup : K → Dict K V → Option V
  lookup k [] = none
  lookup k ((j, v) ∷ m) = if e.beq j k then some v else lookup k m

  -- m[k] = v
  unfoldable pub put : K → V → Dict K V → Dict K V
  put k v [] = (k, v) ∷ []
  put k v ((j, w) ∷ m) = if e.beq j k then (k, v) ∷ m else (j, w) ∷ put k v m

  -- delete(m, k)
  unfoldable pub delete : K → Dict K V → Dict K V
  delete k [] = []
  delete k ((j, v) ∷ m) = let rest = delete k m in if e.beq j k then rest else (j, v) ∷ rest

  pub lookup-put :
      (k j : K) (v : V) (m : Dict K V)
      → lookup j (put k v m) ≡ (if e.beq k j then some v else lookup j m)
  unfolding lookup put
  lookup-put k j v [] = refl
  lookup-put k j v ((i, w) ∷ m) =
      ground (arith, e.beq_iff k j, e.beq_iff i k, e.beq_iff i j, lookup-put k j v m)

  pub lookup-delete :
      (k j : K) (m : Dict K V) → lookup j (delete k m) ≡ (if e.beq k j then none else lookup j m)
  unfolding lookup delete
  lookup-delete k j [] = ground arith
  lookup-delete k j ((i, w) ∷ m) =
      ground (arith, e.beq_iff k j, e.beq_iff i k, e.beq_iff i j, lookup-delete k j m)

  pub length-put : (k : K) (v : V) (m : Dict K V) → length (put k v m) ≤ suc (length m)
  unfolding put
  length-put k v [] = omega arith
  length-put k v ((i, w) ∷ m) = ground (arith, length-put k v m)

  pub length-delete : (k : K) (m : Dict K V) → length (delete k m) ≤ length m
  unfolding delete
  length-delete k [] = omega arith
  length-delete k ((i, w) ∷ m) = ground (arith, length-delete k m)

  -- A key that is there is taken away.
  pub length-delete_known :
      (k : K) (v : V) (m : Dict K V) → lookup k m ≡ some v → length (delete k m) < length m
  unfolding delete lookup
  length-delete_known k v [] h = cc
  length-delete_known k v ((i, w) ∷ m) h =
      ground (arith, length-delete k m, length-delete_known k v m)

  pub lookup-put_self : (k : K) (v : V) (m : Dict K V) → lookup k (put k v m) ≡ some v
  lookup-put_self k v m = ground (arith, lookup-put k k v m, e.beq_iff k k)

-- Texts as keys.
instance abbrev pub text_keys : Eq Text
text_keys = record { beq = text_eq; beq_iff = text_eq_iff }

-- A slice that is read from a map: a missing key reads as the nil slice.
unfoldable pub or_empty : {A : Type 0} → Option (List A) → List A
or_empty none = []
or_empty (some l) = l

-- The same keys with other values.
module _ {K V W : Type 0} ⦃e : Eq K⦄ (f : V → W) where
  unfoldable pub map_values : Dict K V → Dict K W
  map_values [] = []
  map_values ((k, v) ∷ m) = (k, f v) ∷ map_values m

  pub map_values-put :
      (k : K) (v : V) (m : Dict K V) → map_values (put k v m) ≡ put k (f v) (map_values m)
  unfolding map_values put
  map_values-put k v [] = refl
  map_values-put k v ((j, w) ∷ m) = ground (arith, map_values-put k v m)

  pub lookup-map_values :
      (k : K) (m : Dict K V) → lookup k (map_values m) ≡ Option.map f (lookup k m)
  unfolding map_values lookup
  lookup-map_values k [] = refl
  lookup-map_values k ((j, w) ∷ m) = ground (arith, lookup-map_values k m)

-- No key stands twice, as in every map.
module _ {K V : Type 0} where
  abbrev pub IsAbsent : K → Dict K V → Type 0
  IsAbsent k [] = Unit
  IsAbsent k ((j, v) ∷ m) = (j ≢ k) × IsAbsent k m

  abbrev pub IsDistinct : Dict K V → Type 0
  IsDistinct [] = Unit
  IsDistinct ((k, v) ∷ m) = IsAbsent k m × IsDistinct m

module _ {K V : Type 0} ⦃e : Eq K⦄ where
  put-IsAbsent : (i k : K) (v : V) (m : Dict K V) → k ≢ i → IsAbsent i m → IsAbsent i (put k v m)
  unfolding put
  put-IsAbsent i k v [] n h = (n, tt)
  put-IsAbsent i k v ((j, w) ∷ m) n h = elim (Bool-cases (e.beq j k)) [
    | inl same ↦ rw (same, put) (n, h.1)
    | inr other ↦ rw (other, put) (h.0, put-IsAbsent i k v m n h.1)
  ]

  pub put-IsDistinct : (k : K) (v : V) (m : Dict K V) → IsDistinct m → IsDistinct (put k v m)
  unfolding put
  put-IsDistinct k v [] h = (tt, tt)
  put-IsDistinct k v ((j, w) ∷ m) h = elim (Bool-cases (e.beq j k)) [
    | inl same ↦ let eq : j ≡ k = (e.beq_iff j k).0 same in rw (same, put) (rw eq at h.0, h.1)
    | inr other ↦
        rw (other, put)
          (put-IsAbsent j k v m (λ q. ground (arith, e.beq_iff j k)) h.0, put-IsDistinct k v m h.1)
  ]

  pub lookup-IsAbsent : (k : K) (m : Dict K V) → IsAbsent k m → lookup k m ≡ none
  unfolding lookup
  lookup-IsAbsent k [] h = refl
  lookup-IsAbsent k ((j, v) ∷ m) h = ground (arith, h.0, e.beq_iff j k, lookup-IsAbsent k m h.1)
