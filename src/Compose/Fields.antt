-- ===== src/Compose/Fields.antt =====
-- A decoded document, and Go's type assertions on its parts. A map[string]any is a list of fields;
-- as with every map, its order is one of the orders that Go's iteration can take.
use swarm_hpa.Base.{
  ℕ, ◌≡◌, ◌≢◌, refl, inl, inr, Bool, Option, none, some, List, [], ◌∷◌, ℤ, Text, text_eq,
  text_eq_iff, arith, if◌then◌else◌, Bool-cases,
}

-- `int` is Go's int and int64, F is float64; nothing else is decoded from YAML.
mutual
  pub data Value (F : Type 0) : Type 0 where
    null : Value F
    boolean : Bool → Value F
    int : ℤ → Value F
    uint : ℕ → Value F
    float : F → Value F
    text : Text → Value F
    items : Items F → Value F
    object : Fields F → Value F

  pub data Items (F : Type 0) : Type 0 where
    nil : Items F
    cons : Value F → Items F → Items F

  pub data Fields (F : Type 0) : Type 0 where
    end : Fields F
    field : Text → Value F → Fields F → Fields F

module _ {F : Type 0} where
  -- m[key], with whether the key is there
  unfoldable pub get : Text → Fields F → Option (Value F)
  get key end = none
  get key (field k v fs) = let rest = get key fs in if text_eq k key then some v else rest

  -- m[key] = v
  unfoldable pub set : Text → Value F → Fields F → Fields F
  set key v end = field key v end
  set key v (field k w fs) =
      let rest = set key v fs in if text_eq k key then field key v fs else field k w rest

  -- The rounds of `range` over a map, and over a []any.
  unfoldable pub entries : Fields F → List (Text × Value F)
  entries end = []
  entries (field k v fs) = (k, v) ∷ entries fs

  unfoldable pub listed : Items F → List (Value F)
  listed nil = []
  listed (cons v vs) = v ∷ listed vs

  -- v.(map[string]any), v.([]any) and v.(string), of a key's value; a missing key is nil.
  unfoldable pub as_object : Option (Value F) → Option (Fields F)
  as_object (some (object fs)) = some fs
  as_object _ = none

  unfoldable pub as_items : Option (Value F) → Option (Items F)
  as_items (some (items vs)) = some vs
  as_items _ = none

  unfoldable pub as_text : Option (Value F) → Option Text
  as_text (some (text s)) = some s
  as_text _ = none

  -- m[key].(map[string]any)
  unfoldable pub object_at : Text → Fields F → Option (Fields F)
  unfolding as_object
  object_at key fs = as_object (get key fs)

  pub get-set :
      (key k : Text) (v : Value F) (fs : Fields F)
      → get k (set key v fs) ≡ (if text_eq key k then some v else get k fs)
  unfolding get set
  get-set key k v end = refl
  get-set key k v (field j w fs) =
      ground (arith, get-set key k v fs, text_eq_iff j key, text_eq_iff j k, text_eq_iff key k)

  pub get-set_own : (key : Text) (v : Value F) (fs : Fields F) → get key (set key v fs) ≡ some v
  get-set_own key v fs = ground (arith, get-set key key v fs, text_eq_iff key key)

  pub get-set_other :
      (key k : Text) (v : Value F) (fs : Fields F) → key ≢ k → get k (set key v fs) ≡ get k fs
  get-set_other key k v fs n = ground (arith, get-set key k v fs, text_eq_iff key k)

  pub object_at-set :
      (key k : Text) (sub fs : Fields F)
      → object_at k (set key (object sub) fs) ≡ (if text_eq key k then some sub else object_at k fs)
  unfolding object_at
  object_at-set key k sub fs = elim (Bool-cases (text_eq key k)) [
    | inl own ↦ rw (own, get-set key k (object sub) fs, own) refl
    | inr other ↦ rw (other, get-set key k (object sub) fs, other) refl
  ]
