-- ===== src/Config/Gitops/Groups.antt =====
-- What the merge groups of a configuration that loads are like.
use swarm_hpa.Base.{
  ℕ, suc, ◌≡◌, ◌≢◌, refl, sym, ap, ◌∙◌, inl, inr, true, false, Option, none, some, List, [], ◌∷◌,
  Text, text_eq, text_eq_iff, ok, >>=-eq-ok, All, In, lit, arith, Bool-cases,
}
use swarm_hpa.Compose.Fields.{
  Value, null, boolean, int, uint, float, text, items, object, listed, as_text,
}
use swarm_hpa.Config.Gitops.{
  ComposeFileSpec, all_files, is_policy, has_seen, or_blank, check_override, override_list,
  parse_overrides, parse_item_object, parse_compose_file_item, item_list, nonempty_items,
  parse_compose_files,
}

-- No entry stands twice.
abbrev pub Apart : List Text → Type 0
Apart [] = Unit
Apart (p ∷ ps) = All (λ q. q ≢ p) ps × Apart ps

-- No path of a group is blank, and none stands twice; the policy is blank, `always` or `changed`.
abbrev pub IsProper : ComposeFileSpec → Type 0
IsProper s =
    All (λ p. p ≢ []) (all_files s)
    × Apart (all_files s)
    × In s.pull_policy ([] ∷ lit "always" ∷ lit "changed" ∷ [])

-- The three policies of a group and of a stack: the stack's own, `always` and `changed`.
pub is_policy-In : (p : Text) → is_policy p ≡ true → In p ([] ∷ lit "always" ∷ lit "changed" ∷ [])
unfolding is_policy
is_policy-In p h = elim (Bool-cases (text_eq p [])) [
  | inl own ↦ inl (sym ((text_eq_iff p []).0 own))
  | inr named ↦ elim (Bool-cases (text_eq p (lit "always"))) [
    | inl always ↦ inr (inl (sym ((text_eq_iff p (lit "always")).0 always)))
    | inr other ↦
        inr (inr (inl (sym ((text_eq_iff p (lit "changed")).0 (ground (arith, h, named, other))))))
  ]
]

-- What the loop over the overrides has kept apart.
abbrev Fresh : List Text → List Text → Type 0
Fresh seen ps = All (λ p. p ≢ []) ps × Apart ps × All (λ p. has_seen p seen ≡ false) ps

checked :
    (stack base path path' : Text) (idx i : ℕ) (seen : List Text)
    → check_override stack idx base i seen path ≡ ok path'
    → (path' ≡ path) × (path ≢ []) × (path ≢ base) × (has_seen path seen ≡ false)
unfolding check_override
checked stack base path path' idx i seen h =
    ground (arith, h, text_eq_iff path [], text_eq_iff path base)

unseen :
    (path : Text) (seen ps : List Text)
    → All (λ p. has_seen p (path ∷ seen) ≡ false) ps
    → All (λ p. p ≢ path) ps × All (λ p. has_seen p seen ≡ false) ps
unfolding has_seen
unseen path seen [] h = (tt, tt)
unseen path seen (p ∷ ps) h =
    let (apart, fresh) = unseen path seen ps h.1 in
    (((λ e. ground (arith, h.0, text_eq_iff path p)), apart), (ground (arith, h.0), fresh))

plain-IsProper :
    (file : Text) (spec : ComposeFileSpec)
    → file ≢ []
    → record { file = file; overrides = []; pull_policy = [] } ≡ spec
    → IsProper spec
unfolding all_files is_policy text_eq
plain-IsProper file spec n e = rw (← e) ((n, tt), (tt, tt), inl refl)

module _ {F : Type 0} (stack : Text) (idx : ℕ) where
  override_list-Fresh :
      (base : Text) (i : ℕ) (seen : List Text) (raws : List (Value F)) (paths : List Text)
      → override_list stack idx base i seen raws ≡ ok paths
      → Fresh seen paths
  unfolding override_list
  override_list-Fresh base i seen [] paths h = let e : [] ≡ paths = cc h in rw (← e) (tt, tt, tt)
  override_list-Fresh base i seen (raw ∷ raws) paths h =
      let spelled = or_blank (as_text (some raw)) in
      let (path, ep, h1) = >>=-eq-ok (check_override stack idx base i seen spelled) _ h in
      let (rest, er, h2) =
        >>=-eq-ok (override_list stack idx base (suc i) (path ∷ seen) raws) _ h1 in
      let (same, filled, off_base, new) = checked stack base spelled path idx i seen ep in
      let (f, a, n) = override_list-Fresh base (suc i) (path ∷ seen) raws rest er in
      let (apart, fresh) = unseen path seen rest n in
      let e : path ∷ rest ≡ paths = cc h2 in
      rw (← e) (
        ((λ q. filled (sym same ∙ q)), f),
        (apart, a),
        ((ap (λ (p : Text). has_seen p seen) same ∙ new), fresh),
      )

  parse_overrides-Fresh :
      (base : Text) (o : Option (Value F)) (paths : List Text)
      → parse_overrides stack idx base o ≡ ok paths
      → Fresh (base ∷ []) paths
  unfolding parse_overrides
  parse_overrides-Fresh base none paths h = let e : [] ≡ paths = cc h in rw (← e) (tt, tt, tt)
  parse_overrides-Fresh base (some null) paths h =
      let e : [] ≡ paths = cc h in rw (← e) (tt, tt, tt)
  parse_overrides-Fresh base (some (items vs)) paths h =
      override_list-Fresh base 0 (base ∷ []) (listed vs) paths h
  parse_overrides-Fresh base (some (boolean b)) paths h = cc
  parse_overrides-Fresh base (some (int n)) paths h = cc
  parse_overrides-Fresh base (some (uint n)) paths h = cc
  parse_overrides-Fresh base (some (float x)) paths h = cc
  parse_overrides-Fresh base (some (text s)) paths h = cc
  parse_overrides-Fresh base (some (object fs)) paths h = cc

  item_object-IsProper :
      (file policy : Text) (o : Option (Value F)) (spec : ComposeFileSpec)
      → parse_item_object stack idx file policy o ≡ ok spec
      → IsProper spec
  unfolding parse_item_object all_files
  item_object-IsProper file policy o spec h = elim (Bool-cases (text_eq file [])) [
    | inl blank ↦ cc (rw blank at h)
    | inr filled ↦ elim (Bool-cases (is_policy policy)) [
      | inr bad ↦ cc (rw (filled, bad) at h)
      | inl good ↦
          let (paths, ep, h1) =
            >>=-eq-ok (parse_overrides stack idx file o) _ (rw (filled, good) at h) in
          let (f, a, n) = parse_overrides-Fresh file o paths ep in
          let (apart, _) = unseen file [] paths n in
          let e : record { file = file; overrides = paths; pull_policy = policy } ≡ spec = cc h1 in
          rw (← e) (
            ((λ q. ground (arith, text_eq_iff file [], filled)), f),
            (apart, a),
            is_policy-In policy good,
          )
    ]
  ]

  item-IsProper :
      (v : Value F) (spec : ComposeFileSpec)
      → parse_compose_file_item stack idx v ≡ ok spec
      → IsProper spec
  unfolding parse_compose_file_item
  item-IsProper (text s) spec h = elim (Bool-cases (text_eq s [])) [
    | inl blank ↦ cc (rw blank at h)
    | inr filled ↦
        plain-IsProper s spec (λ q. ground (arith, text_eq_iff s [], filled)) (cc (rw filled at h))
  ]
  item-IsProper (object t) spec h = item_object-IsProper _ _ _ spec h
  item-IsProper null spec h = cc
  item-IsProper (boolean b) spec h = cc
  item-IsProper (int n) spec h = cc
  item-IsProper (uint n) spec h = cc
  item-IsProper (float x) spec h = cc
  item-IsProper (items vs) spec h = cc

-- At least one group, and every group proper.
abbrev pub AreProper : List ComposeFileSpec → Type 0
AreProper specs = (specs ≢ []) × All IsProper specs

module _ {F : Type 0} (stack : Text) where
  item_list-All :
      (i : ℕ) (vs : List (Value F)) (specs : List ComposeFileSpec)
      → item_list stack i vs ≡ ok specs
      → All IsProper specs
  unfolding item_list
  item_list-All i [] specs h = let e : [] ≡ specs = cc h in rw (← e) tt
  item_list-All i (v ∷ vs) specs h =
      let (spec, es, h1) = >>=-eq-ok (parse_compose_file_item stack i v) _ h in
      let (rest, er, h2) = >>=-eq-ok (item_list stack (suc i) vs) _ h1 in
      let e : spec ∷ rest ≡ specs = cc h2 in
      rw (← e) (item-IsProper stack i v spec es, item_list-All (suc i) vs rest er)

  nonempty_items-AreProper :
      (vs : List (Value F)) (specs : List ComposeFileSpec)
      → nonempty_items stack vs ≡ ok specs
      → AreProper specs
  unfolding nonempty_items item_list
  nonempty_items-AreProper [] specs h = cc
  nonempty_items-AreProper (v ∷ vs) specs h =
      let (spec, es, h1) = >>=-eq-ok (parse_compose_file_item stack 0 v) _ h in
      let (rest, er, h2) = >>=-eq-ok (item_list stack 1 vs) _ h1 in
      let e : spec ∷ rest ≡ specs = cc h2 in (rw (← e) (λ q. cc), item_list-All 0 (v ∷ vs) specs h)

  pub compose_files-AreProper :
      (v : Value F) (specs : List ComposeFileSpec)
      → parse_compose_files stack v ≡ ok specs
      → AreProper specs
  unfolding parse_compose_files
  compose_files-AreProper (text t) specs h = elim (Bool-cases (text_eq t [])) [
    | inl blank ↦ cc (rw blank at h)
    | inr filled ↦
        let e : record { file = t; overrides = []; pull_policy = [] } ∷ [] ≡ specs =
          cc (rw filled at h) in
        rw (← e) (
          (λ q. cc),
          (
            plain-IsProper t (record { file = t; overrides = []; pull_policy = [] })
                (λ q. ground (arith, text_eq_iff t [], filled)) refl,
            tt,
          ),
        )
  ]
  compose_files-AreProper (items vs) specs h = nonempty_items-AreProper (listed vs) specs h
  compose_files-AreProper null specs h = cc
  compose_files-AreProper (boolean b) specs h = cc
  compose_files-AreProper (int n) specs h = cc
  compose_files-AreProper (uint n) specs h = cc
  compose_files-AreProper (float x) specs h = cc
  compose_files-AreProper (object fs) specs h = cc
