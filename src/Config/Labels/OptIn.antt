-- ===== src/Config/Labels/OptIn.antt =====
-- The opt-in boundary: which labels turn which capability on.
use swarm_hpa.Base.{
  ◌≡◌, ◌↔◌, inl, inr, Bool, true, false, some, [], arith, Text, text_eq, text_eq_iff, lit, Float,
  ok, >>=-eq-ok, Bool-cases, parse_bool, ◌⊎◌,
}
use swarm_hpa.Config.Labels.{
  Labels, label, label_enabled, label_heal, label_rebalance, parse_opt_in, parse_enabled, Parsed,
  parse_policy,
}

-- The text is one that strconv.ParseBool reads as the value.
abbrev pub Spells : Text → Bool → Type 0
Spells raw b = parse_bool raw ≡ some b

-- An opt-in label that is accepted is empty or absent, and then the default counts, or it spells its value.
pub parse_opt_in-Spells :
    (labels : Labels) (key : Text) (default b : Bool)
    → parse_opt_in labels key default ≡ ok b
    → ((label labels key ≡ []) × (b ≡ default)) ⊎ Spells (label labels key) b
unfolding parse_opt_in
parse_opt_in-Spells labels key default b h = ground (arith, text_eq_iff (label labels key) [])

module _ {F : Type 0} ⦃fl : Float F⦄ (labels : Labels) (p : Parsed F)
    (parsed : parse_policy labels ≡ ok p) where
  parts :
      (heal : Bool) × (rebalance : Bool) × (parse_opt_in labels label_heal
          (text_eq (label labels label_enabled) (lit "true"))
        ≡ ok heal)
      × (parse_opt_in labels label_rebalance false ≡ ok rebalance)
      × (p.heal ≡ heal)
      × (p.rebalance ≡ rebalance)
      × (p.autoscale ≡ text_eq (label labels label_enabled) (lit "true"))
  unfolding parse_policy
  parts =
      let (heal, eh, h1) =
        >>=-eq-ok
          (parse_opt_in labels label_heal (text_eq (label labels label_enabled) (lit "true"))) _
          parsed in
      let (reb, er, h2) = >>=-eq-ok (parse_opt_in labels label_rebalance false) _ h1 in
      elim (Bool-cases (text_eq (label labels label_enabled) (lit "true"))) [
        | inl on ↦
            let (q, eq, h3) = >>=-eq-ok (parse_enabled labels) _ (rw on at h2) in
            (heal, reb, eh, er, ground (arith, h3), ground (arith, h3), ground (arith, h3, on))
        | inr off ↦
            let h3 = rw off at h2 in
            (heal, reb, eh, er, ground (arith, h3), ground (arith, h3), ground (arith, h3, off))
      ]

  -- Autoscaling is on exactly when the enabled label is "true"; healing follows its own label and,
  -- without one, autoscaling; rebalancing follows its own label and is off without one.
  parse_policy-opt_in :
      ((p.autoscale ≡ true) ↔ (label labels label_enabled ≡ lit "true"))
      × (((label labels label_heal ≡ []) × (p.heal ≡ p.autoscale))
          ⊎ Spells (label labels label_heal) p.heal)
      × (((label labels label_rebalance ≡ []) × (p.rebalance ≡ false))
          ⊎ Spells (label labels label_rebalance) p.rebalance)
  parse_policy-opt_in =
      let (heal, reb, eh, er, ph, pr, pa) = parts in
      (
        ground (arith, pa, text_eq_iff (label labels label_enabled) (lit "true")),
        ground (
          arith,
          pa,
          ph,
          parse_opt_in-Spells labels label_heal (text_eq (label labels label_enabled) (lit "true"))
              heal eh,
        ),
        ground (arith, pr, parse_opt_in-Spells labels label_rebalance false reb er),
      )
