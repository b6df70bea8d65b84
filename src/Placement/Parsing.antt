-- ===== src/Placement/Parsing.antt =====
-- What `parse_constraint` reads from a constraint as operators write it.
use swarm_hpa.Base.{
  ℕ, ◌+◌, ◌≡◌, ◌≢◌, refl, false, none, some, [], ◌∷◌, ◌++◌, arith, nat_eq, Text, index, take-append,
  drop-append, length, All, All-append, All-map, IsBlank, is_space, IsTrimmed, trim_space,
  trim_space-padded, text_eq, take, drop, text_eq→eq, true,
}
use swarm_hpa.Placement.{Op, op_eq, op_neq, op_text, split_at, parse_constraint}

-- The character does not occur in the text.
abbrev pub IsFree : ℕ → Text → Type 0
IsFree c = All (λ d. nat_eq c d ≡ false)

-- The texts round the operator of a constraint, as it is written: blanks, a key, blanks, then the
-- operator, then blanks, a value, blanks.
pub record Written : Type 0 where
  pub before : Text
  pub key : Text
  pub after_key : Text
  pub before_value : Text
  pub value : Text
  pub after : Text

abbrev pub left_side : Written → Text
left_side w = w.before ++ w.key ++ w.after_key

abbrev pub right_side : Written → Text
right_side w = w.before_value ++ w.value ++ w.after

abbrev pub spell : Op → Written → Text
spell o w = left_side w ++ (op_text o ++ right_side w)

-- Key and value are not empty and have no blank at their ends, the key holds neither `=` nor `!`,
-- the value of a `!=` holds no `=`, and the rest is blanks.
pub record IsPlain (o : Op) (w : Written) : Type 0 where
  pub key_some : w.key ≢ []
  pub key_trimmed : IsTrimmed w.key
  pub key_no_eq : IsFree b'=' w.key
  pub key_no_bang : IsFree b'!' w.key
  pub value_some : w.value ≢ []
  pub value_trimmed : IsTrimmed w.value
  pub value_no_eq : o ≡ op_neq → IsFree b'=' w.value
  pub blanks : IsBlank w.before × IsBlank w.after_key × IsBlank w.before_value × IsBlank w.after

blank_no_eq : (c : ℕ) → is_space c ≡ true → nat_eq b'=' c ≡ false
unfolding is_space
blank_no_eq c h = ground arith

blank_no_bang : (c : ℕ) → is_space c ≡ true → nat_eq b'!' c ≡ false
unfolding is_space
blank_no_bang c h = ground arith

index-eq :
    (s t : Text)
    → IsFree b'=' s
    → index (op_text op_eq) (s ++ (op_text op_eq ++ t)) ≡ some (length s)
unfolding index
index-eq [] t h = ground arith
index-eq (c ∷ s) t h = ground (arith, index-eq s t h.1)

index-neq :
    (s t : Text)
    → IsFree b'!' s
    → index (op_text op_neq) (s ++ (op_text op_neq ++ t)) ≡ some (length s)
unfolding index
index-neq [] t h = ground arith
index-neq (c ∷ s) t h = ground (arith, index-neq s t h.1)

index-eq_free : (s : Text) → IsFree b'=' s → index (op_text op_eq) s ≡ none
unfolding index
index-eq_free [] h = ground arith
index-eq_free (c ∷ s) h = ground (arith, index-eq_free s h.1)

index-eq_after_neq :
    (s t : Text)
    → IsFree b'=' s
    → IsFree b'=' t
    → index (op_text op_eq) (s ++ (op_text op_neq ++ t)) ≡ none
unfolding index
index-eq_after_neq [] [] h k = ground arith
index-eq_after_neq [] (d ∷ t) h k = ground (arith, index-eq_free t k.1)
index-eq_after_neq (c ∷ s) t h k = ground (arith, index-eq_after_neq s t h.1 k)

text_eq-empty : (s : Text) → s ≢ [] → text_eq s [] ≡ false
text_eq-empty s n = ground (arith, text_eq→eq s [])

split_at-absent : (s : Text) → index (op_text op_eq) s ≡ none → split_at op_eq s ≡ none
unfolding split_at
split_at-absent s h = ground (arith, h)

drop_op : (o : Op) (t : Text) → drop (length (op_text o)) (op_text o ++ t) ≡ t
unfolding drop
drop_op op_eq t = refl
drop_op op_neq t = refl

module _ (o : Op) (w : Written) (p : IsPlain o w) where
  key_read : trim_space (take (length (left_side w)) (spell o w)) ≡ w.key
  key_read =
      rw (take-append (left_side w) (op_text o ++ right_side w)) (
        trim_space-padded w.before w.key w.after_key p.key_some p.blanks.0 p.blanks.1 p.key_trimmed)

  value_read : trim_space (drop (length (left_side w) + length (op_text o)) (spell o w)) ≡ w.value
  value_read =
      rw
        (
          drop-append (left_side w) (op_text o ++ right_side w) (length (op_text o)),
          drop_op o (right_side w),
        )
        (trim_space-padded w.before_value w.value w.after p.value_some p.blanks.2 p.blanks.3
          p.value_trimmed)

  -- Where the operator is found behind the left side, the parts are the trimmed sides.
  split_at-found :
      index (op_text o) (spell o w) ≡ some (length (left_side w))
      → split_at o (spell o w) ≡ some (some (record { key = w.key; op = o; value = w.value }))
  unfolding split_at
  split_at-found h = ground (
    arith,
    h,
    key_read,
    value_read,
    text_eq-empty w.key p.key_some,
    text_eq-empty w.value p.value_some,
  )

  left_no_eq : IsFree b'=' (left_side w)
  left_no_eq =
      All-append _ (w.before ++ w.key) w.after_key
        (All-append _ w.before w.key (All-map _ _ blank_no_eq w.before p.blanks.0) p.key_no_eq)
        (All-map _ _ blank_no_eq w.after_key p.blanks.1)

  left_no_bang : IsFree b'!' (left_side w)
  left_no_bang =
      All-append _ (w.before ++ w.key) w.after_key
        (All-append _ w.before w.key (All-map _ _ blank_no_bang w.before p.blanks.0) p.key_no_bang)
        (All-map _ _ blank_no_bang w.after_key p.blanks.1)

  right_no_eq : o ≡ op_neq → IsFree b'=' (right_side w)
  right_no_eq e =
      All-append _ (w.before_value ++ w.value) w.after
        (All-append _ w.before_value w.value (All-map _ _ blank_no_eq w.before_value p.blanks.2)
          (p.value_no_eq e))
        (All-map _ _ blank_no_eq w.after p.blanks.3)

-- A plain constraint, however it is padded with blanks, is read back as its key, operator and value.
pub parse_constraint-spell :
    (o : Op) (w : Written)
    → IsPlain o w
    → parse_constraint (spell o w) ≡ some (record { key = w.key; op = o; value = w.value })
unfolding parse_constraint
parse_constraint-spell op_eq w p = rw (
  split_at-found op_eq w p (index-eq (left_side w) (right_side w) (left_no_eq op_eq w p)),
  parse_constraint,
)
parse_constraint-spell op_neq w p = rw (
  split_at-absent (spell op_neq w) (
      index-eq_after_neq (left_side w) (right_side w) (left_no_eq op_neq w p)
        (right_no_eq op_neq w p refl)),
  split_at-found op_neq w p (index-neq (left_side w) (right_side w) (left_no_bang op_neq w p)),
  parse_constraint,
)
