-- ===== src/Base/Scan.antt =====
-- Go's package strings, as far as the program calls it: Index, Contains, HasPrefix, TrimPrefix,
-- TrimSpace and slices at an index.
use Prim.Native.Nat.{ℕ, zero, suc, ◌+◌, ◌≤◌}
use mathlib.Core.Path.{◌≡◌, refl, ap, ◌∙◌}
use mathlib.Core.Logic.{◌≢◌, ◌↔◌, inl, inr}
use mathlib.Core.Bool.{Bool, true, false, ◌&&◌, ◌||◌}
use mathlib.Core.Option
use mathlib.Core.Option.{Option, none, some}
use mathlib.Core.List.{[], ◌∷◌, ◌++◌, reverse, append_assoc, reverse-append, reverse-reverse}
use native.Mathlib.Nat.{suc-add}
use native.Mathlib.Omega.{arith}
use swarm_hpa.Base.Tests.{leb, nat_eq, if◌then◌else◌, Bool-cases}
use swarm_hpa.Base.Lists.{length, All, All-append}
use swarm_hpa.Base.Strings.{Text}

-- s[:n] and s[n:]
unfoldable pub take : ℕ → Text → Text
take zero s = []
take (suc n) [] = []
take (suc n) (c ∷ s) = c ∷ take n s

unfoldable pub drop : ℕ → Text → Text
drop zero s = s
drop (suc n) [] = []
drop (suc n) (c ∷ s) = drop n s

-- strings.HasPrefix(s, p), with the prefix first
unfoldable pub has_prefix : Text → Text → Bool
has_prefix [] s = true
has_prefix (p ∷ ps) [] = false
has_prefix (p ∷ ps) (c ∷ s) = nat_eq p c && has_prefix ps s

-- strings.Index(s, p), with the pattern first; `none` is -1
unfoldable pub index : Text → Text → Option ℕ
unfolding has_prefix
index p [] = if has_prefix p [] then some 0 else none
index p (c ∷ s) =
    let rest = Option.map suc (index p s) in if has_prefix p (c ∷ s) then some 0 else rest

-- strings.Contains(s, p), with the pattern first
unfoldable pub contains : Text → Text → Bool
unfolding index
contains p s = elim (index p s) [ none ↦ false | some i ↦ true ]

-- unicode.IsSpace
unfoldable pub is_space : ℕ → Bool
is_space c =
    (leb 9 c && leb c 13)
    || nat_eq c 32
    || nat_eq c 0x85
    || nat_eq c 0xa0
    || nat_eq c 0x1680
    || (leb 0x2000 c && leb c 0x200a)
    || nat_eq c 0x2028
    || nat_eq c 0x2029
    || nat_eq c 0x202f
    || nat_eq c 0x205f
    || nat_eq c 0x3000

unfoldable pub trim_left : Text → Text
trim_left [] = []
trim_left (c ∷ s) = if is_space c then trim_left s else c ∷ s

-- strings.TrimSpace
unfoldable pub trim_space : Text → Text
unfolding trim_left is_space
trim_space s = reverse (trim_left (reverse (trim_left s)))

-- Every character is a blank.
abbrev pub IsBlank : Text → Type 0
IsBlank = All (λ c. is_space c ≡ true)

pub trim_left-blank : (b s : Text) → IsBlank b → trim_left (b ++ s) ≡ trim_left s
unfolding trim_left
trim_left-blank [] s h = refl
trim_left-blank (c ∷ b) s h = rw h.0 (trim_left-blank b s h.1)

pub take-append : (s t : Text) → take (length s) (s ++ t) ≡ s
unfolding take
take-append [] t = refl
take-append (c ∷ s) t = ap (λ r. c ∷ r) (take-append s t)

pub drop-append : (s t : Text) (n : ℕ) → drop (length s + n) (s ++ t) ≡ drop n t
unfolding drop
drop-append [] t n = ground arith
drop-append (c ∷ s) t n = rw (suc-add) (drop-append s t n)

pub length-trim_left : (s : Text) → length (trim_left s) ≤ length s
unfolding trim_left
length-trim_left [] = omega arith
length-trim_left (c ∷ s) = ground (arith, length-trim_left s)

-- The text has no blank at its ends.
abbrev pub IsTrimmed : Text → Type 0
IsTrimmed s = (trim_left s ≡ s) × (trim_left (reverse s) ≡ reverse s)

trim_left-front : (s t : Text) → s ≢ [] → trim_left s ≡ s → trim_left (s ++ t) ≡ s ++ t
unfolding trim_left
trim_left-front [] t n h = absurd (n refl)
trim_left-front (c ∷ s) t n h = elim (Bool-cases (is_space c)) [
  | inl blank ↦ absurd (omega (arith, ap (length {A = ℕ}) (rw blank at h), length-trim_left s))
  | inr other ↦ rw other
]

IsBlank-append : (b c : Text) → IsBlank b → IsBlank c → IsBlank (b ++ c)
IsBlank-append = All-append (λ c. is_space c ≡ true)

IsBlank-reverse : (b : Text) → IsBlank b → IsBlank (reverse b)
IsBlank-reverse [] h = tt
IsBlank-reverse (c ∷ b) h =
    rw (reverse-append (c ∷ []) b)
      (IsBlank-append (reverse b) (c ∷ []) (IsBlank-reverse b h.1) (h.0, tt))

trim_left-all_blank : (b : Text) → IsBlank b → trim_left b ≡ []
unfolding trim_left
trim_left-all_blank [] h = refl
trim_left-all_blank (c ∷ b) h = rw h.0 (trim_left-all_blank b h.1)

-- Blanks round a text that has none at its ends are trimmed away.
pub trim_space-padded :
    (b s c : Text) → s ≢ [] → IsBlank b → IsBlank c → IsTrimmed s → trim_space (b ++ s ++ c) ≡ s
unfolding trim_space
trim_space-padded b s c n hb hc h =
    rw
      (
        append_assoc b s c,
        trim_left-blank b (s ++ c) hb,
        trim_left-front s c n h.0,
        reverse-append s c,
        trim_left-blank (reverse c) (reverse s) (IsBlank-reverse c hc),
        h.1,
        reverse-reverse s,
      )
      refl

-- The pattern stands somewhere in the text.
pub data Occurs (p s : Text) : Type 0 where
  occurs : (a b : Text) → s ≡ a ++ (p ++ b) → Occurs p s

has_prefix-append : (p b : Text) → has_prefix p (p ++ b) ≡ true
unfolding has_prefix
has_prefix-append [] b = refl
has_prefix-append (c ∷ p) b = ground (arith, has_prefix-append p b)

pub prefix_rest : (p s : Text) → has_prefix p s ≡ true → (b : Text) × (s ≡ p ++ b)
unfolding has_prefix
prefix_rest [] s h = (s, refl)
prefix_rest (c ∷ p) [] h = cc
prefix_rest (c ∷ p) (d ∷ s) h =
    let (b, e) = prefix_rest p s (ground arith) in (b, ground (arith, e))

contains-cons : (p s : Text) (c : ℕ) → contains p (c ∷ s) ≡ (has_prefix p (c ∷ s) || contains p s)
unfolding contains
contains-cons p s c = ground arith

prefix-contains : (p s : Text) → has_prefix p s ≡ true → contains p s ≡ true
unfolding contains
prefix-contains p [] h = ground arith
prefix-contains p (c ∷ s) h = ground arith

contains-Occurs : (p s : Text) → contains p s ≡ true → Occurs p s
contains-Occurs p [] h =
    let (b, e) = prefix_rest p [] (unfold contains in ground arith) in occurs [] b e
contains-Occurs p (c ∷ s) h = elim (Bool-cases (has_prefix p (c ∷ s))) [
  | inl here ↦ let (b, e) = prefix_rest p (c ∷ s) here in occurs [] b e
  | inr later ↦ elim (contains-Occurs p s (ground (arith, contains-cons p s c, later))) [
    | occurs a b e ↦ occurs (c ∷ a) b (ap (λ t. c ∷ t) e)
  ]
]

Occurs-contains : (p a b : Text) → contains p (a ++ (p ++ b)) ≡ true
Occurs-contains p [] b = prefix-contains p (p ++ b) (has_prefix-append p b)
Occurs-contains p (c ∷ a) b =
    ground (arith, contains-cons p (a ++ (p ++ b)) c, Occurs-contains p a b)

-- Contains finds a pattern exactly where it occurs.
pub contains_iff : (p s : Text) → (contains p s ≡ true) ↔ Occurs p s
contains_iff p s =
    (contains-Occurs p s, λ o. elim o [ occurs a b e ↦ ap (contains p) e ∙ Occurs-contains p a b ])
