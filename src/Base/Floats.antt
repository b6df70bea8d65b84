-- ===== src/Base/Floats.antt =====
-- Go's float64, as a type with the operations that the program applies to it. The checker has no
-- floats, so the type and the operations are arguments of whatever computes with them.
use Prim.Native.Nat.{ℕ, ◌/◌, ◌%◌}
use mathlib.Core.Bool.{Bool}
use mathlib.Core.Option.{Option}
use swarm_hpa.Base.Int.{pos_part}
use swarm_hpa.Base.Strings.{Text}
use swarm_hpa.Base.Times.{Duration}

pub record Float (F : Type 0) : Type 0 where
  -- the constants 0, 1.0, 0.1 and 100
  pub zero : F
  pub one : F
  pub tenth : F
  pub hundred : F
  -- a + b, a - b, a * b, a / b, a < b, a <= b; each test is false where an argument is NaN
  pub add : F → F → F
  pub sub : F → F → F
  pub mul : F → F → F
  pub div : F → F → F
  pub lt : F → F → Bool
  pub le : F → F → Bool
  -- math.Abs, math.Ceil, float64(n), uint64(x), strconv.ParseFloat(s, 64)
  pub abs : F → F
  pub ceil : F → F
  pub of_uint64 : ℕ → F
  pub to_uint64 : F → ℕ
  pub parse : Text → Option F

-- `d.Seconds()` at a duration that is not negative: whole seconds plus the rest over 1e9.
unfoldable pub seconds : {F : Type 0} ⦃fl : Float F⦄ → Duration → F
seconds ⦃fl⦄ d =
    let n = pos_part d in
    fl.add (fl.of_uint64 (n / 1000000000))
      (fl.div (fl.of_uint64 (n % 1000000000)) (fl.of_uint64 1000000000))
