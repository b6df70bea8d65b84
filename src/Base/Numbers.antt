-- ===== src/Base/Numbers.antt =====
-- Go's package strconv, as far as the program calls it.
use Prim.Native.Nat.{ℕ, ◌+◌, ◌-◌, ◌*◌, ◌^◌}
use mathlib.Core.Bool.{Bool, true, false, ◌&&◌, ◌||◌}
use mathlib.Core.Option.{Option, none, some}
use mathlib.Core.List.{[], ◌∷◌}
use swarm_hpa.Base.Tests.{ltb, leb, if◌then◌else◌}
use swarm_hpa.Base.Strings.{Text, text_eq, lit}

-- strconv.ParseBool
unfoldable pub parse_bool : Text → Option Bool
parse_bool s =
    if text_eq s (lit "1")
      || text_eq s (lit "t")
      || text_eq s (lit "T")
      || text_eq s (lit "TRUE")
      || text_eq s (lit "true")
      || text_eq s (lit "True")
    then some true
    else if text_eq s (lit "0")
        || text_eq s (lit "f")
        || text_eq s (lit "F")
        || text_eq s (lit "FALSE")
        || text_eq s (lit "false")
        || text_eq s (lit "False")
    then some false
    else none

-- The value of decimal digits behind others of value `n`.
unfoldable pub digits_from : ℕ → Text → Option ℕ
digits_from n [] = some n
digits_from n (c ∷ s) =
    let rest = digits_from (n * 10 + (c - 48)) s in if leb b'0' c && leb c b'9' then rest else none

unfoldable pub in_uint64 : Option ℕ → Option ℕ
in_uint64 none = none
in_uint64 (some n) = if ltb n (2 ^ 64) then some n else none

-- strconv.ParseUint(s, 10, 64); a syntax error and a range error are both `none`.
unfoldable pub parse_uint : Text → Option ℕ
unfolding digits_from in_uint64
parse_uint [] = none
parse_uint (c ∷ s) = in_uint64 (digits_from 0 (c ∷ s))
