-- ===== src/Base/Times.antt =====
-- Go's package time, as far as the program computes with it. A `Time` is an instant in nanoseconds
-- on one unbounded time line; a `Duration` is an int64 of nanoseconds, and `Time.Sub` saturates.
use mathlib.Core.Path.{◌≡◌}
use mathlib.Core.Bool.{Bool, true}
use native.Mathlib.Omega.{arith}
use swarm_hpa.Base.Tests.{if◌then◌else◌}
use swarm_hpa.Base.Int.{ℤ, pos, negsuc, ◌+ℤ◌, ◌-ℤ◌, ◌≤ℤ◌, ◌<ℤ◌, leb_ℤ, ltb_ℤ, +ℤ_parts, -ℤ_parts}

abbrev pub Time : Type 0
Time = ℤ

abbrev pub Duration : Type 0
Duration = ℤ

abbrev pub zero_duration : Duration
zero_duration = pos 0

abbrev pub max_duration : Duration
max_duration = pos 9223372036854775807

abbrev pub min_duration : Duration
min_duration = negsuc 9223372036854775807

-- The nearest duration.
unfoldable pub saturate : ℤ → Duration
saturate d =
    if ltb_ℤ d min_duration then min_duration else if ltb_ℤ max_duration d then max_duration else d

-- The int64 that a difference of two durations wraps to.
unfoldable pub wrap_i64 : ℤ → Duration
wrap_i64 d =
    if ltb_ℤ max_duration d
    then d -ℤ pos 18446744073709551616
    else if ltb_ℤ d min_duration
    then d +ℤ pos 18446744073709551616
    else d

-- `t.Sub(u)`
unfoldable pub sub : Time → Time → Duration
unfolding saturate
sub t u = saturate (t -ℤ u)

-- `t.Before(u)`
abbrev pub before : Time → Time → Bool
before t u = ltb_ℤ t u

-- A window that is a positive duration is compared as if the difference were exact.
pub le-sub : (w : Duration) (t u : Time) → pos 0 <ℤ w → leb_ℤ w (sub t u) ≡ true → w +ℤ u ≤ℤ t
unfolding sub
le-sub w t u p h = ground (arith, -ℤ_parts t u, +ℤ_parts w u)

pub sub-le :
    (w : Duration) (t u : Time) → w ≤ℤ max_duration → w +ℤ u ≤ℤ t → leb_ℤ w (sub t u) ≡ true
unfolding sub
sub-le w t u p h = ground (arith, -ℤ_parts t u, +ℤ_parts w u)
