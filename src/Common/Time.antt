-- ===== src/Common/Time.antt =====
-- `Duration` and `Instant` as counts of nanoseconds, and the saturating machine integers.
-- `checked_duration_since(..).unwrap_or_default()` and `saturating_duration_since` are `-` on ℕ.
use Prim.Native.Nat.{ℕ, ◌+◌, ◌/◌, ◌≤◌}
use mathlib.Core.Path.{◌≡◌}
use mathlib.Core.Option.{Option, none, some}
use native.Mathlib.Omega.{arith}
use player_vox_over_crow.Common.Tests.{leb, if◌then◌else◌}

abbrev pub u32_max : ℕ
u32_max = 4294967295

abbrev pub u64_max : ℕ
u64_max = 18446744073709551615

abbrev pub u128_max : ℕ
u128_max = 340282366920938463463374607431768211455

-- The longest `Duration`: u64::MAX seconds and 999,999,999 nanoseconds.
abbrev pub duration_max : ℕ
duration_max = 18446744073709551615999999999

-- The last `Instant` on Linux: i64::MAX seconds and 999,999,999 nanoseconds.
abbrev pub instant_max : ℕ
instant_max = 9223372036854775807999999999

-- `Instant::checked_add`.
unfoldable pub checked_add : ℕ → ℕ → Option ℕ
checked_add now delay = if leb (now + delay) instant_max then some (now + delay) else none

-- The value, or the bound where it does not fit.
unfoldable pub clamp_to : ℕ → ℕ → ℕ
clamp_to bound n = if leb n bound then n else bound

-- `saturating_add` at the bound of the type.
unfoldable pub saturating_add : ℕ → ℕ → ℕ → ℕ
unfolding clamp_to
saturating_add bound a b = clamp_to bound (a + b)

-- `u64::try_from(elapsed.as_millis()).unwrap_or(u64::MAX)`.
unfoldable pub millis : ℕ → ℕ
unfolding clamp_to
millis nanos = clamp_to u64_max (nanos / 1000000)

pub clamp_to-le : (bound n : ℕ) → clamp_to bound n ≤ bound
unfolding clamp_to
clamp_to-le bound n = ground arith

pub saturating_add-le : (bound a b : ℕ) → saturating_add bound a b ≤ bound
unfolding saturating_add
saturating_add-le bound a b = ground arith

pub saturating_add_mono :
    (bound a b c d : ℕ) → a ≤ c → b ≤ d → saturating_add bound a b ≤ saturating_add bound c d
unfolding saturating_add
saturating_add_mono bound a b c d h k = ground arith

pub saturating_add_assoc :
    (bound a b c : ℕ)
    → saturating_add bound (saturating_add bound a b) c ≡ clamp_to bound (a + b + c)
unfolding saturating_add
saturating_add_assoc bound a b c = ground arith
