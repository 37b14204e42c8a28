-- ===== src/Core/Stopwatch.antt =====
-- crates/overcrow-core/src/manual_stopwatch.rs: a stopwatch that is started, stopped and reset.
pub mod Laws
use player_vox_over_crow.Common.{ℕ, ◌-◌, Option, none, some, is_some}
use player_vox_over_crow.Common.Time.{duration_max, saturating_add, millis}
use player_vox_over_crow.Protocol.{ManualStopwatchSnapshot}

pub record ManualStopwatch : Type 0 where
  pub accumulated : ℕ  -- Duration
  pub started_at : Option ℕ  -- Instant

abbrev pub new_stopwatch : ManualStopwatch
new_stopwatch = record { accumulated = 0; started_at = none }

abbrev pub lap : ℕ → ℕ → ℕ → ℕ
lap accumulated started_at now = saturating_add duration_max accumulated (now - started_at)

abbrev pub toggle_from : Option ℕ → ManualStopwatch → ℕ → ManualStopwatch
toggle_from (some t) w now = record { accumulated = lap w.accumulated t now; started_at = none }
toggle_from none w now = record w { started_at = some now }

unfoldable pub toggle : ManualStopwatch → ℕ → ManualStopwatch
toggle w now = toggle_from w.started_at w now

unfoldable pub reset : ManualStopwatch → ManualStopwatch
reset w = record { accumulated = 0; started_at = none }

abbrev pub elapsed_from : Option ℕ → ℕ → ℕ → ℕ
elapsed_from none accumulated now = accumulated
elapsed_from (some t) accumulated now = lap accumulated t now

unfoldable pub elapsed : ManualStopwatch → ℕ → ℕ
elapsed w now = elapsed_from w.started_at w.accumulated now

unfoldable pub snapshot_at : ManualStopwatch → ℕ → ManualStopwatchSnapshot
unfolding elapsed
snapshot_at w now = record { elapsed_ms = millis (elapsed w now); running = is_some w.started_at }
