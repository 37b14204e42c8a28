-- ===== src/Core/Runtime/Step.antt =====
-- The operations as one step function over commands, and their runs: what the D-Bus service, the
-- X11 poll, the process refresh and the bridge watchdog may ask for, in any order and at any time.
pub mod Invariant
pub mod Reload
pub mod Run
pub mod Published
pub mod Guarantees
pub mod Begin
use player_vox_over_crow.Common.{ℕ, Bool, Option, List, [], ◌∷◌}
use player_vox_over_crow.Config.Settings.{LifecycleSettings}
use player_vox_over_crow.Config.Widgets.{WidgetProfile}
use player_vox_over_crow.Core.Classifier.{ProcessTable}
use player_vox_over_crow.Core.Runtime.State.{
  CoreRuntime, WindowObservation, TemperatureSnapshot, ShortcutAvailability,
}
use player_vox_over_crow.Core.Runtime.Snapshot.{publish_shortcut_availability}
use player_vox_over_crow.Core.Runtime.Operations.{
  toggle_manual_stopwatch_at, reset_manual_stopwatch_at, toggle_runtime_overlay,
  set_runtime_interactive, clear_game_locked, apply_bridge_observation_at, apply_x11_observation,
  expire_bridge_lease_at, install_refresh_snapshot_at, reload_settings, reload_widget_profile,
}

pub data Command : Type 0 where
  toggle_stopwatch reset_stopwatch toggle_mode : ℕ → Command
  set_interactive : Bool → ℕ → Command
  report_window : WindowObservation → ℕ → Command
  clear : Command
  poll_x11 : Option WindowObservation → ℕ → Command
  watchdog : ℕ → Command
  refresh : ProcessTable → TemperatureSnapshot → ℕ → ℕ → Command
  load_settings : LifecycleSettings → ℕ → ℕ → Command
  load_profile : WidgetProfile → ℕ → Command
  shortcut : ShortcutAvailability → Command

unfoldable pub step : CoreRuntime → Command → CoreRuntime
step r (toggle_stopwatch now) = (toggle_manual_stopwatch_at r now).0
step r (reset_stopwatch now) = (reset_manual_stopwatch_at r now).0
step r (toggle_mode now) = (toggle_runtime_overlay r now).0
step r (set_interactive b now) = (set_runtime_interactive r b now).0
step r (report_window o now) = (apply_bridge_observation_at r o now).0
step r clear = (clear_game_locked r).0
step r (poll_x11 o now) = (apply_x11_observation r o now).0
step r (watchdog now) = (expire_bridge_lease_at r now).0
step r (refresh table temperatures now ticks_per_second) =
    (install_refresh_snapshot_at r table temperatures now ticks_per_second).0
step r (load_settings s refreshed_at now) = (reload_settings r s refreshed_at now).0
step r (load_profile p now) = (reload_widget_profile r p now).0
step r (shortcut a) = publish_shortcut_availability r a

unfoldable pub run : CoreRuntime → List Command → CoreRuntime
run r [] = r
run r (c ∷ cs) = run (step r c) cs
