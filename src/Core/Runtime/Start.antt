-- ===== src/Core/Runtime/Start.antt =====
-- crates/overcrow-core/src/runtime.rs: how a runtime is made.
use player_vox_over_crow.Common.{ℕ, Option, none, some, is_none, if◌then◌else◌}
use player_vox_over_crow.Common.Result.{ok_or}
use player_vox_over_crow.Protocol.{GameWindow, CoreState, clear_game, stopped_at_zero}
use player_vox_over_crow.Config.Settings.{LifecycleSettings, default_settings}
use player_vox_over_crow.Config.Allowlist.{ProcessIdentity, GameAllowlist, from_settings}
use player_vox_over_crow.Config.Widgets.{WidgetProfile, default_profile, validate_profile}
use player_vox_over_crow.Core.Classifier.{ProcessTable, ProcessTiming}
use player_vox_over_crow.Core.Stopwatch.{new_stopwatch}
use player_vox_over_crow.Core.Telemetry.{new_sampler}
use player_vox_over_crow.Core.Runtime.State.{
  CoreRuntime, ProcessInstance, ShortcutAvailability, validate_enabled_settings,
  snapshot_has_selected_process, matching_process_identity, active_game_process,
}
use player_vox_over_crow.Core.Runtime.Snapshot.{snapshot_with_runtime}

abbrev pub identity_of : Option GameWindow → ProcessTable → GameAllowlist → Option ProcessIdentity
identity_of none table al = none
identity_of (some game) table al = matching_process_identity game table al

-- The process is looked up only for a game whose identity is accepted.
abbrev pub process_of :
    Option ProcessIdentity
    → Option GameWindow
    → ProcessTable
    → Option (ProcessInstance × Option ProcessTiming)
process_of none game table = none
process_of (some i) none table = none
process_of (some i) (some game) table = active_game_process game table

abbrev pub instance_of : Option (ProcessInstance × Option ProcessTiming) → Option ProcessInstance
instance_of none = none
instance_of (some (p, t)) = some p

abbrev pub timing_of : Option (ProcessInstance × Option ProcessTiming) → Option ProcessTiming
timing_of none = none
timing_of (some (p, t)) = t

-- The runtime over settings and a profile that were checked.
unfoldable pub start :
    CoreState → ProcessTable → LifecycleSettings → WidgetProfile → ℕ → CoreRuntime
start state table settings profile now =
    let al = from_settings settings in
    let game = state.snapshot.active_game in
    let identity = identity_of game table al in
    let found = process_of identity game table in
    let kept = if is_none identity then clear_game state else state in
    record {
      state = kept;
      processes = table;
      settings = settings;
      widget_profile = profile;
      published = record {
        revision = 0;
        snapshot = snapshot_with_runtime kept.snapshot (timing_of found) none stopped_at_zero now;
      };
      selected_running = snapshot_has_selected_process al table;
      shortcut_settings = settings.shortcut;
      published_profile = profile;
      shortcut_availability = ShortcutAvailability.disabled;
      metadata = record {
        bridge_last_report = none;
        active_identity = identity;
        active_process = instance_of found;
        active_timing = timing_of found;
        timing_floor = timing_of found;
        telemetry = none;
        telemetry_sampler = new_sampler;
        manual_stopwatch = new_stopwatch;
      };
    }

unfoldable pub with_settings_and_widget_profile :
    CoreState → ProcessTable → LifecycleSettings → WidgetProfile → ℕ → CoreRuntime
unfolding start
with_settings_and_widget_profile state table settings profile now =
    start state table (ok_or (validate_enabled_settings settings) default_settings)
      (ok_or (validate_profile profile) default_profile) now

unfoldable pub with_settings : CoreState → ProcessTable → LifecycleSettings → ℕ → CoreRuntime
unfolding with_settings_and_widget_profile
with_settings state table settings now =
    with_settings_and_widget_profile state table settings default_profile now

unfoldable pub new_runtime : CoreState → ProcessTable → ℕ → CoreRuntime
unfolding with_settings
new_runtime state table now = with_settings state table default_settings now
