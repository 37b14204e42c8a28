-- ===== src/Core/Runtime/Operations.antt =====
-- crates/overcrow-core/src/runtime.rs: the operations of `CoreRuntime`. `Instant::now()` is an
-- argument of each.
pub mod Outcomes
use player_vox_over_crow.Common.{
  ℕ, ◌-◌, Bool, true, false, not, ◌&&◌, ◌||◌, Option, none, some, is_some, opt_eq, ltb, ◌==◌,
  if◌then◌else◌, get,
}
use player_vox_over_crow.Common.Result.{Result, ok, err}
use player_vox_over_crow.Common.Text.{Text, text_eq}
use player_vox_over_crow.Protocol.{
  GameWindow, CoreSnapshot, CoreState, observe_game, clear_game, toggle_overlay,
  set_overlay_interactive,
}
use player_vox_over_crow.Config.Settings.{LifecycleSettings}
use player_vox_over_crow.Config.Allowlist.{
  GameAllowlist, ProcessIdentity, from_settings, allows_identity,
}
use player_vox_over_crow.Config.Widgets.{WidgetProfile, WidgetProfileError, validate_profile}
use player_vox_over_crow.Core.Classifier.{ProcessInfo, ProcessTable, classify_process_identity}
use player_vox_over_crow.Core.Stopwatch.{toggle, reset}
use player_vox_over_crow.Core.Runtime.State.{
  CoreRuntime, RuntimeMetadata, RuntimeSettingsError, WindowObservation, AllowedProcess,
  TemperatureSnapshot, no_temperatures, bridge_lease_timeout, overlay_app_id, into_game,
  classification_from_identity, validate_enabled_settings, observation_has_valid_geometry,
  snapshot_has_selected_process, active_game_is_current,
}
use player_vox_over_crow.Core.Runtime.Snapshot.{
  snapshot_of, snapshot_at, publish_snapshot, publish_selected_running, publish_shortcut_settings,
  publish_widget_profile,
}
use player_vox_over_crow.Core.Runtime.Metadata.{
  forget_game, reset_telemetry_for_changed_group, track_process, refresh_active_process,
  refresh_telemetry,
}

-- `snapshot_with_runtime` of the current state, published.
unfoldable pub publish_at : CoreRuntime → ℕ → CoreRuntime × CoreSnapshot
publish_at r now = publish_snapshot r (snapshot_at r now)

abbrev pub takes_stopwatch : CoreRuntime → Bool
takes_stopwatch r =
    r.widget_profile.manual_stopwatch.enabled && is_some r.state.snapshot.active_game

unfoldable pub toggle_manual_stopwatch_at : CoreRuntime → ℕ → CoreRuntime × CoreSnapshot
toggle_manual_stopwatch_at r now =
    publish_at
      (if takes_stopwatch r
        then record r {
          metadata = record (r.metadata) {
            manual_stopwatch = toggle r.metadata.manual_stopwatch now;
          };
        }
        else r)
      now

unfoldable pub reset_manual_stopwatch_at : CoreRuntime → ℕ → CoreRuntime × CoreSnapshot
reset_manual_stopwatch_at r now =
    publish_at
      (if takes_stopwatch r
        then record r {
          metadata = record (r.metadata) { manual_stopwatch = reset r.metadata.manual_stopwatch };
        }
        else r)
      now

unfoldable pub toggle_runtime_overlay : CoreRuntime → ℕ → CoreRuntime × CoreSnapshot
toggle_runtime_overlay r now = publish_at (record r { state = toggle_overlay r.state }) now

unfoldable pub set_runtime_interactive : CoreRuntime → Bool → ℕ → CoreRuntime × CoreSnapshot
set_runtime_interactive r interactive now =
    publish_at (record r { state = set_overlay_interactive r.state interactive }) now

-- The state and the memory without a game.
abbrev pub without_game : CoreRuntime → CoreRuntime
without_game r = record r { state = clear_game r.state; metadata = forget_game r.metadata }

unfoldable pub clear_game_locked : CoreRuntime → CoreRuntime × CoreSnapshot
clear_game_locked r = let q = without_game r in publish_snapshot q q.state.snapshot

abbrev pub allowed_entry :
    GameAllowlist → ℕ → ProcessTable → Option ProcessInfo → Option AllowedProcess
allowed_entry al pid table none = none
allowed_entry al pid table (some p) =
    let i = classify_process_identity pid table in
    if allows_identity al i
    then some (record {
      identity = i;
      process = record { pid = pid; start_ticks = p.start_ticks };
      timing = p.timing;
    })
    else none

abbrev pub allowed_pid : GameAllowlist → ProcessTable → Option ℕ → Option AllowedProcess
allowed_pid al table none = none
allowed_pid al table (some pid) = allowed_entry al pid table (get pid table)

unfoldable pub allowed_process : CoreRuntime → WindowObservation → Option AllowedProcess
allowed_process r o = allowed_pid (from_settings r.settings) r.processes o.pid

-- The memory of an accepted window: the bridge's report is kept as `report`.
abbrev pub accept_metadata : RuntimeMetadata → AllowedProcess → Option ℕ → ℕ → RuntimeMetadata
accept_metadata m a report observed_at =
    record (track_process (reset_telemetry_for_changed_group m a) a.process a.timing observed_at) {
      bridge_last_report = report;
      active_identity = some a.identity;
    }

abbrev pub observed :
    CoreRuntime → WindowObservation → Option AllowedProcess → Option ℕ → ℕ → CoreRuntime
observed r o none report observed_at = without_game r
observed r o (some a) report observed_at = record r {
  state = observe_game r.state (into_game o (classification_from_identity a.identity));
  metadata = accept_metadata r.metadata a report observed_at;
}

unfoldable pub apply_bridge_observation_at :
    CoreRuntime → WindowObservation → ℕ → CoreRuntime × CoreSnapshot
apply_bridge_observation_at r o reported_at =
    if not (observation_has_valid_geometry o)
    then clear_game_locked r
    else publish_at (observed r o (allowed_process r o) (some reported_at) reported_at) reported_at

unfoldable pub apply_x11_observation :
    CoreRuntime → Option WindowObservation → ℕ → CoreRuntime × CoreSnapshot
apply_x11_observation r none now = clear_game_locked r
apply_x11_observation r (some o) now =
    if opt_eq text_eq o.app_id (some overlay_app_id)
    then (r, snapshot_at r now)
    else if not (observation_has_valid_geometry o)
    then clear_game_locked r
    else publish_at (observed r o (allowed_process r o) none now) now

abbrev pub expire_report : CoreRuntime → Option ℕ → ℕ → CoreRuntime × Bool
expire_report r none now = (r, false)
expire_report r (some reported_at) now =
    if ltb (now - reported_at) bridge_lease_timeout
    then (r, false)
    else ((clear_game_locked r).0, true)

unfoldable pub expire_bridge_lease_at : CoreRuntime → ℕ → CoreRuntime × Bool
unfolding clear_game_locked
expire_bridge_lease_at r now = expire_report r r.metadata.bridge_last_report now

abbrev pub is_current : CoreRuntime → Option GameWindow → GameAllowlist → Bool
is_current r none al = true
is_current r (some game) al =
    active_game_is_current game r.metadata.active_identity r.metadata.active_process r.processes al

unfoldable pub install_refresh_snapshot_at :
    CoreRuntime → ProcessTable → TemperatureSnapshot → ℕ → ℕ → CoreRuntime × CoreSnapshot
install_refresh_snapshot_at r table temperatures observed_at ticks_per_second =
    let al = from_settings r.settings in
    let q =
      publish_selected_running (record r { processes = table })
        (snapshot_has_selected_process al table) in
    let game = q.state.snapshot.active_game in
    publish_at
      (if not (is_current q game al) then without_game q else record q {
        metadata =
            refresh_telemetry (refresh_active_process q.metadata game table observed_at) game table
              temperatures observed_at ticks_per_second;
      })
      observed_at

unfoldable pub install_process_snapshot_at :
    CoreRuntime → ProcessTable → ℕ → ℕ → CoreRuntime × CoreSnapshot
unfolding install_refresh_snapshot_at
install_process_snapshot_at r table observed_at ticks_per_second =
    install_refresh_snapshot_at r table no_temperatures observed_at ticks_per_second

-- The settings are in force; the active game is checked against them.
unfoldable pub install_settings :
    CoreRuntime → LifecycleSettings → ℕ → ℕ → CoreRuntime × CoreSnapshot
install_settings r s refreshed_at now =
    let al = from_settings s in
    let q =
      publish_selected_running (publish_shortcut_settings (record r { settings = s }) s.shortcut)
        (snapshot_has_selected_process al r.processes) in
    let game = q.state.snapshot.active_game in
    publish_at
      (if not (is_current q game al) then without_game q else record q {
        metadata = refresh_active_process q.metadata game q.processes refreshed_at;
      })
      now

abbrev pub reload_checked :
    CoreRuntime
    → Result RuntimeSettingsError LifecycleSettings
    → ℕ
    → ℕ
    → CoreRuntime × Result RuntimeSettingsError CoreSnapshot
reload_checked r (err e) refreshed_at now = (r, err e)
reload_checked r (ok s) refreshed_at now =
    let (q, snapshot) = install_settings r s refreshed_at now in (q, ok snapshot)

unfoldable pub reload_settings :
    CoreRuntime → LifecycleSettings → ℕ → ℕ → CoreRuntime × Result RuntimeSettingsError CoreSnapshot
unfolding install_settings
reload_settings r s refreshed_at now =
    reload_checked r (validate_enabled_settings s) refreshed_at now

abbrev pub reload_profile_checked :
    CoreRuntime
    → Result WidgetProfileError WidgetProfile
    → ℕ
    → CoreRuntime × Result WidgetProfileError CoreSnapshot
reload_profile_checked r (err e) now = (r, err e)
reload_profile_checked r (ok p) now =
    let (q, snapshot) =
      publish_at (publish_widget_profile (record r { widget_profile = p }) p) now in
    (q, ok snapshot)

unfoldable pub reload_widget_profile :
    CoreRuntime → WidgetProfile → ℕ → CoreRuntime × Result WidgetProfileError CoreSnapshot
reload_widget_profile r p now = reload_profile_checked r (validate_profile p) now
