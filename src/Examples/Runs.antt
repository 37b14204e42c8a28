-- ===== src/Examples/Runs.antt =====
-- Runs of the runtime: the game's window is reported and the overlay takes the input, or the
-- bridge falls silent.
use player_vox_over_crow.Common.{
  ℕ, ◌≡◌, refl, arith, Bool, true, false, Option, none, some, is_some, List, [], ◌∷◌,
}
use player_vox_over_crow.Protocol.{CoreState, default_state, interactive}
use player_vox_over_crow.Config.Widgets.{default_profile}
use player_vox_over_crow.Core.Runtime.State.{CoreRuntime}
use player_vox_over_crow.Core.Runtime.Start.{with_settings_and_widget_profile}
use player_vox_over_crow.Core.Runtime.Step.{
  Command, report_window, toggle_mode, clear, watchdog, run,
}
use player_vox_over_crow.Core.Runtime.Step.Begin.{Fresh}
use player_vox_over_crow.Config.Settings.{default_settings, validate}
use player_vox_over_crow.Config.Allowlist.{ProcessIdentity}
use player_vox_over_crow.Core.Classifier.{ProcessTiming}
use player_vox_over_crow.Core.Runtime.State.{ProcessInstance, default_metadata}
use player_vox_over_crow.Core.Runtime.Snapshot.{snapshot_state_changed, snapshot_at}
use player_vox_over_crow.Core.Runtime.Metadata.{reconcile_process_timing}
use player_vox_over_crow.Core.Runtime.Operations.{
  apply_bridge_observation_at, expire_bridge_lease_at, reload_settings,
}
use player_vox_over_crow.Core.Runtime.Step.{step}
use player_vox_over_crow.Examples.Data.{selecting, table, window, game}

abbrev pub begun : CoreRuntime
begun = with_settings_and_widget_profile default_state table selecting default_profile 20

abbrev pub commands : List Command
commands = report_window window 30 ∷ toggle_mode 31 ∷ []

pub default-Fresh : Fresh default_state
default-Fresh = record {
  fresh_mode = λ h. cc;
  fresh_telemetry = refl;
  fresh_stopwatch = refl;
  fresh_scale = tt;
}

abbrev pub left : List Command
left = report_window window 30 ∷ watchdog 6000000000 ∷ []

pub reached_all :
    ((run begun commands).state.snapshot.active_game ≡ some game)
    × ((run begun commands).published.snapshot.overlay_mode ≡ interactive)
    × ((run begun left).state.snapshot.active_game ≡ none)
unfolding player_vox_over_crow.Common.Text.trim_start player_vox_over_crow.Common.Text.trim
    player_vox_over_crow.Common.Text.eq_ignore_ascii_case
    player_vox_over_crow.Common.Text.starts_with player_vox_over_crow.Common.Text.contains
    player_vox_over_crow.Common.Text.ends_with player_vox_over_crow.Common.Text.split
    player_vox_over_crow.Common.Text.parse_digits player_vox_over_crow.Common.Text.parse_u32
    player_vox_over_crow.Common.Text.components player_vox_over_crow.Common.Text.is_absolute
    player_vox_over_crow.Common.Text.path_eq player_vox_over_crow.Common.Time.clamp_to
    player_vox_over_crow.Common.Time.saturating_add player_vox_over_crow.Common.Time.millis
    player_vox_over_crow.Protocol.observe_game player_vox_over_crow.Protocol.clear_game
    player_vox_over_crow.Protocol.toggle_overlay player_vox_over_crow.Protocol.game_eq
    player_vox_over_crow.Protocol.telemetry_eq
    player_vox_over_crow.Config.Settings.manual_games_error
    player_vox_over_crow.Config.Settings.validate player_vox_over_crow.Config.Accelerator.rank
    player_vox_over_crow.Config.Accelerator.accelerator_parts
    player_vox_over_crow.Config.Accelerator.accelerator_is_valid
    player_vox_over_crow.Config.Allowlist.identity_eq
    player_vox_over_crow.Config.Allowlist.from_settings
    player_vox_over_crow.Config.Allowlist.allows_identity
    player_vox_over_crow.Config.Widgets.Profile.widget_scale_min
    player_vox_over_crow.Config.Widgets.Profile.widget_scale_max
    player_vox_over_crow.Config.Widgets.Profile.widget_panel_min_height
    player_vox_over_crow.Config.Widgets.Profile.widget_panel_max
    player_vox_over_crow.Config.Widgets.Profile.default_position
    player_vox_over_crow.Config.Widgets.Profile.default_panel_size
    player_vox_over_crow.Config.Widgets.Profile.with_passive
    player_vox_over_crow.Config.Widgets.Profile.default_profile
    player_vox_over_crow.Config.Widgets.Profile.settings
    player_vox_over_crow.Config.Widgets.Validation.widget_eq
    player_vox_over_crow.Config.Widgets.Validation.profile_eq
    player_vox_over_crow.Config.Widgets.Validation.valid_ratio
    player_vox_over_crow.Config.Widgets.Validation.valid_scale
    player_vox_over_crow.Config.Widgets.Validation.valid_panel_dim
    player_vox_over_crow.Config.Widgets.Validation.position_is_valid
    player_vox_over_crow.Config.Widgets.Validation.widget_error
    player_vox_over_crow.Config.Widgets.Validation.widgets_error
    player_vox_over_crow.Config.Widgets.Validation.validate_profile
    player_vox_over_crow.Core.Classifier.elapsed_at
    player_vox_over_crow.Core.Classifier.steam_app_id
    player_vox_over_crow.Core.Classifier.related_text
    player_vox_over_crow.Core.Classifier.looks_game_related
    player_vox_over_crow.Core.Classifier.visit player_vox_over_crow.Core.Classifier.classify_loop
    player_vox_over_crow.Core.Classifier.classify_process_identity
    player_vox_over_crow.Core.Stopwatch.toggle player_vox_over_crow.Core.Stopwatch.reset
    player_vox_over_crow.Core.Stopwatch.elapsed player_vox_over_crow.Core.Stopwatch.snapshot_at
    player_vox_over_crow.Core.Runtime.State.into_game
    player_vox_over_crow.Core.Runtime.State.validate_enabled_settings
    player_vox_over_crow.Core.Runtime.State.observation_has_valid_geometry
    player_vox_over_crow.Core.Runtime.State.matching_process_identity
    player_vox_over_crow.Core.Runtime.State.active_game_process
    player_vox_over_crow.Core.Runtime.State.active_game_is_current
    player_vox_over_crow.Core.Runtime.Snapshot.snapshot_with_runtime
    player_vox_over_crow.Core.Runtime.Snapshot.snapshot_of
    player_vox_over_crow.Core.Runtime.Snapshot.snapshot_at
    player_vox_over_crow.Core.Runtime.Snapshot.snapshot_state_changed
    player_vox_over_crow.Core.Runtime.Snapshot.publish_snapshot
    player_vox_over_crow.Core.Runtime.Metadata.forget_game
    player_vox_over_crow.Core.Runtime.Metadata.drop_telemetry
    player_vox_over_crow.Core.Runtime.Metadata.reset_telemetry_for_changed_group
    player_vox_over_crow.Core.Runtime.Metadata.reset_stopwatch_for_changed_process
    player_vox_over_crow.Core.Runtime.Metadata.reconcile_process_timing
    player_vox_over_crow.Core.Runtime.Metadata.track_process
    player_vox_over_crow.Core.Runtime.Metadata.lose_process
    player_vox_over_crow.Core.Runtime.Metadata.refresh_active_process
    player_vox_over_crow.Core.Runtime.Metadata.refresh_telemetry
    player_vox_over_crow.Core.Runtime.Operations.publish_at
    player_vox_over_crow.Core.Runtime.Operations.toggle_runtime_overlay
    player_vox_over_crow.Core.Runtime.Operations.clear_game_locked
    player_vox_over_crow.Core.Runtime.Operations.allowed_process
    player_vox_over_crow.Core.Runtime.Operations.apply_bridge_observation_at
    player_vox_over_crow.Core.Runtime.Operations.expire_bridge_lease_at
    player_vox_over_crow.Core.Runtime.Operations.install_refresh_snapshot_at
    player_vox_over_crow.Core.Runtime.Start.start
    player_vox_over_crow.Core.Runtime.Start.with_settings_and_widget_profile
    player_vox_over_crow.Core.Runtime.Step.step player_vox_over_crow.Core.Runtime.Step.run
reached_all = (refl, refl, refl)
