-- ===== src/Core/Runtime/Snapshot.antt =====
-- crates/overcrow-core/src/runtime.rs: what a snapshot shows at a moment, and when it is published.
pub mod Sync
pub mod Shows
use player_vox_over_crow.Common.{
  ℕ, Bool, true, false, not, ◌&&◌, ◌||◌, Option, none, some, opt_eq, bool_eq, ◌==◌, if◌then◌else◌,
}
use player_vox_over_crow.Common.Time.{u64_max, saturating_add, millis}
use player_vox_over_crow.Common.Text.{text_eq}
use player_vox_over_crow.Protocol.{
  GameWindow, GameTelemetry, CoreSnapshot, ManualStopwatchSnapshot, game_eq, mode_eq, telemetry_eq,
}
use player_vox_over_crow.Config.Settings.{ShortcutSettings}
use player_vox_over_crow.Config.Widgets.{WidgetProfile, profile_eq}
use player_vox_over_crow.Core.Classifier.{ProcessTiming, elapsed_at}
use player_vox_over_crow.Core.Stopwatch
use player_vox_over_crow.Core.Runtime.State.{
  CoreRuntime, RuntimeMetadata, ShortcutAvailability, binding, available, unavailable,
}

abbrev pub over_game {ℓ} : {A : Type ℓ} → Option GameWindow → Option A → Option A
over_game none o = none
over_game (some _) o = o

abbrev pub elapsed_ms : Option ProcessTiming → ℕ → Option ℕ
elapsed_ms none now = none
elapsed_ms (some t) now = some (millis (elapsed_at t now))

unfoldable pub snapshot_with_runtime :
    CoreSnapshot
    → Option ProcessTiming
    → Option GameTelemetry
    → ManualStopwatchSnapshot
    → ℕ
    → CoreSnapshot
snapshot_with_runtime s timing telemetry stopwatch now = record s {
  session_elapsed_ms = over_game s.active_game (elapsed_ms timing now);
  telemetry = over_game s.active_game telemetry;
  manual_stopwatch = stopwatch;
}

unfoldable pub snapshot_of : CoreSnapshot → RuntimeMetadata → ℕ → CoreSnapshot
unfolding snapshot_with_runtime
snapshot_of s m now =
    snapshot_with_runtime s m.active_timing m.telemetry
      (Stopwatch.snapshot_at m.manual_stopwatch now) now

unfoldable pub snapshot_at : CoreRuntime → ℕ → CoreSnapshot
unfolding snapshot_of
snapshot_at r now = snapshot_of r.state.snapshot r.metadata now

-- A running stopwatch is compared by its running alone, and the session's time not at all.
unfoldable pub snapshot_state_changed : CoreSnapshot → CoreSnapshot → Bool
snapshot_state_changed current next =
    not (opt_eq game_eq current.active_game next.active_game)
    || (not (mode_eq current.overlay_mode next.overlay_mode)
        || (not (opt_eq telemetry_eq current.telemetry next.telemetry)
            || (not (bool_eq current.manual_stopwatch.running next.manual_stopwatch.running)
                || not next.manual_stopwatch.running
                  && not
                      (current.manual_stopwatch.elapsed_ms == next.manual_stopwatch.elapsed_ms))))

unfoldable pub publish_snapshot : CoreRuntime → CoreSnapshot → CoreRuntime × CoreSnapshot
publish_snapshot r s = (
  if snapshot_state_changed r.published.snapshot s
      then record r {
        published = record {
          revision = saturating_add u64_max r.published.revision 1;
          snapshot = s;
        };
      }
      else r,
  s,
)

abbrev pub publish_selected_running : CoreRuntime → Bool → CoreRuntime
publish_selected_running r b =
    if not (bool_eq r.selected_running b) then record r { selected_running = b } else r

abbrev pub shortcut_eq : ShortcutSettings → ShortcutSettings → Bool
shortcut_eq a b = bool_eq a.enabled b.enabled && text_eq a.accelerator b.accelerator

abbrev pub publish_shortcut_settings : CoreRuntime → ShortcutSettings → CoreRuntime
publish_shortcut_settings r s =
    if shortcut_eq r.shortcut_settings s then r else record r { shortcut_settings = s }

abbrev pub publish_widget_profile : CoreRuntime → WidgetProfile → CoreRuntime
publish_widget_profile r p =
    if profile_eq r.published_profile p then r else record r { published_profile = p }

abbrev pub availability_eq : ShortcutAvailability → ShortcutAvailability → Bool
availability_eq ShortcutAvailability.disabled ShortcutAvailability.disabled = true
availability_eq binding binding = true
availability_eq available available = true
availability_eq (unavailable a) (unavailable b) = text_eq a b
availability_eq _ _ = false

unfoldable pub publish_shortcut_availability : CoreRuntime → ShortcutAvailability → CoreRuntime
publish_shortcut_availability r a =
    if availability_eq r.shortcut_availability a then r else record r { shortcut_availability = a }
