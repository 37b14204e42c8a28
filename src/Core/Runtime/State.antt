-- ===== src/Core/Runtime/State.antt =====
-- crates/overcrow-core/src/runtime.rs and window.rs: the records, and the tests on windows and
-- settings.
use player_vox_over_crow.Common.{
  ℕ, Bool, false, not, ◌&&◌, Option, none, some, opt_eq, ltb, ◌==◌, if◌then◌else◌, get, keys,
}
use player_vox_over_crow.Common.Result.{Result, ok, err}
use player_vox_over_crow.Common.Text.{Text, chars}
use player_vox_over_crow.Common.Float.{Float, is_finite, is_positive}
use player_vox_over_crow.Common.Int.{ℤ}
use player_vox_over_crow.Protocol.{
  Rect, GameWindow, GameTelemetry, CoreState, VersionedCoreSnapshot,
}
use player_vox_over_crow.Config.Settings.{
  LifecycleSettings, ShortcutSettings, SettingsError, validate,
}
use player_vox_over_crow.Config.Allowlist.{
  ProcessIdentity, GameAllowlist, allows_identity, any_selected_process, identity_eq,
}
use player_vox_over_crow.Config.Widgets.{WidgetProfile}
use player_vox_over_crow.Core.Classifier.{
  ProcessTiming, ProcessInfo, ProcessTable, ProcessClassification, classify_process_identity,
}
use player_vox_over_crow.Core.Stopwatch.{ManualStopwatch, new_stopwatch}
use player_vox_over_crow.Core.Telemetry.{TelemetrySampler, new_sampler}

-- 5 s, in nanoseconds.
abbrev pub bridge_lease_timeout : ℕ
bridge_lease_timeout = 5000000000

abbrev pub overlay_app_id : Text
overlay_app_id = chars "io.github.overcrow.Overlay"

pub data RuntimeSettingsError : Type 0 where
  disabled : RuntimeSettingsError
  invalid : SettingsError → RuntimeSettingsError

pub record WindowObservation : Type 0 where
  pub pid : Option ℕ  -- u32
  pub app_id : Option Text
  pub title : Text
  pub rect : Rect
  pub scale : Float  -- f64
  pub backend : Text

unfoldable pub into_game : WindowObservation → ProcessClassification → GameWindow
into_game o c = record {
  pid = o.pid;
  steam_app_id = c.steam_app_id;
  app_id = o.app_id;
  title = o.title;
  rect = o.rect;
  scale = o.scale;
  backend = o.backend;
}

pub record ProcessInstance : Type 0 where
  pub pid : ℕ  -- u32
  pub start_ticks : ℕ  -- u64

abbrev pub instance_eq : ProcessInstance → ProcessInstance → Bool
instance_eq a b = a.pid == b.pid && a.start_ticks == b.start_ticks

pub record RuntimeMetadata : Type 0 where
  pub bridge_last_report : Option ℕ  -- Instant
  pub active_identity : Option ProcessIdentity
  pub active_process : Option ProcessInstance
  pub active_timing : Option ProcessTiming
  pub timing_floor : Option ProcessTiming
  pub telemetry : Option GameTelemetry
  pub telemetry_sampler : TelemetrySampler
  pub manual_stopwatch : ManualStopwatch

abbrev pub default_metadata : RuntimeMetadata
default_metadata = record {
  bridge_last_report = none;
  active_identity = none;
  active_process = none;
  active_timing = none;
  timing_floor = none;
  telemetry = none;
  telemetry_sampler = new_sampler;
  manual_stopwatch = new_stopwatch;
}

pub record AllowedProcess : Type 0 where
  pub identity : ProcessIdentity
  pub process : ProcessInstance
  pub timing : Option ProcessTiming

-- crates/overcrow-core/src/shortcut.rs
pub data ShortcutAvailability : Type 0 where
  disabled binding available : ShortcutAvailability
  unavailable : Text → ShortcutAvailability

-- crates/overcrow-core/src/hwmon.rs
pub record TemperatureSnapshot : Type 0 where
  pub cpu_millicelsius : Option ℤ  -- i64
  pub gpu_millicelsius : Option ℤ  -- i64

abbrev pub no_temperatures : TemperatureSnapshot
no_temperatures = record { cpu_millicelsius = none; gpu_millicelsius = none }

pub record CoreRuntime : Type 0 where
  pub state : CoreState
  pub processes : ProcessTable
  pub settings : LifecycleSettings
  pub widget_profile : WidgetProfile
  pub published : VersionedCoreSnapshot
  pub selected_running : Bool
  pub shortcut_settings : ShortcutSettings
  pub published_profile : WidgetProfile
  pub shortcut_availability : ShortcutAvailability
  pub metadata : RuntimeMetadata

abbrev pub check_enabled :
    Result SettingsError LifecycleSettings → Result RuntimeSettingsError LifecycleSettings
check_enabled (err e) = err (invalid e)
check_enabled (ok s) = if not s.enabled then err RuntimeSettingsError.disabled else ok s

unfoldable pub validate_enabled_settings :
    LifecycleSettings → Result RuntimeSettingsError LifecycleSettings
validate_enabled_settings s = check_enabled (validate s)

unfoldable pub observation_has_valid_geometry : WindowObservation → Bool
observation_has_valid_geometry o =
    is_finite o.scale && (is_positive o.scale && (ltb 0 o.rect.width && ltb 0 o.rect.height))

abbrev pub classification_from_identity : ProcessIdentity → ProcessClassification
classification_from_identity i = record {
  steam_app_id = i.steam_app_id;
  is_game_candidate = i.game_candidate;
}

unfoldable pub snapshot_has_selected_process : GameAllowlist → ProcessTable → Bool
snapshot_has_selected_process al table =
    any_selected_process al (keys table) (λ pid. classify_process_identity pid table)

abbrev pub accepted_if : Bool → ProcessIdentity → Option ProcessIdentity
accepted_if b i = if b then some i else none

abbrev pub matching_identity_of :
    Option ℕ → Option ℕ → ProcessTable → GameAllowlist → Option ProcessIdentity
matching_identity_of none game_steam_id table al = none
matching_identity_of (some pid) game_steam_id table al =
    let i = classify_process_identity pid table in
    accepted_if (allows_identity al i && opt_eq (λ m n. m == n) game_steam_id i.steam_app_id) i

unfoldable pub matching_process_identity :
    GameWindow → ProcessTable → GameAllowlist → Option ProcessIdentity
matching_process_identity game table al = matching_identity_of game.pid game.steam_app_id table al

abbrev pub process_entry : ℕ → Option ProcessInfo → Option (ProcessInstance × Option ProcessTiming)
process_entry pid none = none
process_entry pid (some p) = some (record { pid = pid; start_ticks = p.start_ticks }, p.timing)

abbrev pub game_process_of :
    Option ℕ → ProcessTable → Option (ProcessInstance × Option ProcessTiming)
game_process_of none table = none
game_process_of (some pid) table = process_entry pid (get pid table)

unfoldable pub active_game_process :
    GameWindow → ProcessTable → Option (ProcessInstance × Option ProcessTiming)
active_game_process game table = game_process_of game.pid table

abbrev pub same_identity : Option ProcessIdentity → Option ProcessIdentity → Bool
same_identity none accepted = false
same_identity (some i) accepted = opt_eq identity_eq (some i) accepted

abbrev pub same_process :
    Option (ProcessInstance × Option ProcessTiming) → Option ProcessInstance → Bool
same_process none accepted = false
same_process (some (p, t)) accepted = opt_eq instance_eq (some p) accepted

unfoldable pub active_game_is_current :
    GameWindow
    → Option ProcessIdentity
    → Option ProcessInstance
    → ProcessTable
    → GameAllowlist
    → Bool
active_game_is_current game accepted_identity accepted_process table al =
    same_identity (matching_process_identity game table al) accepted_identity
    && same_process (active_game_process game table) accepted_process
