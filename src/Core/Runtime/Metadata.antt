-- ===== src/Core/Runtime/Metadata.antt =====
-- crates/overcrow-core/src/runtime.rs: how the runtime's memory of the active process changes.
pub mod Timing
use player_vox_over_crow.Common.{
  ℕ, Bool, not, ◌&&◌, ◌||◌, Option, none, some, opt_eq, ltb, ◌==◌, if◌then◌else◌,
}
use player_vox_over_crow.Protocol.{GameWindow, GameTelemetry, no_telemetry}
use player_vox_over_crow.Config.Allowlist.{ProcessIdentity}
use player_vox_over_crow.Core.Classifier.{ProcessTiming, ProcessTable, elapsed_at}
use player_vox_over_crow.Core.Stopwatch.{reset}
use player_vox_over_crow.Core.Telemetry.{
  ProcessSample, TelemetrySampler, collect_process_sample, observe, reset_sampler,
}
use player_vox_over_crow.Core.Runtime.State.{
  RuntimeMetadata, ProcessInstance, AllowedProcess, TemperatureSnapshot, instance_eq,
  active_game_process,
}

-- The resets that every path without a game makes.
unfoldable pub forget_game : RuntimeMetadata → RuntimeMetadata
unfolding reset reset_sampler
forget_game m = record {
  bridge_last_report = none;
  active_identity = none;
  active_process = none;
  active_timing = none;
  timing_floor = none;
  telemetry = none;
  telemetry_sampler = reset_sampler m.telemetry_sampler;
  manual_stopwatch = reset m.manual_stopwatch;
}

unfoldable pub drop_telemetry : RuntimeMetadata → RuntimeMetadata
unfolding reset_sampler
drop_telemetry m = record m {
  telemetry = none;
  telemetry_sampler = reset_sampler m.telemetry_sampler;
}

abbrev pub steam_id_of : Option ProcessIdentity → Option ℕ
steam_id_of none = none
steam_id_of (some i) = i.steam_app_id

unfoldable pub reset_telemetry_for_changed_group :
    RuntimeMetadata → AllowedProcess → RuntimeMetadata
unfolding drop_telemetry
reset_telemetry_for_changed_group m a =
    if not (opt_eq instance_eq m.active_process (some a.process))
      || not (opt_eq (λ x y. x == y) (steam_id_of m.active_identity) a.identity.steam_app_id)
    then drop_telemetry m
    else m

unfoldable pub reset_stopwatch_for_changed_process :
    RuntimeMetadata → ProcessInstance → RuntimeMetadata
unfolding reset
reset_stopwatch_for_changed_process m current =
    if not (opt_eq instance_eq m.active_process (some current))
    then record m { manual_stopwatch = reset m.manual_stopwatch }
    else m

-- The timing against the floor, which never lets the shown time run backwards.
abbrev pub raise_to_floor : Option ProcessTiming → ProcessTiming → ℕ → ProcessTiming
raise_to_floor none current observed_at = current
raise_to_floor (some previous) current observed_at =
    if ltb (elapsed_at current observed_at) (elapsed_at previous observed_at)
    then record {
      elapsed_at_observation = elapsed_at previous observed_at;
      observed_at = observed_at;
    }
    else current

abbrev pub reconcile_same :
    Option ProcessTiming → Option ProcessTiming → ℕ → Option ProcessTiming × Option ProcessTiming
reconcile_same floor none observed_at = (none, floor)
reconcile_same floor (some current) observed_at =
    let t = raise_to_floor floor current observed_at in (some t, some t)

unfoldable pub reconcile_process_timing :
    Option ProcessInstance
    → Option ProcessTiming
    → ProcessInstance
    → Option ProcessTiming
    → ℕ
    → Option ProcessTiming × Option ProcessTiming
reconcile_process_timing previous floor current timing observed_at =
    if not (opt_eq instance_eq previous (some current))
    then (timing, timing)
    else reconcile_same floor timing observed_at

-- The steps that an accepted process makes, here and on a refresh.
unfoldable pub track_process :
    RuntimeMetadata → ProcessInstance → Option ProcessTiming → ℕ → RuntimeMetadata
unfolding reset_stopwatch_for_changed_process reconcile_process_timing
track_process m current timing observed_at =
    let n = reset_stopwatch_for_changed_process m current in
    let t = reconcile_process_timing n.active_process n.timing_floor current timing observed_at in
    record n { active_timing = t.0; timing_floor = t.1; active_process = some current }

unfoldable pub lose_process : RuntimeMetadata → RuntimeMetadata
unfolding reset
lose_process m = record m {
  active_process = none;
  active_timing = none;
  timing_floor = none;
  manual_stopwatch = reset m.manual_stopwatch;
}

abbrev pub refresh_found :
    Option (ProcessInstance × Option ProcessTiming) → RuntimeMetadata → ℕ → RuntimeMetadata
refresh_found none m observed_at = lose_process m
refresh_found (some (p, t)) m observed_at = track_process m p t observed_at

abbrev pub process_of :
    Option GameWindow → ProcessTable → Option (ProcessInstance × Option ProcessTiming)
process_of none table = none
process_of (some game) table = active_game_process game table

unfoldable pub refresh_active_process :
    RuntimeMetadata → Option GameWindow → ProcessTable → ℕ → RuntimeMetadata
unfolding lose_process track_process
refresh_active_process m game table observed_at =
    refresh_found (process_of game table) m observed_at

abbrev pub sample_telemetry :
    TelemetrySampler → Option ProcessSample → ℕ → TelemetrySampler × GameTelemetry
sample_telemetry sampler none ticks_per_second = (reset_sampler sampler, no_telemetry)
sample_telemetry sampler (some sample) ticks_per_second = observe sampler sample ticks_per_second

abbrev pub with_temperatures : GameTelemetry → TemperatureSnapshot → GameTelemetry
with_temperatures t temperatures = record t {
  cpu_temperature_millicelsius = temperatures.cpu_millicelsius;
  gpu_temperature_millicelsius = temperatures.gpu_millicelsius;
}

abbrev pub sample_for : Option ℕ → Option ℕ → ProcessTable → ℕ → Option ProcessSample
sample_for none steam_app_id table observed_at = none
sample_for (some pid) steam_app_id table observed_at =
    collect_process_sample pid steam_app_id table observed_at

abbrev pub refresh_game :
    RuntimeMetadata
    → Option GameWindow
    → ProcessTable
    → TemperatureSnapshot
    → ℕ
    → ℕ
    → RuntimeMetadata
refresh_game m none table temperatures observed_at ticks_per_second = drop_telemetry m
refresh_game m (some game) table temperatures observed_at ticks_per_second =
    let r =
      sample_telemetry m.telemetry_sampler (sample_for game.pid game.steam_app_id table observed_at)
        ticks_per_second in
    record m { telemetry_sampler = r.0; telemetry = some (with_temperatures r.1 temperatures) }

unfoldable pub refresh_telemetry :
    RuntimeMetadata
    → Option GameWindow
    → ProcessTable
    → TemperatureSnapshot
    → ℕ
    → ℕ
    → RuntimeMetadata
unfolding drop_telemetry reset_sampler observe
refresh_telemetry m game table temperatures observed_at ticks_per_second =
    refresh_game m game table temperatures observed_at ticks_per_second
