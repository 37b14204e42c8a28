-- ===== src/Examples/Runtime.antt =====
-- The theorems on the runtime, at these runs.
use player_vox_over_crow.Common.{◌≡◌, arith, true, some, is_some}
use player_vox_over_crow.Protocol.{default_state}
use player_vox_over_crow.Config.Widgets.{default_profile}
use player_vox_over_crow.Core.Runtime.Step.{report_window, run}
use player_vox_over_crow.Common.Result.{ok}
use player_vox_over_crow.Config.Settings.{default_settings, validate}
use player_vox_over_crow.Config.Allowlist.{ProcessIdentity}
use player_vox_over_crow.Config.Allowlist.Laws.{Selected}
use player_vox_over_crow.Core.Classifier.{ProcessTiming}
use player_vox_over_crow.Core.Runtime.State.{ProcessInstance, default_metadata}
use player_vox_over_crow.Core.Runtime.Snapshot.Shows.{Shows}
use player_vox_over_crow.Core.Runtime.Snapshot.Sync.{NextPublished}
use player_vox_over_crow.Core.Runtime.Metadata.{reconcile_process_timing}
use player_vox_over_crow.Core.Runtime.Metadata.Timing.{
  NoEarlier, reconcile_process_timing-NoEarlier,
}
use player_vox_over_crow.Core.Runtime.Operations.{
  apply_bridge_observation_at, expire_bridge_lease_at, reload_settings,
}
use player_vox_over_crow.Core.Runtime.Operations.Outcomes.{
  Expires, Reloads, Reports, expire_bridge_lease_at-Expires, reload_settings-Reloads,
  apply_bridge_observation_at-Reports,
}
use player_vox_over_crow.Core.Runtime.Step.{step}
use player_vox_over_crow.Core.Runtime.Step.Invariant.{Inv}
use player_vox_over_crow.Core.Runtime.Step.Begin.{with_settings-Inv}
use player_vox_over_crow.Core.Runtime.Step.Published.{step-NextPublished}
use player_vox_over_crow.Core.Runtime.Step.Guarantees.{
  run-Selected, run-interactive, run-Shows, run-forgets,
}
use player_vox_over_crow.Examples.Data.{selecting, table, window, game}
use player_vox_over_crow.Examples.Runs.{begun, commands, left, default-Fresh, reached_all}

begun-Inv : Inv begun
begun-Inv = with_settings-Inv default_state table selecting default_profile 20 default-Fresh

run-Selected_example :
    let r = run begun commands in
    (r.settings.enabled ≡ true)
    × (validate r.settings ≡ ok r.settings)
    × ((i : ProcessIdentity) × (r.metadata.active_identity ≡ some i)
        × (game.steam_app_id ≡ i.steam_app_id)
        × Selected r.settings i)
run-Selected_example =
    run-Selected default_state table selecting default_profile 20 commands game default-Fresh
      reached_all.0

run-interactive_example : is_some (run begun commands).published.snapshot.active_game ≡ true
run-interactive_example =
    run-interactive default_state table selecting default_profile 20 commands default-Fresh
      reached_all.1

run-Shows_example : Shows (run begun commands).published.snapshot (run begun commands)
run-Shows_example =
    run-Shows default_state table selecting default_profile 20 commands default-Fresh

run-forgets_example : (run begun left).metadata ≡ default_metadata
run-forgets_example =
    run-forgets default_state table selecting default_profile 20 left default-Fresh reached_all.2

step-NextPublished_example :
    NextPublished begun.published (step begun (report_window window 30)).published
step-NextPublished_example = step-NextPublished begun (report_window window 30)

apply_bridge_observation_at-Reports_example :
    Reports begun window 30 (apply_bridge_observation_at begun window 30).0
apply_bridge_observation_at-Reports_example = apply_bridge_observation_at-Reports begun window 30

expire_bridge_lease_at-Expires_example :
    Expires (run begun commands) 6000000000 (expire_bridge_lease_at (run begun commands) 6000000000)
expire_bridge_lease_at-Expires_example =
    expire_bridge_lease_at-Expires (run begun commands) 6000000000

reload_settings-Reloads_example :
    Reloads begun default_settings (reload_settings begun default_settings 40 41)
reload_settings-Reloads_example = reload_settings-Reloads begun default_settings 40 41

abbrev instance_5 : ProcessInstance
instance_5 = record { pid = 5; start_ticks = 100 }

abbrev floor_20 : ProcessTiming
floor_20 = record { elapsed_at_observation = 7; observed_at = 20 }

abbrev earlier_30 : ProcessTiming
earlier_30 = record { elapsed_at_observation = 3; observed_at = 30 }

reconcile_process_timing-NoEarlier_example :
    NoEarlier floor_20 40
      (reconcile_process_timing (some instance_5) (some floor_20) instance_5 (some earlier_30) 40)
reconcile_process_timing-NoEarlier_example =
    reconcile_process_timing-NoEarlier instance_5 floor_20 (some earlier_30) 40 (omega arith)
      (omega arith)
