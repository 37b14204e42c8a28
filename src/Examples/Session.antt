-- ===== src/Examples/Session.antt =====
-- A session on Hyprland whose service manager refuses to start the second unit.
use mathlib.Core.List.{Memᴰ}
use player_vox_over_crow.Common.{
  ℕ, suc, ◌+◌, ◌*◌, ◌≤◌, ◌≡◌, refl, Bool, true, false, Option, none, some, List, [], ◌∷◌, length,
  if◌then◌else◌,
}
use player_vox_over_crow.Common.Text.{chars, text_eq}
use player_vox_over_crow.Protocol.{default_state}
use player_vox_over_crow.Config.Widgets.{default_profile}
use player_vox_over_crow.Core.Runtime.Start.{with_settings_and_widget_profile}
use player_vox_over_crow.Core.Session.Desktop.{hyprland}
use player_vox_over_crow.Core.Session.Plans.{
  hyprland_unit, overlay_unit, start_command, stop_command, start_command_plan, stop_command_plan,
  forced_cleanup_timeout_seconds,
}
use player_vox_over_crow.Core.Session.Plans.Cover.{stop_command_plan-covers}
use player_vox_over_crow.Core.Session.Coordinator.{
  CommandRunner, SessionCoordinator, new_coordinator, stop_all_locked, reconcile,
}
use player_vox_over_crow.Core.Session.Coordinator.Stops.{
  Stops, AllSucceed, issue, stop_all_locked-Stops,
}
use player_vox_over_crow.Core.Session.Coordinator.Outcomes.{
  Settles, applied_for, reconcile-Settles, reconcile-issue,
}
use player_vox_over_crow.Common.{◌⊎◌}
use player_vox_over_crow.Common.Result.{ok}
use player_vox_over_crow.Core.Runtime.Operations.Outcomes.{Forgotten}
use player_vox_over_crow.Core.Session.Coordinator.{
  stopped, running, needs_cleanup, done, force_stop_all, request_shutdown, run_all,
}
use player_vox_over_crow.Core.Session.Shutdown.{
  TaskEnd, CleanupEnd, task_ended, task_panicked, cleanup_ended, shutdown_session_coordinator,
}
use player_vox_over_crow.Core.Session.Shutdown.Clean.{
  TaskIsClean, shutdown_session_coordinator-TaskIsClean, shutdown_session_coordinator-issue,
}
use player_vox_over_crow.Core.Session.Loop.{
  Round, unchanged, desired_signal, shutdown_signal, run_session_coordinator,
}
use player_vox_over_crow.Core.Session.Loop.Ends.{Ended, run_session_coordinator-Ended}
use player_vox_over_crow.Examples.Data.{selecting, table}

-- The number of commands so far is its state; its error is a number.
abbrev answer : Bool → Option ℕ
answer true = some 5
answer false = none

abbrev failing_runner : CommandRunner ℕ ℕ
failing_runner = record {
  run_command = λ command w. (
    if text_eq command.verb (chars "start")
        then answer (text_eq command.target hyprland_unit)
        else none,
    suc w,
  );
  cancel = λ w. w;
  reset_cancellation = λ w. w;
}

abbrev coordinator : SessionCoordinator ℕ
coordinator =
    new_coordinator
      (with_settings_and_widget_profile default_state table selecting default_profile 20) hyprland 0

-- A failed start, then the shutdown while it waits to retry.
abbrev rounds : List Round
rounds =
    record {
      shutdown_seen = false;
      poll = unchanged;
      signal = desired_signal (some true);
      retry_first = true;
    }
    ∷ record {
      shutdown_seen = true;
      poll = unchanged;
      signal = shutdown_signal none;
      retry_first = false;
    }
    ∷ []

stop_all_locked-Stops_example :
    Stops failing_runner coordinator (stop_all_locked failing_runner coordinator)
stop_all_locked-Stops_example = stop_all_locked-Stops failing_runner coordinator

reconcile-Settles_example :
    Settles (applied_for coordinator.desktop true) (reconcile failing_runner coordinator true)
reconcile-Settles_example = reconcile-Settles failing_runner coordinator true

run_session_coordinator-Ended_example :
    Ended (run_session_coordinator failing_runner coordinator true rounds)
run_session_coordinator-Ended_example =
    run_session_coordinator-Ended failing_runner coordinator true rounds refl

stop_command_plan-covers_example :
    Memᴰ (stop_command overlay_unit) (stop_command_plan hyprland)
    × (length (stop_command_plan hyprland) * (3 + 1) + 2 ≤ forced_cleanup_timeout_seconds)
stop_command_plan-covers_example =
    stop_command_plan-covers hyprland (start_command overlay_unit)
      (unfold start_command_plan in Memᴰ.head refl)

abbrev working_runner : CommandRunner ℕ ℕ
working_runner = record {
  run_command = λ command w. (none, suc w);
  cancel = λ w. w;
  reset_cancellation = λ w. w;
}

abbrev idle : SessionCoordinator ℕ
idle = record coordinator { applied = stopped; desktop = hyprland; world = 0 }

all_start : AllSucceed working_runner (start_command_plan hyprland) 0
unfolding AllSucceed start_command_plan
all_start = (refl, (refl, tt))

reconcile-issue_example : reconcile working_runner idle true ≡ (
  record idle { world = issue working_runner (start_command_plan hyprland) 0; applied = running },
  ok done,
)
reconcile-issue_example = reconcile-issue working_runner idle refl refl all_start

abbrev clean_task : Option (TaskEnd ℕ ℕ)
clean_task = some (task_ended (ok done))

abbrev whole_cleanup : CleanupEnd ℕ
whole_cleanup = cleanup_ended

ends_clean :
    (shutdown_session_coordinator failing_runner idle (λ c. c) clean_task whole_cleanup).1 ≡ ok done
unfolding shutdown_session_coordinator force_stop_all request_shutdown stop_all_locked run_all
    stop_command_plan
ends_clean = refl

shutdown_session_coordinator-TaskIsClean_example :
    let q =
      (shutdown_session_coordinator failing_runner idle (λ c. c) clean_task whole_cleanup).0 in
    TaskIsClean clean_task
    × (whole_cleanup ≡ cleanup_ended)
    × (q.applied ≡ stopped)
    × (q.world ≡ issue failing_runner (stop_command_plan hyprland) 0)
    × AllSucceed failing_runner (stop_command_plan hyprland) 0
unfolding request_shutdown
shutdown_session_coordinator-TaskIsClean_example =
    shutdown_session_coordinator-TaskIsClean failing_runner idle (λ c. c) clean_task whole_cleanup
      ends_clean

shutdown_session_coordinator-issue_example :
    let q =
      (shutdown_session_coordinator failing_runner idle
        (λ c. c)
        (some task_panicked)
        cleanup_ended).0 in
    Forgotten q.runtime
    × (q.world ≡ issue failing_runner (stop_command_plan hyprland) 0)
    × ((q.applied ≡ stopped) ⊎ (q.applied ≡ needs_cleanup))
unfolding request_shutdown
shutdown_session_coordinator-issue_example =
    shutdown_session_coordinator-issue failing_runner idle (λ c. c) (some task_panicked)
