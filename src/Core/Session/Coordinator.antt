-- ===== src/Core/Session/Coordinator.antt =====
-- crates/overcrow-core/src/session.rs: `SessionCoordinator`. The runner of the commands is a
-- parameter with a state of its own (the systemd user manager). The transition lock makes each of
-- these operations one step among themselves. It does not keep the D-Bus service from reporting to the
-- runtime while the commands of a stop run: the runtime here is the one that the operation itself
-- leaves.
pub mod Stops
pub mod Outcomes
use player_vox_over_crow.Common.{Bool, true, false, Option, none, some, List, [], ◌∷◌}
use player_vox_over_crow.Common.Result.{Result, ok, err}
use player_vox_over_crow.Core.Runtime.State.{CoreRuntime}
use player_vox_over_crow.Core.Runtime.Operations.{clear_game_locked}
use player_vox_over_crow.Core.Session.Desktop.{
  DesktopSession, x11, hyprland, plasma_wayland, gnome_wayland, unsupported,
}
use player_vox_over_crow.Core.Session.Plans.{SessionCommand, start_command_plan, stop_command_plan}

pub data AppliedState : Type 0 where
  stopped running needs_cleanup : AppliedState

-- `run` gives an error or none, and the state after it.
pub record CommandRunner (W E : Type 0) : Type 0 where
  pub run_command : SessionCommand → W → Option E × W
  pub cancel : W → W
  pub reset_cancellation : W → W

pub record SessionCoordinator (W : Type 0) : Type 0 where
  pub runtime : CoreRuntime
  pub desktop : DesktopSession
  pub world : W  -- the runner's state
  pub applied : AppliedState
  pub shutdown : Bool  -- the value of the shutdown channel

-- The failures that an error's text lists, and for a failed start its cause and the cleanup's.
pub data SessionError (E : Type 0) : Type 0 where
  cleanup_failed : List (SessionCommand × E) → SessionError E
  start_failed : E → SessionError E
  start_and_cleanup_failed : E → SessionError E → SessionError E

pub data Done : Type 0 where
  done : Done

abbrev pub set_applied : {W : Type 0} → SessionCoordinator W → AppliedState → SessionCoordinator W
set_applied c state = record c { applied = state }

abbrev pub failure_of {ℓ} :
    {E : Type ℓ} → SessionCommand → Option E → List (SessionCommand × E) → List (SessionCommand × E)
failure_of command none rest = rest
failure_of command (some e) rest = (command, e) ∷ rest

abbrev pub start_error : {E : Type 0} → E → Result (SessionError E) Done → SessionError E
start_error e (ok _) = start_failed e
start_error e (err cleanup) = start_and_cleanup_failed e cleanup

abbrev pub is_unsupported : DesktopSession → Bool
is_unsupported unsupported = true
is_unsupported _ = false

unfoldable pub request_shutdown : {W : Type 0} → SessionCoordinator W → SessionCoordinator W
request_shutdown c = record c { shutdown = true }

module _ {W E : Type 0} where
  -- Every command, with the failures in order.
  unfoldable pub run_all :
      CommandRunner W E → List SessionCommand → W → List (SessionCommand × E) × W
  run_all runner [] w = ([], w)
  run_all runner (command ∷ plan) w =
      let (failure, w1) = runner.run_command command w in
      let (failures, w2) = run_all runner plan w1 in (failure_of command failure failures, w2)

  -- The commands up to the first that fails.
  unfoldable pub run_until_error : CommandRunner W E → List SessionCommand → W → Option E × W
  run_until_error runner [] w = (none, w)
  run_until_error runner (command ∷ plan) w =
      let (failure, w1) = runner.run_command command w in
      let rest = run_until_error runner plan w1 in
      elim failure [ none ↦ rest | some e ↦ (some e, w1) ]

  abbrev pub stopped_with :
      SessionCoordinator W
      → List (SessionCommand × E)
      → SessionCoordinator W × Result (SessionError E) Done
  stopped_with c [] = (set_applied c stopped, ok done)
  stopped_with c (f ∷ fs) = (set_applied c needs_cleanup, err (cleanup_failed (f ∷ fs)))

  unfoldable pub stop_all_locked :
      CommandRunner W E → SessionCoordinator W → SessionCoordinator W × Result (SessionError E) Done
  unfolding run_all
  stop_all_locked runner c =
      let (failures, w) = run_all runner (stop_command_plan c.desktop) c.world in
      stopped_with (record c { runtime = (clear_game_locked c.runtime).0; world = w }) failures

  abbrev pub started :
      CommandRunner W E
      → SessionCoordinator W
      → Option E
      → SessionCoordinator W × Result (SessionError E) Done
  started runner c none = (set_applied c running, ok done)
  started runner c (some e) =
      let (c1, cleanup) = stop_all_locked runner (set_applied c needs_cleanup) in
      (c1, err (start_error e cleanup))

  unfoldable pub start :
      CommandRunner W E → SessionCoordinator W → SessionCoordinator W × Result (SessionError E) Done
  unfolding run_until_error
  start runner c =
      let (failure, w) = run_until_error runner (start_command_plan c.desktop) c.world in
      started runner (record c { world = w }) failure

  unfoldable pub force_stop_all :
      CommandRunner W E → SessionCoordinator W → SessionCoordinator W × Result (SessionError E) Done
  force_stop_all runner c = stop_all_locked runner c

  -- The cleanup that a reconciliation begins with.
  abbrev pub clean_up :
      CommandRunner W E
      → SessionCoordinator W
      → AppliedState
      → SessionCoordinator W × Result (SessionError E) Done
  clean_up runner c needs_cleanup = stop_all_locked runner c
  clean_up runner c stopped = (c, ok done)
  clean_up runner c running = (c, ok done)

  -- The match on the applied state and the desired one; the third row is not reached.
  abbrev pub transition :
      CommandRunner W E
      → SessionCoordinator W
      → AppliedState
      → Bool
      → SessionCoordinator W × Result (SessionError E) Done
  transition runner c stopped true = start runner c
  transition runner c running false = stop_all_locked runner c
  transition runner c needs_cleanup desired = (c, ok done)
  transition runner c stopped false = (c, ok done)
  transition runner c running true = (c, ok done)

  abbrev pub after_cleanup :
      CommandRunner W E
      → Bool
      → SessionCoordinator W × Result (SessionError E) Done
      → SessionCoordinator W × Result (SessionError E) Done
  after_cleanup runner desired (c, err e) = (c, err e)
  after_cleanup runner desired (c, ok _) = transition runner c c.applied desired

  -- Without a supported desktop: cleanup, or only forget the game.
  abbrev pub clean_up_unsupported :
      CommandRunner W E
      → SessionCoordinator W
      → AppliedState
      → SessionCoordinator W × Result (SessionError E) Done
  clean_up_unsupported runner c needs_cleanup = stop_all_locked runner c
  clean_up_unsupported runner c stopped =
      (record c { runtime = (clear_game_locked c.runtime).0 }, ok done)
  clean_up_unsupported runner c running =
      (record c { runtime = (clear_game_locked c.runtime).0 }, ok done)

  abbrev pub settle_unsupported :
      SessionCoordinator W × Result (SessionError E) Done
      → SessionCoordinator W × Result (SessionError E) Done
  settle_unsupported (c, err e) = (c, err e)
  settle_unsupported (c, ok _) = (set_applied c stopped, ok done)

  unfoldable pub reconcile :
      CommandRunner W E
      → SessionCoordinator W
      → Bool
      → SessionCoordinator W × Result (SessionError E) Done
  unfolding stop_all_locked start
  reconcile runner c desired_running = elim (is_unsupported c.desktop) [
    | true ↦ settle_unsupported (clean_up_unsupported runner c c.applied)
    | false ↦ after_cleanup runner desired_running (clean_up runner c c.applied)
  ]

-- The state that a new coordinator starts from.
unfoldable pub new_coordinator :
    {W : Type 0} → CoreRuntime → DesktopSession → W → SessionCoordinator W
new_coordinator runtime desktop w = record {
  runtime = runtime;
  desktop = desktop;
  world = w;
  applied = needs_cleanup;
  shutdown = false;
}
