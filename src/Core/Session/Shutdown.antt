-- ===== src/Core/Session/Shutdown.antt =====
-- crates/overcrow-core/src/session.rs: `shutdown_session_coordinator_with_timeouts`. How the
-- coordinator's task and the task of the forced cleanup end is an argument, with the coordinator as
-- that end leaves it where the end is not the cleanup's own.
pub mod Clean
use player_vox_over_crow.Common.{Option, none, some}
use player_vox_over_crow.Common.Result.{Result, ok, err}
use player_vox_over_crow.Core.Session.Coordinator.{
  CommandRunner, SessionCoordinator, SessionError, Done, done, force_stop_all, request_shutdown,
}

-- The task ends with its result, it panics, or it is still running after the timeout and is aborted
-- if it does not end in the grace that a cancellation gives it, in which it does the given.
pub data TaskEnd (W E : Type 0) : Type 0 where
  task_ended : Result (SessionError E) Done → TaskEnd W E
  task_panicked : TaskEnd W E
  task_timed_out : (SessionCoordinator W → SessionCoordinator W) → TaskEnd W E

-- The cleanup runs to its end, or it stops halfway in some state, or it is in some state at the
-- timeout and does the given in its grace.
pub data CleanupEnd (W : Type 0) : Type 0 where
  cleanup_ended : CleanupEnd W
  cleanup_panicked : SessionCoordinator W → CleanupEnd W
  cleanup_timed_out :
      SessionCoordinator W → (SessionCoordinator W → SessionCoordinator W) → CleanupEnd W

pub data ShutdownError (E : Type 0) : Type 0 where
  coordinator_failed forced_cleanup_failed : SessionError E → ShutdownError E
  task_failed shutdown_timed_out cleanup_task_failed forced_cleanup_timed_out : ShutdownError E
  both_failed : ShutdownError E → ShutdownError E → ShutdownError E

abbrev pub shutdown_error : {W E : Type 0} → Option (TaskEnd W E) → Option (ShutdownError E)
shutdown_error none = none
shutdown_error (some (task_ended (ok _))) = none
shutdown_error (some (task_ended (err e))) = some (coordinator_failed e)
shutdown_error (some task_panicked) = some task_failed
shutdown_error (some (task_timed_out grace)) = some shutdown_timed_out

module _ {E : Type 0} where
  abbrev pub combine_errors :
      Option (ShutdownError E) → Option (ShutdownError E) → Result (ShutdownError E) Done
  combine_errors none none = ok done
  combine_errors (some shutdown) none = err shutdown
  combine_errors none (some cleanup) = err cleanup
  combine_errors (some shutdown) (some cleanup) = err (both_failed shutdown cleanup)

  abbrev pub cleanup_error : Result (SessionError E) Done → Option (ShutdownError E)
  cleanup_error (ok _) = none
  cleanup_error (err e) = some (forced_cleanup_failed e)

module _ {W E : Type 0} where
  abbrev pub cancel_commands : CommandRunner W E → SessionCoordinator W → SessionCoordinator W
  cancel_commands runner c = record c { world = runner.cancel c.world }

  abbrev pub reset_command_cancellation :
      CommandRunner W E → SessionCoordinator W → SessionCoordinator W
  reset_command_cancellation runner c = record c { world = runner.reset_cancellation c.world }

  -- Only a task that timed out has its commands cancelled.
  abbrev pub after_task :
      CommandRunner W E → SessionCoordinator W → Option (TaskEnd W E) → SessionCoordinator W
  after_task runner c none = c
  after_task runner c (some (task_ended _)) = c
  after_task runner c (some task_panicked) = c
  after_task runner c (some (task_timed_out grace)) = grace (cancel_commands runner c)

  abbrev pub forced_cleanup :
      CommandRunner W E
      → SessionCoordinator W
      → CleanupEnd W
      → SessionCoordinator W × Option (ShutdownError E)
  forced_cleanup runner c cleanup_ended =
      let (q, result) = force_stop_all runner c in (q, cleanup_error result)
  forced_cleanup runner c (cleanup_panicked q) = (q, some cleanup_task_failed)
  forced_cleanup runner c (cleanup_timed_out q grace) =
      (grace (cancel_commands runner q), some forced_cleanup_timed_out)

  -- `finish` is what the task does to the coordinator until it ends, after the shutdown was requested.
  unfoldable pub shutdown_session_coordinator :
      CommandRunner W E
      → SessionCoordinator W
      → (SessionCoordinator W → SessionCoordinator W)
      → Option (TaskEnd W E)
      → CleanupEnd W
      → SessionCoordinator W × Result (ShutdownError E) Done
  unfolding force_stop_all request_shutdown
  shutdown_session_coordinator runner c finish task cleanup =
      let ended = after_task runner (finish (request_shutdown c)) task in
      let (q, failure) = forced_cleanup runner (reset_command_cancellation runner ended) cleanup in
      (q, combine_errors (shutdown_error task) failure)
