-- ===== src/Core/Session/Shutdown/Clean.antt =====
-- What a shutdown that reports success has done, and what any shutdown tries.
use player_vox_over_crow.Common.{◌≡◌, refl, ap, ◌⊎◌, inl, inr, Option, none, some, arith}
use player_vox_over_crow.Common.Result.{ok, err}
use player_vox_over_crow.Core.Runtime.Operations.Outcomes.{Forgotten}
use player_vox_over_crow.Core.Session.Plans.{stop_command_plan}
use player_vox_over_crow.Core.Session.Coordinator.{
  stopped, needs_cleanup, CommandRunner, SessionCoordinator, done, force_stop_all, request_shutdown,
}
use player_vox_over_crow.Core.Session.Coordinator.Stops.{issue, AllSucceed, stop_all_locked-Stops}
use player_vox_over_crow.Core.Session.Shutdown.{
  TaskEnd, task_ended, CleanupEnd, cleanup_ended, cleanup_panicked, cleanup_timed_out,
  ShutdownError, shutdown_error, combine_errors, cleanup_error, after_task, forced_cleanup,
  reset_command_cancellation, shutdown_session_coordinator,
}

both_none :
    {E : Type 0} (a b : Option (ShutdownError E))
    → combine_errors a b ≡ ok done
    → (a ≡ none) × (b ≡ none)
both_none none none h = (refl, refl)
both_none none (some b) h = cc
both_none (some a) none h = cc
both_none (some a) (some b) h = cc

abbrev pub TaskIsClean : {W E : Type 0} → Option (TaskEnd W E) → Type 0
TaskIsClean task = (task ≡ none) ⊎ (task ≡ some (task_ended (ok done)))

clean_task :
    {W E : Type 0} (task : Option (TaskEnd W E)) → shutdown_error task ≡ none → TaskIsClean task
clean_task none h = inl refl
clean_task (some (task_ended (ok done))) h = inr refl
clean_task (some (task_ended (err e))) h = cc
clean_task (some TaskEnd.task_panicked) h = cc
clean_task (some (TaskEnd.task_timed_out grace)) h = cc

module _ {W E : Type 0} (runner : CommandRunner W E) where
  clean_cleanup :
      (c : SessionCoordinator W) (cleanup : CleanupEnd W)
      → (forced_cleanup runner c cleanup).1 ≡ none
      → (cleanup ≡ cleanup_ended)
        × ((forced_cleanup runner c cleanup).0.applied ≡ stopped)
        × ((forced_cleanup runner c cleanup).0.world
            ≡ issue runner (stop_command_plan c.desktop) c.world)
        × AllSucceed runner (stop_command_plan c.desktop) c.world
  unfolding force_stop_all
  clean_cleanup c cleanup_ended h =
      let (_, issued, outcome) = stop_all_locked-Stops runner c in
      elim outcome [
        | inl (_, a, succeed) ↦ (refl, a, issued, succeed)
        | inr (f, fs, e, _, _) ↦ absurd (ground (arith, ap cleanup_error e, h))
      ]
  clean_cleanup c (cleanup_panicked q) h = cc
  clean_cleanup c (cleanup_timed_out q grace) h = cc

  -- When the shutdown reports success, the coordinator's task had ended with success or there was none,
  -- the forced cleanup ran to its end, the session is applied as stopped, and every command of the stop
  -- plan was issued to a runner that is not cancelled any more and succeeded.
  pub shutdown_session_coordinator-TaskIsClean :
      (c : SessionCoordinator W) (finish : SessionCoordinator W → SessionCoordinator W)
      (task : Option (TaskEnd W E)) (cleanup : CleanupEnd W)
      → let (q, result) = shutdown_session_coordinator runner c finish task cleanup in
        let ended = after_task runner (finish (request_shutdown c)) task in
        let world = runner.reset_cancellation ended.world in
        result ≡ ok done
        → TaskIsClean task
          × (cleanup ≡ cleanup_ended)
          × (q.applied ≡ stopped)
          × (q.world ≡ issue runner (stop_command_plan ended.desktop) world)
          × AllSucceed runner (stop_command_plan ended.desktop) world
  unfolding shutdown_session_coordinator
  shutdown_session_coordinator-TaskIsClean c finish task cleanup h =
      let ended = after_task runner (finish (request_shutdown c)) task in
      let reset = reset_command_cancellation runner ended in
      let (a, b) = both_none (shutdown_error task) (forced_cleanup runner reset cleanup).1 h in
      let (complete, is_stopped, issued, succeed) = clean_cleanup reset cleanup b in
      (clean_task task a, complete, is_stopped, issued, succeed)

  -- However the coordinator's task ended, a forced cleanup that runs to its end itself forgets the game
  -- and issues every command of the stop plan in order to a runner that is not cancelled any more; then the
  -- session is stopped, or marked for cleanup where a command failed.
  pub shutdown_session_coordinator-issue :
      (c : SessionCoordinator W) (finish : SessionCoordinator W → SessionCoordinator W)
      (task : Option (TaskEnd W E))
      → let (q, _) = shutdown_session_coordinator runner c finish task cleanup_ended in
        let ended = after_task runner (finish (request_shutdown c)) task in
        Forgotten q.runtime
        × (q.world
            ≡ issue runner
                (stop_command_plan ended.desktop)
                (runner.reset_cancellation ended.world))
        × ((q.applied ≡ stopped) ⊎ (q.applied ≡ needs_cleanup))
  unfolding shutdown_session_coordinator force_stop_all
  shutdown_session_coordinator-issue c finish task =
      let ended = after_task runner (finish (request_shutdown c)) task in
      let (forgotten, issued, outcome) =
        stop_all_locked-Stops runner (reset_command_cancellation runner ended) in
      (forgotten, issued, elim outcome [ inl (_, a, _) ↦ inl a | inr (_, _, _, a, _) ↦ inr a ])
