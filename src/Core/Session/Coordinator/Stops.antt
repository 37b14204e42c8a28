-- ===== src/Core/Session/Coordinator/Stops.antt =====
-- What a stop does: every command, and what of it failed.
use player_vox_over_crow.Common.{◌≡◌, refl, ◌⊎◌, inl, inr, Option, none, some, List, [], ◌∷◌}
use player_vox_over_crow.Common.Result.{Result, ok, err}
use player_vox_over_crow.Core.Runtime.Operations.{clear_game_locked}
use player_vox_over_crow.Core.Runtime.Operations.Outcomes.{Forgotten, clear_game_locked-Forgotten}
use player_vox_over_crow.Core.Session.Plans.{SessionCommand, stop_command_plan}
use player_vox_over_crow.Core.Session.Coordinator.{
  stopped, needs_cleanup, CommandRunner, SessionCoordinator, SessionError, cleanup_failed, Done,
  done, run_all, failure_of, stop_all_locked, stopped_with,
}

-- The runner's state after a list of commands, whatever they answered.
unfoldable pub issue : {W E : Type 0} → CommandRunner W E → List SessionCommand → W → W
issue runner [] w = w
issue runner (command ∷ plan) w = issue runner plan (runner.run_command command w).1

module _ {W E : Type 0} (runner : CommandRunner W E) where
  run_all-issue :
      (plan : List SessionCommand) (w : W) → (run_all runner plan w).1 ≡ issue runner plan w
  unfolding run_all issue
  run_all-issue [] w = refl
  run_all-issue (command ∷ plan) w = run_all-issue plan (runner.run_command command w).1

  -- No command of the list fails.
  unfoldable pub AllSucceed : List SessionCommand → W → Type 0
  AllSucceed [] w = Unit {0}
  AllSucceed (command ∷ plan) w =
      ((runner.run_command command w).0 ≡ none) × AllSucceed plan (runner.run_command command w).1

  -- The first command that fails, with its error.
  unfoldable pub FirstFailure : List SessionCommand → W → SessionCommand × E → Type 0
  FirstFailure [] w f = ⊥
  FirstFailure (command ∷ plan) w f =
      ((runner.run_command command w).0 ≡ some f.1) × (f.0 ≡ command)
      ⊎ ((runner.run_command command w).0 ≡ none)
        × FirstFailure plan (runner.run_command command w).1 f

  abbrev pub Failures : List SessionCommand → W → List (SessionCommand × E) → Type 0
  Failures plan w [] = AllSucceed plan w
  Failures plan w (f ∷ fs) = FirstFailure plan w f

  run_all-Failures :
      (plan : List SessionCommand) (w : W) → Failures plan w (run_all runner plan w).0
  unfolding run_all AllSucceed FirstFailure
  run_all-Failures [] w = tt
  run_all-Failures (command ∷ plan) w =
      by_answer (runner.run_command command w).0 refl
        (run_all-Failures plan (runner.run_command command w).1)
    where
      w1 : W
      w1 = (runner.run_command command w).1

      by_answer :
          (answer : Option E)
          → (runner.run_command command w).0 ≡ answer
          → Failures plan w1 (run_all runner plan w1).0
          → Failures (command ∷ plan) w (failure_of command answer (run_all runner plan w1).0)
      by_answer (some e) h rest = inl (h, refl)
      by_answer none h rest = by_rest (run_all runner plan w1).0 rest
        where
          by_rest :
              (fs : List (SessionCommand × E))
              → Failures plan w1 fs
              → Failures (command ∷ plan) w fs
          by_rest [] ok_rest = (h, ok_rest)
          by_rest (f ∷ fs) failed = inr (h, failed)

  -- Cleaned up, or with failures and marked so.
  abbrev pub Stops :
      SessionCoordinator W → SessionCoordinator W × Result (SessionError E) Done → Type 0
  Stops c (q, result) =
      Forgotten q.runtime
      × (q.world ≡ issue runner (stop_command_plan c.desktop) c.world)
      × (((result ≡ ok done)
            × (q.applied ≡ stopped)
            × AllSucceed (stop_command_plan c.desktop) c.world)
          ⊎ ((f : SessionCommand × E) × (fs : List (SessionCommand × E)) × (result
                ≡ err (cleanup_failed (f ∷ fs)))
              × (q.applied ≡ needs_cleanup)
              × FirstFailure (stop_command_plan c.desktop) c.world f))

  stopped_with-Stops :
      (c q : SessionCoordinator W) (failures : List (SessionCommand × E))
      → Forgotten q.runtime
      → q.world ≡ issue runner (stop_command_plan c.desktop) c.world
      → Failures (stop_command_plan c.desktop) c.world failures
      → Stops c (stopped_with q failures)
  stopped_with-Stops c q [] forgotten e h = (forgotten, e, inl (refl, refl, h))
  stopped_with-Stops c q (f ∷ fs) forgotten e h = (forgotten, e, inr (f, fs, refl, refl, h))

  -- A stop forgets the game and issues every command of the desktop's plan in order, also after one
  -- that fails. Either all succeed, and the stop succeeds and is applied as stopped, or the first that
  -- fails heads the failures that the stop reports, and it is applied as needing cleanup.
  pub stop_all_locked-Stops : (c : SessionCoordinator W) → Stops c (stop_all_locked runner c)
  unfolding stop_all_locked
  stop_all_locked-Stops c =
      let (failures, w) = run_all runner (stop_command_plan c.desktop) c.world in
      stopped_with-Stops c (record c { runtime = (clear_game_locked c.runtime).0; world = w })
        failures (clear_game_locked-Forgotten c.runtime)
        (run_all-issue (stop_command_plan c.desktop) c.world)
        (run_all-Failures (stop_command_plan c.desktop) c.world)
