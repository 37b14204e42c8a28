-- ===== src/Core/Session/Loop/Ends.antt =====
-- How the loop ends.
use player_vox_over_crow.Common.{
  ◌≡◌, refl, subst, Bool, true, false, not, Option, none, some, List, [], ◌∷◌, any, arith,
}
use player_vox_over_crow.Common.Result.{Result, is_ok}
use player_vox_over_crow.Core.Session.Desktop.{DesktopSession}
use player_vox_over_crow.Core.Session.Coordinator.{
  stopped, CommandRunner, SessionCoordinator, SessionError, Done, reconcile,
}
use player_vox_over_crow.Core.Session.Coordinator.Outcomes.{Settles, applied_for, reconcile-Settles}
use player_vox_over_crow.Core.Session.Loop.{
  Round, LoopResult, returned, returned_with, next_desired, run_session_coordinator,
}

-- The loop is over, with the units stopped or the failures of a cleanup.
abbrev pub Ended : {W E : Type 0} → LoopResult W E → Type 0
Ended {W} {E} outcome =
    (c : SessionCoordinator W) × (result : Result (SessionError E) Done) × (outcome
      ≡ returned c result)
    × Settles stopped (c, result)

applied_for-stopped : (desktop : DesktopSession) → applied_for desktop false ≡ stopped
applied_for-stopped desktop = ground arith

module _ {W E : Type 0} (runner : CommandRunner W E) where
  stop-Settles : (c : SessionCoordinator W) → Settles stopped (reconcile runner c false)
  stop-Settles c =
      subst (λ state. Settles state (reconcile runner c false)) (applied_for-stopped c.desktop)
        (reconcile-Settles runner c false)

  returned-Ended : (c : SessionCoordinator W) → Ended (returned_with (reconcile runner c false))
  returned-Ended c = let (q, result) = reconcile runner c false in (q, result, refl, stop-Settles c)

  -- Whatever the channels and the timer do before it, once a turn sees the shutdown the loop has
  -- returned, and it leaves the session stopped with success, or stopped or marked for cleanup with
  -- an error; it never leaves it running.
  pub run_session_coordinator-Ended :
      (c : SessionCoordinator W) (desired : Bool) (rounds : List Round)
      → any (λ round. round.shutdown_seen) rounds ≡ true
      → Ended (run_session_coordinator runner c desired rounds)
  unfolding run_session_coordinator
  run_session_coordinator-Ended c desired [] h = cc
  run_session_coordinator-Ended c desired (round ∷ rounds) h =
      by_next _ refl (λ d later. run_session_coordinator-Ended after d rounds later)
    where
      after : SessionCoordinator W
      after = (reconcile runner c desired).0

      failed : Bool
      failed = not (is_ok (reconcile runner c desired).1)

      by_next :
          (next : Option Bool)
          → next_desired failed desired round ≡ next
          → ((d : Bool)
              → any (λ other. other.shutdown_seen) rounds ≡ true
              → Ended (run_session_coordinator runner after d rounds))
          → Ended (elim next [
            | none ↦ returned_with (reconcile runner after false)
            | some d ↦ run_session_coordinator runner after d rounds
          ])
      by_next none e again = returned-Ended after
      by_next (some d) e again = again d (later round.shutdown_seen refl)
        where
          later :
              (b : Bool)
              → round.shutdown_seen ≡ b
              → any (λ other. other.shutdown_seen) rounds ≡ true
          later true f = absurd (ground (arith, f, e))
          later false f = ground (arith, f, h)
