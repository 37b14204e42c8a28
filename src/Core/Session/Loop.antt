-- ===== src/Core/Session/Loop.antt =====
-- crates/overcrow-core/src/session.rs: `run_session_coordinator_with_retry`, the loop that follows
-- the desired state. What the channels and the timer do is an explicit sequence of rounds.
pub mod Ends
use player_vox_over_crow.Common.{Bool, true, false, not, ◌&&◌, Option, none, some, List, [], ◌∷◌}
use player_vox_over_crow.Common.Result.{Result, ok, err, is_ok}
use player_vox_over_crow.Core.Session.Coordinator.{
  CommandRunner, SessionCoordinator, SessionError, Done, reconcile,
}

-- `has_changed` on the channel of the desired state.
pub data Poll : Type 0 where
  closed unchanged : Poll
  changed_to : Bool → Poll

-- What wakes the `select`: the shutdown channel with its value (`none` when it is closed), or the
-- desired state (`none` when its channel is closed).
pub data Signal : Type 0 where
  shutdown_signal desired_signal : Option Bool → Signal

-- What one turn of the loop sees. `retry_first`: the retry delay ends before the signal comes; it is
-- waited for only after a transition that failed.
pub record Round : Type 0 where
  pub shutdown_seen : Bool
  pub poll : Poll
  pub signal : Signal
  pub retry_first : Bool

-- The desired state of the next turn, or none when the loop ends.
abbrev pub on_signal : Bool → Signal → Option Bool
on_signal desired (shutdown_signal (some false)) = some desired
on_signal desired (shutdown_signal (some true)) = none
on_signal desired (shutdown_signal none) = none
on_signal desired (desired_signal next) = next

abbrev pub on_poll : Bool → Bool → Round → Poll → Option Bool
on_poll failed desired round closed = none
on_poll failed desired round (changed_to next) = some next
on_poll failed desired round unchanged = elim (failed && round.retry_first) [
  | true ↦ some desired
  | false ↦ on_signal desired round.signal
]

abbrev pub next_desired : Bool → Bool → Round → Option Bool
next_desired failed desired round = elim round.shutdown_seen [
  | true ↦ none
  | false ↦ on_poll failed desired round round.poll
]

pub data LoopResult (W E : Type 0) : Type 0 where
  waiting : SessionCoordinator W → Bool → LoopResult W E
  returned : SessionCoordinator W → Result (SessionError E) Done → LoopResult W E

module _ {W E : Type 0} where
  abbrev pub returned_with : SessionCoordinator W × Result (SessionError E) Done → LoopResult W E
  returned_with (c, result) = returned c result

  -- Every way out of the loop is `coordinator.reconcile(false)`.
  unfoldable pub run_session_coordinator :
      CommandRunner W E → SessionCoordinator W → Bool → List Round → LoopResult W E
  run_session_coordinator runner c desired [] = waiting c desired
  run_session_coordinator runner c desired (round ∷ rounds) =
      let (c1, result) = reconcile runner c desired in
      elim (next_desired (not (is_ok result)) desired round) [
        | none ↦ returned_with (reconcile runner c1 false)
        | some next ↦ run_session_coordinator runner c1 next rounds
      ]
