-- ===== src/Core/Session/Coordinator/Outcomes.antt =====
-- What reconciling leaves behind.
use player_vox_over_crow.Common.{
  ◌≡◌, refl, ap, ◌∙◌, ◌⊎◌, inl, inr, Bool, true, false, not, ◌&&◌, Option, none, some, List, [],
  ◌∷◌, arith, if◌then◌else◌,
}
use player_vox_over_crow.Common.Result.{Result, ok, err}
use player_vox_over_crow.Core.Session.Desktop.{DesktopSession}
use player_vox_over_crow.Core.Session.Plans.{SessionCommand, start_command_plan}
use player_vox_over_crow.Core.Session.Coordinator.{
  AppliedState, stopped, running, needs_cleanup, CommandRunner, SessionCoordinator, SessionError,
  cleanup_failed, Done, done, run_until_error, stop_all_locked, start, started, transition,
  after_cleanup, clean_up, clean_up_unsupported, settle_unsupported, is_unsupported, reconcile,
  set_applied,
}
use player_vox_over_crow.Core.Session.Coordinator.Stops.{issue, AllSucceed, stop_all_locked-Stops}

abbrev pub Reply : Type 0 → Type 0 → Type 0
Reply W E = SessionCoordinator W × Result (SessionError E) Done

abbrev pub applied_for : DesktopSession → Bool → AppliedState
applied_for desktop desired_running =
    if not (is_unsupported desktop) && desired_running then running else stopped

-- Successful with an applied state, or failed and not running.
abbrev pub Settles : {W E : Type 0} → AppliedState → Reply W E → Type 0
Settles {W} {E} state (q, result) =
    ((result ≡ ok done) × (q.applied ≡ state))
    ⊎ ((e : SessionError E) × (result ≡ err e)
        × ((q.applied ≡ stopped) ⊎ (q.applied ≡ needs_cleanup)))

module _ {W E : Type 0} (runner : CommandRunner W E) where
  stop_all_locked-Settles : (c : SessionCoordinator W) → Settles stopped (stop_all_locked runner c)
  stop_all_locked-Settles c =
      let (_, _, outcome) = stop_all_locked-Stops runner c in
      elim outcome [
        | inl (e, a, _) ↦ inl (e, a)
        | inr (f, fs, e, a, _) ↦ inr (cleanup_failed (f ∷ fs), e, inr a)
      ]

  started-Settles :
      (c : SessionCoordinator W) (failure : Option E) → Settles running (started runner c failure)
  started-Settles c none = inl (refl, refl)
  started-Settles c (some e) = elim (stop_all_locked-Settles (set_applied c needs_cleanup)) [
    | inl (_, a) ↦ inr (_, refl, inl a)
    | inr (_, _, a) ↦ inr (_, refl, a)
  ]

  transition-Settles :
      (c : SessionCoordinator W) (state : AppliedState) (desired : Bool)
      → c.applied ≡ state
      → (state ≡ stopped) ⊎ (state ≡ running)
      → Settles (if desired then running else stopped) (transition runner c state desired)
  unfolding start
  transition-Settles c stopped true e s =
      let (failure, w) = run_until_error runner (start_command_plan c.desktop) c.world in
      started-Settles (record c { world = w }) failure
  transition-Settles c running false e s = stop_all_locked-Settles c
  transition-Settles c stopped false e s = inl (refl, e)
  transition-Settles c running true e s = inl (refl, e)
  transition-Settles c needs_cleanup desired e s = ground arith

  after_cleanup-Settles :
      (state : AppliedState) (desired : Bool) (reply : Reply W E)
      → Settles state reply
      → (state ≡ stopped) ⊎ (state ≡ running)
      → Settles (if desired then running else stopped) (after_cleanup runner desired reply)
  after_cleanup-Settles state desired (c, err e) (inl (f, _)) s = cc
  after_cleanup-Settles state desired (c, err e) (inr (_, _, a)) s = inr (e, refl, a)
  after_cleanup-Settles state desired (c, ok done) (inl (_, a)) s =
      transition-Settles c c.applied desired refl (rw a s)
  after_cleanup-Settles state desired (c, ok done) (inr (_, f, _)) s = cc

  clean_up-Settles :
      (c : SessionCoordinator W) (state : AppliedState)
      → c.applied ≡ state
      → (now : AppliedState) × ((now ≡ stopped) ⊎ (now ≡ running))
        × Settles now (clean_up runner c state)
  clean_up-Settles c stopped e = (stopped, inl refl, inl (refl, e))
  clean_up-Settles c running e = (running, inr refl, inl (refl, e))
  clean_up-Settles c needs_cleanup e = (stopped, inl refl, stop_all_locked-Settles c)

  settle_unsupported-Settles :
      (reply : Reply W E) → Settles stopped reply → Settles stopped (settle_unsupported reply)
  settle_unsupported-Settles (c, err e) (inl (f, _)) = cc
  settle_unsupported-Settles (c, err e) (inr (_, _, a)) = inr (e, refl, a)
  settle_unsupported-Settles (c, ok done) h = inl (refl, refl)

  unsupported-Settles :
      (c : SessionCoordinator W) (state : AppliedState)
      → Settles stopped (settle_unsupported (clean_up_unsupported runner c state))
  unsupported-Settles c needs_cleanup = settle_unsupported-Settles _ (stop_all_locked-Settles c)
  unsupported-Settles c stopped = inl (refl, refl)
  unsupported-Settles c running = inl (refl, refl)

  supported-Settles :
      (c : SessionCoordinator W) (desired : Bool)
      → Settles
          (if desired then running else stopped)
          (after_cleanup runner desired (clean_up runner c c.applied))
  supported-Settles c desired =
      let (now, reached, h) = clean_up-Settles c c.applied refl in
      after_cleanup-Settles now desired (clean_up runner c c.applied) h reached

  -- From any applied state, a reconciliation that succeeds applies what is desired: running on a
  -- supported desktop, stopped otherwise. One that fails never leaves the session as running: it is
  -- stopped or marked for cleanup.
  pub reconcile-Settles :
      (c : SessionCoordinator W) (desired : Bool)
      → Settles (applied_for c.desktop desired) (reconcile runner c desired)
  unfolding reconcile
  reconcile-Settles c desired = by_desktop (is_unsupported c.desktop)
    where
      by_desktop :
          (b : Bool)
          → Settles (if not b && desired then running else stopped) (elim b [
            | true ↦ settle_unsupported (clean_up_unsupported runner c c.applied)
            | false ↦ after_cleanup runner desired (clean_up runner c c.applied)
          ])
      by_desktop true = unsupported-Settles c c.applied
      by_desktop false = supported-Settles c desired

  run_until_error-issue :
      (plan : List SessionCommand) (w : W)
      → AllSucceed runner plan w
      → run_until_error runner plan w ≡ (none, issue runner plan w)
  unfolding run_until_error issue AllSucceed
  run_until_error-issue [] w h = refl
  run_until_error-issue (command ∷ plan) w (e, h) =
      rw (run_until_error, e) (run_until_error-issue plan (runner.run_command command w).1 h)

  -- On a supported desktop where the session is stopped and every start command succeeds, asking for
  -- the session issues the start plan, changes nothing else of the coordinator and applies it as running.
  pub reconcile-issue :
      (c : SessionCoordinator W)
      → is_unsupported c.desktop ≡ false
      → c.applied ≡ stopped
      → AllSucceed runner (start_command_plan c.desktop) c.world
      → reconcile runner c true ≡ (
        record c { world = issue runner (start_command_plan c.desktop) c.world; applied = running },
        ok done,
      )
  unfolding reconcile start
  reconcile-issue c supported idle h =
      ap
        (λ b. elim b [
          | true ↦ settle_unsupported (clean_up_unsupported runner c c.applied)
          | false ↦ after_cleanup runner true (clean_up runner c c.applied)
        ])
        supported
      ∙ ap (λ state. after_cleanup runner true (clean_up runner c state)) idle
      ∙ ap (λ state. transition runner c state true) idle
      ∙ ap (λ x. started runner (record c { world = x.1 }) x.0)
          (run_until_error-issue (start_command_plan c.desktop) c.world h)
