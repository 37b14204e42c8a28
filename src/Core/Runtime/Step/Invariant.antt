-- ===== src/Core/Runtime/Step/Invariant.antt =====
-- The invariant of the runtime, kept by every operation.
use player_vox_over_crow.Common.{
  ℕ, ◌-◌, ltb, ◌≡◌, refl, sym, subst, Bool, true, false, Option, none, some, opt_eq, &&_true,
  Option-cases, Bool-cases, inl, inr, if◌then◌else◌,
}
use player_vox_over_crow.Common.Text.{text_eq}
use player_vox_over_crow.Common.Time.{millis}
use player_vox_over_crow.Protocol.{CoreSnapshot, passive, clear_game}
use player_vox_over_crow.Config.Settings.{LifecycleSettings}
use player_vox_over_crow.Core.Stopwatch
use player_vox_over_crow.Core.Stopwatch.{toggle, reset}
use player_vox_over_crow.Core.Runtime.State.{
  CoreRuntime, WindowObservation, overlay_app_id, bridge_lease_timeout,
  observation_has_valid_geometry,
}
use player_vox_over_crow.Core.Runtime.Snapshot.{
  snapshot_at, snapshot_state_changed, publish_snapshot,
}
use player_vox_over_crow.Core.Runtime.Snapshot.Sync.{InSync, publish_snapshot-InSync}
use player_vox_over_crow.Core.Runtime.Metadata.{forget_game}
use player_vox_over_crow.Core.Runtime.Operations.{
  publish_at, takes_stopwatch, toggle_manual_stopwatch_at, reset_manual_stopwatch_at, without_game,
  clear_game_locked, observed, allowed_process, apply_bridge_observation_at, apply_x11_observation,
  expire_bridge_lease_at, expire_report,
}
use player_vox_over_crow.Core.Runtime.Held.{Held, forget_game-Held, accept-Held, stopwatch-Held}

abbrev pub HeldBy : CoreRuntime → Type 0
HeldBy r = Held r.settings r.state r.metadata

pub record Inv (r : CoreRuntime) : Type 0 where
  pub held : HeldBy r
  pub in_sync : InSync r

publish_snapshot-HeldBy :
    (r : CoreRuntime) (s : CoreSnapshot) → HeldBy r → HeldBy (publish_snapshot r s).0
unfolding publish_snapshot
publish_snapshot-HeldBy r s h = elim (Bool-cases (snapshot_state_changed r.published.snapshot s)) [
  | inl e ↦ rw (e, publish_snapshot) h
  | inr e ↦ rw (e, publish_snapshot) h
]

pub publish_at-Inv : (r : CoreRuntime) (now : ℕ) → HeldBy r → Inv (publish_at r now).0
unfolding publish_at
publish_at-Inv r now h = record {
  held = publish_snapshot-HeldBy r (snapshot_at r now) h;
  in_sync = publish_snapshot-InSync r now h.finite;
}

pub without_game-HeldBy :
    (s : LifecycleSettings) (r : CoreRuntime) → Held s r.state r.metadata → HeldBy (without_game r)
without_game-HeldBy s r h = forget_game-Held s r.settings r.state r.metadata h

-- Without a game the state's own snapshot is the one of any moment.
bare_snapshot :
    (s : LifecycleSettings) (r : CoreRuntime) (now : ℕ)
    → Held s r.state r.metadata
    → snapshot_at (without_game r) now ≡ (without_game r).state.snapshot
unfolding snapshot_at clear_game forget_game Stopwatch.snapshot_at millis
bare_snapshot s r now h = λ i. record {
  active_game = none;
  overlay_mode = passive;
  session_elapsed_ms = none;
  telemetry = sym h.bare_telemetry i;
  manual_stopwatch = sym h.bare_stopwatch i;
}

pub clear_game_locked-Inv : (r : CoreRuntime) → HeldBy r → Inv (clear_game_locked r).0
unfolding clear_game_locked
clear_game_locked-Inv r h =
    let q = without_game r in
    let k = without_game-HeldBy r.settings r h in
    record {
      held = publish_snapshot-HeldBy q q.state.snapshot k;
      in_sync =
          subst (λ s. InSync (publish_snapshot q s).0) (bare_snapshot r.settings r 0 h)
            (publish_snapshot-InSync q 0 k.finite);
    }

-- A runtime that is changed under a test.
if-HeldBy :
    (b : Bool) (q r : CoreRuntime)
    → (b ≡ true → HeldBy q)
    → (b ≡ false → HeldBy r)
    → HeldBy (if b then q else r)
if-HeldBy true q r h k = h refl
if-HeldBy false q r h k = k refl

pub toggle_stopwatch-Inv :
    (r : CoreRuntime) (now : ℕ) → HeldBy r → Inv (toggle_manual_stopwatch_at r now).0
unfolding toggle_manual_stopwatch_at
toggle_stopwatch-Inv r now h = publish_at-Inv _ now (
    if-HeldBy (takes_stopwatch r) _ r
      (λ e.
        stopwatch-Held r.settings r.state r.metadata (toggle r.metadata.manual_stopwatch now)
          ((&&_true r.widget_profile.manual_stopwatch.enabled _ e).1) h)
      (λ _. h))

pub reset_stopwatch-Inv :
    (r : CoreRuntime) (now : ℕ) → HeldBy r → Inv (reset_manual_stopwatch_at r now).0
unfolding reset_manual_stopwatch_at
reset_stopwatch-Inv r now h = publish_at-Inv _ now (
    if-HeldBy (takes_stopwatch r) _ r
      (λ e.
        stopwatch-Held r.settings r.state r.metadata (reset r.metadata.manual_stopwatch)
          ((&&_true r.widget_profile.manual_stopwatch.enabled _ e).1) h)
      (λ _. h))

observed-HeldBy :
    (r : CoreRuntime) (o : WindowObservation) (report : Option ℕ) (now : ℕ)
    → observation_has_valid_geometry o ≡ true
    → HeldBy r
    → HeldBy (observed r o (allowed_process r o) report now)
unfolding allowed_process
observed-HeldBy r o report now valid h = elim (Option-cases (allowed_process r o)) [
  | inl e ↦ rw e (without_game-HeldBy r.settings r h)
  | inr (a, e) ↦
      rw e (accept-Held r.settings r.processes r.state r.metadata o a report now h valid e)
]

pub bridge-Inv :
    (r : CoreRuntime) (o : WindowObservation) (now : ℕ)
    → HeldBy r
    → Inv (apply_bridge_observation_at r o now).0
unfolding apply_bridge_observation_at
bridge-Inv r o now h = elim (Bool-cases (observation_has_valid_geometry o)) [
  | inl e ↦ rw e (publish_at-Inv _ now (observed-HeldBy r o (some now) now e h))
  | inr e ↦ rw e (clear_game_locked-Inv r h)
]

pub x11-Inv :
    (r : CoreRuntime) (o : Option WindowObservation) (now : ℕ)
    → Inv r
    → Inv (apply_x11_observation r o now).0
unfolding apply_x11_observation
x11-Inv r none now v = clear_game_locked-Inv r v.held
x11-Inv r (some o) now v = elim (Bool-cases (opt_eq text_eq o.app_id (some overlay_app_id))) [
  | inl own ↦ rw own v
  | inr other ↦ elim (Bool-cases (observation_has_valid_geometry o)) [
    | inl e ↦ rw (other, e) (publish_at-Inv _ now (observed-HeldBy r o none now e v.held))
    | inr e ↦ rw (other, e) (clear_game_locked-Inv r v.held)
  ]
]

expire_report-Inv :
    (r : CoreRuntime) (o : Option ℕ) (now : ℕ) → Inv r → Inv (expire_report r o now).0
expire_report-Inv r none now v = v
expire_report-Inv r (some t) now v = elim (Bool-cases (ltb (now - t) bridge_lease_timeout)) [
  | inl e ↦ rw e v
  | inr e ↦ rw e (clear_game_locked-Inv r v.held)
]

pub expire-Inv : (r : CoreRuntime) (now : ℕ) → Inv r → Inv (expire_bridge_lease_at r now).0
unfolding expire_bridge_lease_at
expire-Inv r now v = expire_report-Inv r r.metadata.bridge_last_report now v
