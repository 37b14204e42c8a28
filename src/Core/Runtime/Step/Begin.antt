-- ===== src/Core/Runtime/Step/Begin.antt =====
-- A new runtime satisfies the invariant.
use player_vox_over_crow.Common.{
  ℕ, suc, ◌&&◌, ◌||◌, ◌≡◌, refl, ap, ◌∙◌, subst, true, Option, none, some, is_some, opt_eq, arith,
  [], inl, inr, ◌⊎◌, Bool-cases, Option-cases, &&_true, get, ◌==◌,
}
use player_vox_over_crow.Common.Result.{ok_or}
use player_vox_over_crow.Common.Time.{millis}
use player_vox_over_crow.Core.Stopwatch
use player_vox_over_crow.Protocol.{GameWindow, CoreState, stopped_at_zero, clear_game}
use player_vox_over_crow.Protocol.Laws.{ModeFits, clear_game-ModeFits}
use player_vox_over_crow.Config.Settings.{LifecycleSettings, default_settings}
use player_vox_over_crow.Config.Allowlist.{
  ProcessIdentity, GameAllowlist, default_identity, from_settings, allows_identity,
}
use player_vox_over_crow.Config.Allowlist.Laws.{allows_identity-default}
use player_vox_over_crow.Config.Widgets.{WidgetProfile, default_profile, validate_profile}
use player_vox_over_crow.Core.Classifier.{
  ProcessTable, ProcessInfo, ProcessTiming, classify_loop, classify_process_identity,
}
use player_vox_over_crow.Core.Runtime.State.{
  ProcessInstance, validate_enabled_settings, matching_process_identity, matching_identity_of,
  active_game_process, game_process_of,
}
use player_vox_over_crow.Core.Runtime.Snapshot.{snapshot_at}
use player_vox_over_crow.Core.Runtime.Snapshot.Sync.{
  InSync, changed-any_time, FiniteScale, snapshot_state_changed_refl,
}
use player_vox_over_crow.Core.Runtime.Held.Refresh.{nat_opt_eq}
use player_vox_over_crow.Core.Runtime.Start.{identity_of, start, with_settings_and_widget_profile}
use player_vox_over_crow.Core.Runtime.Step.Invariant.{HeldBy, Inv}

-- What the `CoreState` that a runtime is made over has shown so far: no telemetry and no stopwatch,
-- which only the runtime fills in, and no input without a game.
pub record Fresh (st : CoreState) : Type 0 where
  pub fresh_mode : ModeFits st.snapshot
  pub fresh_telemetry : st.snapshot.telemetry ≡ none
  pub fresh_stopwatch : st.snapshot.manual_stopwatch ≡ stopped_at_zero
  pub fresh_scale : FiniteScale st.snapshot.active_game

loop-missing :
    (fuel pid : ℕ) (table : ProcessTable) (i : ProcessIdentity)
    → get pid table ≡ none
    → classify_loop (suc fuel) [] pid table i ≡ i
unfolding classify_loop
loop-missing fuel pid table i e = rw (e, classify_loop)

classify-missing :
    (pid : ℕ) (table : ProcessTable)
    → get pid table ≡ none
    → classify_process_identity pid table ≡ default_identity
unfolding classify_process_identity
classify-missing pid table e =
    ap
      (λ (i : ProcessIdentity).
        let j : ProcessIdentity = record i {
          game_candidate = i.game_candidate || is_some i.steam_app_id;
        } in
        j)
      (loop-missing 63 pid table default_identity e)

allowed-present :
    (al : GameAllowlist) (pid : ℕ) (table : ProcessTable)
    → allows_identity al (classify_process_identity pid table) ≡ true
    → (p : ProcessInfo) × (get pid table ≡ some p)
allowed-present al pid table h = elim (Option-cases (get pid table)) [
  | inl e ↦ absurd (
      ground (
        arith,
        ap (allows_identity al) (classify-missing pid table e),
        allows_identity-default al,
        h,
      ))
  | inr found ↦ found
]

-- The start of a runtime, by the game that its state holds.
StartedBy : Option GameWindow → GameAllowlist → ProcessTable → Type 0
StartedBy game al table =
    (identity_of game table al ≡ none)
    ⊎ ((g : GameWindow) × (i : ProcessIdentity) × (p : ProcessInstance) × (t : Option ProcessTiming)
        × (game ≡ some g)
        × (identity_of game table al ≡ some i)
        × (active_game_process g table ≡ some (p, t))
        × (allows_identity al i ≡ true)
        × (g.steam_app_id ≡ i.steam_app_id)
        × (g.pid ≡ some p.pid))

started_pid :
    (g : GameWindow) (pid : Option ℕ) (al : GameAllowlist) (table : ProcessTable)
    → g.pid ≡ pid
    → matching_process_identity g table al ≡ matching_identity_of pid g.steam_app_id table al
    → active_game_process g table ≡ game_process_of pid table
    → StartedBy (some g) al table
unfolding StartedBy
started_pid g none al table e m f = inl m
started_pid g (some pid) al table e m f =
    let i = classify_process_identity pid table in
    elim (Bool-cases
      (allows_identity al i && opt_eq (λ x y. x == y) g.steam_app_id i.steam_app_id)) [
        | inr n ↦ inl (m ∙ rw n)
        | inl y ↦
            let (allowed, steam) = &&_true (allows_identity al i) _ y in
            let (p, found) = allowed-present al pid table allowed in
            inr (
              g,
              i,
              record { pid = pid; start_ticks = p.start_ticks },
              p.timing,
              refl,
              m ∙ rw y,
              f ∙ rw found,
              allowed,
              nat_opt_eq g.steam_app_id i.steam_app_id steam,
              e,
            )
      ]

started :
    (game : Option GameWindow) (al : GameAllowlist) (table : ProcessTable) → StartedBy game al table
unfolding StartedBy matching_process_identity active_game_process
started none al table = inl refl
started (some g) al table = started_pid g g.pid al table refl refl refl

start-HeldBy :
    (st : CoreState) (table : ProcessTable) (s : LifecycleSettings) (profile : WidgetProfile)
    (now : ℕ)
    → Fresh st
    → HeldBy (start st table s profile now)
unfolding start StartedBy clear_game
start-HeldBy st table s profile now f =
    elim (started st.snapshot.active_game (from_settings s) table) [
      | inl e ↦ rw e (record {
        authorized = refl;
        mode = clear_game-ModeFits st;
        bare_telemetry = f.fresh_telemetry;
        bare_stopwatch = f.fresh_stopwatch;
        finite = tt;
      })
      | inr (g, i, p, t, e, found, process, allowed, steam, pid) ↦
          rw (found, e, process)
            (record {
              authorized = (i, p, refl, refl, allowed, steam, pid);
              mode = λ _. refl;
              bare_telemetry = f.fresh_telemetry;
              bare_stopwatch = f.fresh_stopwatch;
              finite = subst FiniteScale e f.fresh_scale;
            })
    ]

-- The first snapshot is the current one.
start-InSync :
    (st : CoreState) (table : ProcessTable) (s : LifecycleSettings) (profile : WidgetProfile)
    (now : ℕ)
    → Fresh st
    → InSync (start st table s profile now)
unfolding start snapshot_at millis Stopwatch.snapshot_at
start-InSync st table s profile now f later =
    let r = start st table s profile now in
    changed-any_time r.published.snapshot r.state.snapshot r.metadata later now
    ∙ snapshot_state_changed_refl r.published.snapshot
        (start-HeldBy st table s profile now f).finite

-- A runtime made over a fresh state satisfies the invariant, whatever the settings and the profile:
-- what does not validate is replaced by the defaults.
pub with_settings-Inv :
    (st : CoreState) (table : ProcessTable) (s : LifecycleSettings) (profile : WidgetProfile)
    (now : ℕ)
    → Fresh st
    → Inv (with_settings_and_widget_profile st table s profile now)
unfolding with_settings_and_widget_profile
with_settings-Inv st table s profile now f =
    let s' = ok_or (validate_enabled_settings s) default_settings in
    let p' = ok_or (validate_profile profile) default_profile in
    record { held = start-HeldBy st table s' p' now f; in_sync = start-InSync st table s' p' now f }
