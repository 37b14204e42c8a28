-- ===== src/Core/Runtime/Step/Guarantees.antt =====
-- What every run of the runtime guarantees: to the overlay, to the subscribers and to the user.
use player_vox_over_crow.Common.{
  ℕ, ◌≡◌, refl, sym, ap, subst, true, Option, none, some, opt_eq, is_some, arith, List,
}
use player_vox_over_crow.Common.Result.{ok}
use player_vox_over_crow.Protocol.{GameWindow, CoreState, interactive, game_eq}
use player_vox_over_crow.Config.Settings.{LifecycleSettings, validate}
use player_vox_over_crow.Config.Allowlist.{ProcessIdentity, from_settings}
use player_vox_over_crow.Config.Allowlist.Laws.{Selected, allows_identity-Selected}
use player_vox_over_crow.Config.Widgets.{WidgetProfile}
use player_vox_over_crow.Core.Classifier.{ProcessTable}
use player_vox_over_crow.Core.Runtime.State.{CoreRuntime, RuntimeMetadata, default_metadata}
use player_vox_over_crow.Core.Runtime.Snapshot.{snapshot_at, snapshot_state_changed, over_game}
use player_vox_over_crow.Core.Runtime.Snapshot.Shows.{Shows, unchanged-Shows}
use player_vox_over_crow.Core.Runtime.Start.{with_settings_and_widget_profile}
use player_vox_over_crow.Core.Runtime.Held.{Authorized}
use player_vox_over_crow.Core.Runtime.Step.{Command, run}
use player_vox_over_crow.Core.Runtime.Step.Invariant.{Inv}
use player_vox_over_crow.Core.Runtime.Step.Run.{run-Inv}
use player_vox_over_crow.Core.Runtime.Step.Begin.{Fresh, with_settings-Inv}

module _ (st : CoreState) (table : ProcessTable) (s : LifecycleSettings) (profile : WidgetProfile)
    (now : ℕ) (fresh : Fresh st) (cs : List Command) where
  reached-Inv : Inv (run (with_settings_and_widget_profile st table s profile now) cs)
  reached-Inv = run-Inv _ cs (with_settings-Inv st table s profile now fresh)

Authorized-game :
    (r : CoreRuntime) (g : GameWindow)
    → Inv r
    → r.state.snapshot.active_game ≡ some g
    → Authorized (from_settings r.settings) (some g) r.metadata
Authorized-game r g v e =
    subst (λ game. Authorized (from_settings r.settings) game r.metadata) e v.held.authorized

-- However a runtime was started and whatever it was asked to do since, its active game is one that
-- its present settings select: they are enabled and valid, and an identity with the game's Steam id
-- is selected by them, by a listed id or by the executable of a manual game.
pub run-Selected :
    (st : CoreState) (table : ProcessTable) (s : LifecycleSettings) (profile : WidgetProfile)
    (now : ℕ) (cs : List Command) (g : GameWindow)
    → Fresh st
    → let r = run (with_settings_and_widget_profile st table s profile now) cs in
      r.state.snapshot.active_game ≡ some g
      → (r.settings.enabled ≡ true)
        × (validate r.settings ≡ ok r.settings)
        × ((i : ProcessIdentity) × (r.metadata.active_identity ≡ some i)
            × (g.steam_app_id ≡ i.steam_app_id)
            × Selected r.settings i)
run-Selected st table s profile now cs g fresh e =
    let r = run (with_settings_and_widget_profile st table s profile now) cs in
    let (i, p, known, _, allowed, steam, _) =
      Authorized-game r g (reached-Inv st table s profile now fresh cs) e in
    let (on, valid, selected) = (allows_identity-Selected r.settings i).0 allowed in
    (on, valid, (i, known, steam, selected))

game_telemetry :
    (r : CoreRuntime) (o : Option GameWindow)
    → (o ≡ none → r.metadata ≡ default_metadata)
    → over_game o r.metadata.telemetry ≡ r.metadata.telemetry
game_telemetry r none h = sym (ap (λ (m : RuntimeMetadata). m.telemetry) (h refl))
game_telemetry r (some g) h = refl

forgotten :
    (r : CoreRuntime) → Inv r → r.state.snapshot.active_game ≡ none → r.metadata ≡ default_metadata
forgotten r v e =
    subst (λ game. Authorized (from_settings r.settings) game r.metadata) e v.held.authorized

-- Subscribers are never behind: after any run of a runtime that was started fresh, the published
-- snapshot has the game and the mode of the state and the telemetry of the metadata, says whether the
-- stopwatch runs, and while it does not run has its time.
pub run-Shows :
    (st : CoreState) (table : ProcessTable) (s : LifecycleSettings) (profile : WidgetProfile)
    (now : ℕ) (cs : List Command)
    → Fresh st
    → let r = run (with_settings_and_widget_profile st table s profile now) cs in
      Shows r.published.snapshot r
run-Shows st table s profile now cs fresh =
    let r = run (with_settings_and_widget_profile st table s profile now) cs in
    let v = reached-Inv st table s profile now fresh cs in
    unchanged-Shows r.published.snapshot r now
      (game_telemetry r r.state.snapshot.active_game (forgotten r v)) (v.in_sync now)

opt_game-is_some :
    (a b : Option GameWindow) → opt_eq game_eq a b ≡ true → is_some b ≡ true → is_some a ≡ true
opt_game-is_some none none e h = h
opt_game-is_some none (some b) e h = cc
opt_game-is_some (some a) b e h = refl

published-mode :
    (r : CoreRuntime)
    → Inv r
    → r.published.snapshot.overlay_mode ≡ interactive
    → is_some r.published.snapshot.active_game ≡ true
unfolding snapshot_state_changed snapshot_at
published-mode r v e = ground (
  arith,
  v.in_sync 0,
  opt_game-is_some r.published.snapshot.active_game r.state.snapshot.active_game,
)

-- However a fresh runtime was started and whatever it was asked to do since, a published snapshot
-- with an interactive overlay has an active game: the overlay never takes the input without one.
pub run-interactive :
    (st : CoreState) (table : ProcessTable) (s : LifecycleSettings) (profile : WidgetProfile)
    (now : ℕ) (cs : List Command)
    → Fresh st
    → let r = run (with_settings_and_widget_profile st table s profile now) cs in
      r.published.snapshot.overlay_mode ≡ interactive
      → is_some r.published.snapshot.active_game ≡ true
run-interactive st table s profile now cs fresh =
    published-mode _ (reached-Inv st table s profile now fresh cs)

-- Without an active game nothing of an earlier one is left: no lease, no identity, no timing, no
-- telemetry and a stopwatch at zero.
pub run-forgets :
    (st : CoreState) (table : ProcessTable) (s : LifecycleSettings) (profile : WidgetProfile)
    (now : ℕ) (cs : List Command)
    → Fresh st
    → let r = run (with_settings_and_widget_profile st table s profile now) cs in
      r.state.snapshot.active_game ≡ none → r.metadata ≡ default_metadata
run-forgets st table s profile now cs fresh e =
    forgotten _ (reached-Inv st table s profile now fresh cs) e
