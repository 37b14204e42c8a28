-- ===== src/Core/Runtime/Step/Run.antt =====
-- Every operation, and so every run, keeps the invariant.
use player_vox_over_crow.Common.{List, [], ◌∷◌}
use player_vox_over_crow.Core.Runtime.State.{CoreRuntime}
use player_vox_over_crow.Core.Runtime.Operations.{toggle_runtime_overlay, set_runtime_interactive}
use player_vox_over_crow.Core.Runtime.Held.{toggle_overlay-Held, set_overlay_interactive-Held}
use player_vox_over_crow.Core.Runtime.Step.{
  Command, toggle_stopwatch, reset_stopwatch, toggle_mode, set_interactive, report_window, clear,
  poll_x11, watchdog, refresh, load_settings, load_profile, shortcut, step, run,
}
use player_vox_over_crow.Core.Runtime.Step.Invariant.{
  Inv, publish_at-Inv, clear_game_locked-Inv, toggle_stopwatch-Inv, reset_stopwatch-Inv, bridge-Inv,
  x11-Inv, expire-Inv,
}
use player_vox_over_crow.Core.Runtime.Step.Reload.{
  install_refresh-Inv, reload_settings-Inv, reload_widget_profile-Inv,
  publish_shortcut_availability-Inv,
}

-- Every operation keeps the invariant.
pub step-Inv : (r : CoreRuntime) (c : Command) → Inv r → Inv (step r c)
unfolding step toggle_runtime_overlay set_runtime_interactive
step-Inv r (toggle_stopwatch now) v = toggle_stopwatch-Inv r now v.held
step-Inv r (reset_stopwatch now) v = reset_stopwatch-Inv r now v.held
step-Inv r (toggle_mode now) v =
    publish_at-Inv _ now (toggle_overlay-Held r.settings r.state r.metadata v.held)
step-Inv r (set_interactive b now) v =
    publish_at-Inv _ now (set_overlay_interactive-Held r.settings r.state r.metadata b v.held)
step-Inv r (report_window o now) v = bridge-Inv r o now v.held
step-Inv r clear v = clear_game_locked-Inv r v.held
step-Inv r (poll_x11 o now) v = x11-Inv r o now v
step-Inv r (watchdog now) v = expire-Inv r now v
step-Inv r (refresh table temps now ticks) v = install_refresh-Inv r table temps now ticks v.held
step-Inv r (load_settings s refreshed_at now) v = reload_settings-Inv r s refreshed_at now v
step-Inv r (load_profile p now) v = reload_widget_profile-Inv r p now v
step-Inv r (shortcut a) v = publish_shortcut_availability-Inv r a v

-- Every run keeps the invariant: the active game is authorized by the present settings, the overlay
-- takes input only over a game, and the published snapshot shows the current one at any time.
pub run-Inv : (r : CoreRuntime) (cs : List Command) → Inv r → Inv (run r cs)
unfolding run
run-Inv r [] v = v
run-Inv r (c ∷ cs) v = run-Inv (step r c) cs (step-Inv r c v)
