-- ===== src/Hyprland/Reconcile.antt =====
-- crates/overcrow-hyprland/src/reconcile.rs: which window the core is told of.
pub mod Choice
use player_vox_over_crow.Common.{
  Bool, true, false, not, Option, none, some, List, [], ◌∷◌, if◌then◌else◌,
}
use player_vox_over_crow.Common.Options.{◌>>=◌, find, filter_option}
use player_vox_over_crow.Common.Text.{text_eq}
use player_vox_over_crow.Common.Int.{ℤ, int_eq}
use player_vox_over_crow.Hyprland.Model.{
  HyprWindow, HyprMonitor, HyprWorkspaceId, WindowAddress, WindowReport, from_window, is_overlay,
}

pub record Reconciler : Type 0 where
  pub last_reportable : Option WindowAddress

abbrev pub new_reconciler : Reconciler
new_reconciler = record { last_reportable = none }

abbrev pub focused_monitors : List HyprMonitor → List HyprMonitor
focused_monitors [] = []
focused_monitors (m ∷ ms) = if m.focused then m ∷ focused_monitors ms else focused_monitors ms

abbrev pub shows_workspace : Option HyprWorkspaceId → ℤ → Bool
shows_workspace none id = false
shows_workspace (some workspace) id = int_eq workspace.id id

-- Exactly one monitor is focused, and it shows the report's workspace.
abbrev pub only_focused_shows : List HyprMonitor → ℤ → Bool
only_focused_shows [] id = false
only_focused_shows (m ∷ []) id = shows_workspace m.active_workspace id
only_focused_shows (m ∷ n ∷ ms) id = false

unfoldable pub is_on_focused_workspace : WindowReport → List HyprMonitor → Bool
is_on_focused_workspace report monitors =
    only_focused_shows (focused_monitors monitors) report.workspace_id

unfoldable pub remembered_report :
    Reconciler → List HyprWindow → List HyprMonitor → Option WindowReport
unfolding is_on_focused_workspace
remembered_report r clients monitors =
    filter_option (λ c. is_on_focused_workspace c monitors)
      (filter_option (λ c. not (is_overlay c))
        do
          remembered ← r.last_reportable
          window ← find (λ (w : HyprWindow). text_eq w.address remembered.raw) clients
          from_window window monitors)

unfoldable pub report_active :
    Option HyprWindow → List HyprWindow → List HyprMonitor → Option WindowReport
report_active active clients monitors = do
  active_window ← active
  window ← find (λ (w : HyprWindow). text_eq w.address active_window.address) clients
  from_window window monitors

-- The match on the active window and its report.
abbrev pub choose :
    Reconciler
    → Option HyprWindow
    → Option WindowReport
    → Option WindowReport
    → Reconciler × Option WindowReport
choose r active (some report) remembered =
    if not (is_overlay report)
    then (record { last_reportable = some report.address }, some report)
    else (r, remembered)
choose r none none remembered = (r, remembered)
choose r (some window) none remembered = (r, none)

abbrev pub forget_if_none : Reconciler × Option WindowReport → Reconciler × Option WindowReport
forget_if_none (r, none) = (record { last_reportable = none }, none)
forget_if_none (r, some report) = (r, some report)

unfoldable pub reconcile :
    Reconciler
    → Option HyprWindow
    → List HyprWindow
    → List HyprMonitor
    → Bool
    → Reconciler × Option WindowReport
unfolding remembered_report report_active
reconcile r active clients monitors preserve_game = forget_if_none (
    if preserve_game
    then (r, remembered_report r clients monitors)
    else choose r active (report_active active clients monitors)
        (remembered_report r clients monitors))
