-- ===== src/Hyprland/Bridge.antt =====
-- crates/overcrow-hyprland/src/bridge.rs: one pass of each of the bridge's duties. What the
-- compositor and the core answer are arguments; what is sent to them is a list.
pub mod Passes
pub mod Requests
use player_vox_over_crow.Common.{
  Bool, true, false, not, ◌&&◌, ◌||◌, Option, none, some, is_some, is_none, List, [], ◌∷◌, ◌++◌,
  any, length, ◌==◌, ℕ, keep, if◌then◌else◌,
}
use player_vox_over_crow.Common.Result.{Result, ok, err, ok_or}
use player_vox_over_crow.Common.Text.{Text, text_eq}
use player_vox_over_crow.Protocol.{OverlayMode, interactive, CoreSnapshot, empty_snapshot, mode_eq}
use player_vox_over_crow.Hyprland.Model.{HyprWindow, HyprMonitor, WindowReport}
use player_vox_over_crow.Hyprland.Reconcile.{Reconciler, reconcile}
use player_vox_over_crow.Hyprland.Geometry.{GeometrySynchronizer, only}
use player_vox_over_crow.Hyprland.Geometry as Geometry
use player_vox_over_crow.Hyprland.Focus.{FocusSyncState, FocusPlan, focus_plan, cleanup_commands}
use player_vox_over_crow.Hyprland.Shortcut.{
  ShortcutSpec, ShortcutBackend, GlobalShortcut, HyprBinding,
}
use player_vox_over_crow.Hyprland.Shortcut.Binding.{
  from_owned_binding, matches_accelerator, owns, unbind_request,
}
use player_vox_over_crow.Hyprland.Shortcut.Reconciler.{
  ShortcutReconciler, ShortcutDecision, needs_probe, plan, act, request_of,
}

-- An error, of whatever text.
pub data Failure : Type 0 where
  failure : Failure

abbrev pub Answer {ℓ} : Type ℓ → Type ℓ
Answer A = Result Failure A

pub data Sent : Type 0 where
  dispatched : Text → Sent
  reported : WindowReport → Sent
  cleared : Sent

-- What the core answers to a report, to a clear and to a question for its snapshot.
pub record Core : Type 0 where
  pub report : WindowReport → Answer CoreSnapshot
  pub clear : Answer CoreSnapshot
  pub snapshot : Answer CoreSnapshot

-- What the compositor answers; `accepts` says whether it takes a command.
pub record Desktop : Type 0 where
  pub active_window : Answer (Option HyprWindow)
  pub clients : Answer (List HyprWindow)
  pub monitors : Answer (List HyprMonitor)
  pub global_shortcuts : Answer (List GlobalShortcut)
  pub bindings : Answer (List HyprBinding)
  pub shortcut_backend : Answer ShortcutBackend
  pub accepts : Text → Bool

-- `try_join!`: both answers, or an error.
abbrev pub join_answers {ℓ κ} : {A : Type ℓ} {B : Type κ} → Answer A → Answer B → Answer (A × B)
join_answers (ok a) (ok b) = ok (a, b)
join_answers (ok a) (err e) = err e
join_answers (err e) _ = err e

abbrev pub tell_core : Core → Option WindowReport → Answer CoreSnapshot × List Sent
tell_core core (some report) = (core.report report, reported report ∷ [])
tell_core core none = (core.clear, cleared ∷ [])

-- `if result.is_err() { let _ = core.clear().await; }`.
abbrev pub clear_after : Answer CoreSnapshot × List Sent → Answer CoreSnapshot × List Sent
clear_after (ok snapshot, sent) = (ok snapshot, sent)
clear_after (err e, sent) = (err e, sent ++ (cleared ∷ []))

unfoldable pub reconcile_once :
    Desktop → Core → Reconciler → Reconciler × Answer CoreSnapshot × List Sent
reconcile_once desktop core r =
    elim (join_answers (join_answers desktop.active_window desktop.clients)
      (join_answers desktop.monitors core.snapshot)) [
        | err e ↦ (r, err e, cleared ∷ [])
        | ok ((active, clients), (monitors, current)) ↦
            let (after, report) =
              reconcile r active clients monitors (mode_eq current.overlay_mode interactive) in
            let (result, sent) = clear_after (tell_core core report) in (after, result, sent)
      ]

-- The commands in turn, up to the first that is not taken.
unfoldable pub dispatch_all : (Text → Bool) → List Text → Bool × List Sent
dispatch_all accepts [] = (true, [])
dispatch_all accepts (command ∷ rest) =
    let (done, sent) = dispatch_all accepts rest in
    if accepts command then (done, dispatched command ∷ sent) else (false, dispatched command ∷ [])

abbrev pub clear_if :
    Bool → Core → Answer CoreSnapshot → List Sent → Answer CoreSnapshot × List Sent
clear_if true core snapshot sent = (core.clear, sent ++ (cleared ∷ []))
clear_if false core snapshot sent = (snapshot, sent)

unfoldable pub sync_focus_once :
    Desktop → Core → FocusSyncState → FocusSyncState × Answer CoreSnapshot × List Sent
unfolding dispatch_all
sync_focus_once desktop core s = elim (join_answers desktop.clients desktop.active_window) [
  | err e ↦ (s, err e, [])
  | ok (clients, active) ↦
      let (after, wanted) = focus_plan s clients active (ok_or core.snapshot empty_snapshot) in
      let (done, sent) = dispatch_all desktop.accepts wanted.commands in
      let (result, sent_all) =
        if done then clear_if wanted.clear_core core core.snapshot sent else (err failure, sent) in
      (after, result, sent_all)
]

unfoldable pub sync_geometry_once :
    Desktop
    → CoreSnapshot
    → GeometrySynchronizer
    → GeometrySynchronizer × Answer (Unit {0}) × List Sent
unfolding dispatch_all
sync_geometry_once desktop snapshot g =
    if is_none snapshot.active_game
    then (g, ok tt, [])
    else elim (join_answers desktop.active_window desktop.clients) [
      | err e ↦ (g, err e, [])
      | ok (active, clients) ↦
          let (after, commands) = Geometry.commands g snapshot active clients in
          let (done, sent) = dispatch_all desktop.accepts commands in
          (after, if done then ok tt else err failure, sent)
    ]

-- `needs_probe` of every reconciler.
unfoldable pub probe_all : Bool → List ShortcutReconciler → List (ShortcutReconciler × Bool)
probe_all desired [] = []
probe_all desired (r ∷ rest) = needs_probe r desired ∷ probe_all desired rest

abbrev pub after_request :
    ShortcutReconciler × ShortcutDecision
    → (Text → Bool)
    → Option Text
    → ShortcutReconciler × Bool × List Sent
after_request (r, decision) accepts none = (act (r, decision), true, [])
after_request (r, decision) accepts (some request) =
    if accepts request
    then (act (r, decision), true, dispatched request ∷ [])
    else (r, false, dispatched request ∷ [])

-- The body of the loop for one reconciler that is probed.
unfoldable pub sync_shortcut :
    (Text → Bool)
    → Bool
    → List GlobalShortcut
    → List HyprBinding
    → ShortcutReconciler
    → ShortcutReconciler × Bool × List Sent
sync_shortcut accepts desired globals bindings r =
    let planned = plan r desired globals bindings in
    after_request planned accepts (request_of planned.1)

abbrev pub reconcilers_of : List (ShortcutReconciler × Bool) → List ShortcutReconciler
reconcilers_of [] = []
reconcilers_of ((r, probe) ∷ rest) = r ∷ reconcilers_of rest

-- The loop, up to the first request that is not taken.
unfoldable pub sync_probed :
    (Text → Bool)
    → Bool
    → List GlobalShortcut
    → List HyprBinding
    → List (ShortcutReconciler × Bool)
    → List ShortcutReconciler × Bool × List Sent
unfolding sync_shortcut
sync_probed accepts desired globals bindings [] = ([], true, [])
sync_probed accepts desired globals bindings ((r, false) ∷ rest) =
    let (after, done, sent) = sync_probed accepts desired globals bindings rest in
    (r ∷ after, done, sent)
sync_probed accepts desired globals bindings ((r, true) ∷ rest) =
    let (one, taken, request) = sync_shortcut accepts desired globals bindings r in
    let (after, done, sent) = sync_probed accepts desired globals bindings rest in
    if taken
    then (one ∷ after, done, request ++ sent)
    else (one ∷ reconcilers_of rest, false, request)

abbrev pub any_probe : List (ShortcutReconciler × Bool) → Bool
any_probe [] = false
any_probe ((r, probe) ∷ rest) = probe || any_probe rest

unfoldable pub sync_shortcuts_once :
    Desktop
    → CoreSnapshot
    → List ShortcutReconciler
    → List ShortcutReconciler × Answer (Unit {0}) × List Sent
unfolding sync_probed probe_all
sync_shortcuts_once desktop snapshot reconcilers =
    let desired = is_some snapshot.active_game in
    let probes = probe_all desired reconcilers in
    if not (any_probe probes)
    then (reconcilers_of probes, ok tt, [])
    else elim (join_answers desktop.global_shortcuts desktop.bindings) [
      | err e ↦ (reconcilers_of probes, err e, [])
      | ok (globals, bindings) ↦
          let (after, done, sent) = sync_probed desktop.accepts desired globals bindings probes in
          (after, if done then ok tt else err failure, sent)
    ]

unfoldable pub cleanup_focus_state : Desktop → Answer (Unit {0}) × List Sent
unfolding dispatch_all
cleanup_focus_state desktop = elim desktop.clients [
  | err e ↦ (err e, [])
  | ok clients ↦
      let (done, sent) = dispatch_all desktop.accepts (cleanup_commands clients) in
      (if done then ok tt else err failure, sent)
]

-- The identities that were handled, of which the code keeps a set.
abbrev pub is_processed : List (ℕ × Text) → ShortcutSpec → Bool
is_processed processed spec =
    any (λ (p : ℕ × Text). p.0 == spec.modmask && text_eq p.1 spec.key) processed

abbrev pub is_owned_alone : ShortcutSpec → Option HyprBinding → Bool
is_owned_alone spec none = false
is_owned_alone spec (some b) = owns spec b

-- The body of the loop in `cleanup_shortcut_state_with`, for the spec of a binding: the identities that
-- were handled before, all bindings, and the loop after.
abbrev pub cleanup_step :
    ShortcutBackend
    → List (ℕ × Text)
    → List HyprBinding
    → Option ShortcutSpec
    → (List (ℕ × Text) → List Text)
    → List Text
cleanup_step backend processed bindings none after = after processed
cleanup_step backend processed bindings (some spec) after =
    if is_processed processed spec
    then after processed
    else if is_owned_alone spec (only (keep (matches_accelerator spec) bindings))
    then unbind_request spec backend ∷ after ((spec.modmask, spec.key) ∷ processed)
    else after ((spec.modmask, spec.key) ∷ processed)

-- The requests of the loop, for the bindings still to come.
unfoldable pub cleanup_requests :
    ShortcutBackend → List (ℕ × Text) → List HyprBinding → List HyprBinding → List Text
cleanup_requests backend processed bindings [] = []
cleanup_requests backend processed bindings (b ∷ rest) =
    cleanup_step backend processed bindings (from_owned_binding b)
      (λ handled. cleanup_requests backend handled bindings rest)

unfoldable pub cleanup_shortcut_state : Desktop → Answer (Unit {0}) × List Sent
unfolding dispatch_all cleanup_requests
cleanup_shortcut_state desktop = elim (join_answers desktop.shortcut_backend desktop.bindings) [
  | err e ↦ (err e, [])
  | ok (backend, bindings) ↦
      let (done, sent) =
        dispatch_all desktop.accepts (cleanup_requests backend [] bindings bindings) in
      (if done then ok tt else err failure, sent)
]
