-- ===== src/Hyprland/Loop.antt =====
-- crates/overcrow-hyprland/src/bridge.rs, `run_bridge`: the turns of the bridge's loop. Which branch of
-- the `select!` is ready, and what the compositor and the core answer in it, are arguments.
pub mod Turns
use player_vox_over_crow.Common.{
  Bool, true, false, ◌&&◌, Option, none, some, List, [], ◌∷◌, ◌++◌, map, if◌then◌else◌,
}
use player_vox_over_crow.Common.Result.{Result, ok, err}
use player_vox_over_crow.Common.Text.{Text, chars, starts_with}
use player_vox_over_crow.Protocol.{CoreSnapshot, empty_snapshot}
use player_vox_over_crow.Hyprland.Reconcile.{Reconciler, new_reconciler}
use player_vox_over_crow.Hyprland.Geometry.{GeometrySynchronizer, new_synchronizer}
use player_vox_over_crow.Hyprland.Focus.{FocusSyncState, new_focus}
use player_vox_over_crow.Hyprland.Shortcut.{
  ShortcutSpec, ShortcutBackend, ShortcutError, manual_stopwatch,
}
use player_vox_over_crow.Hyprland.Shortcut.Reconciler.{ShortcutReconciler, invalidate}
use player_vox_over_crow.Hyprland.Shortcut.Reconciler as Shortcuts
use player_vox_over_crow.Hyprland.Events.{EventError, is_reconciliation_event}
use player_vox_over_crow.Hyprland.Bindings.{UnsupportedShortcutBackend}
use player_vox_over_crow.Hyprland.Bridge.{
  Failure, failure, Answer, Sent, cleared, Core, Desktop, reconcile_once, sync_focus_once,
  sync_geometry_once, sync_shortcuts_once, cleanup_focus_state, cleanup_shortcut_state,
}

-- Why the backend is not known: an answer that is not supported, or another error.
pub data BackendError : Type 0 where
  unsupported : UnsupportedShortcutBackend → BackendError
  other_error : BackendError

abbrev pub with_overlay : Option ShortcutSpec → List ShortcutSpec → List ShortcutSpec
with_overlay none specs = specs
with_overlay (some spec) specs = spec ∷ specs

-- `prepare_shortcut_reconcilers`, with the answer that the warning quotes.
unfoldable pub prepare_shortcut_reconcilers :
    Option ShortcutSpec
    → Result BackendError ShortcutBackend
    → Answer (List ShortcutReconciler × Option UnsupportedShortcutBackend)
prepare_shortcut_reconcilers overlay (err (unsupported answer)) = ok ([], some answer)
prepare_shortcut_reconcilers overlay (err other_error) = err failure
prepare_shortcut_reconcilers overlay (ok backend) = elim manual_stopwatch [
  | err e ↦ err failure
  | ok specs ↦
      ok (map (λ spec. Shortcuts.new_reconciler spec backend) (with_overlay overlay specs), none)
]

-- Both cleanups, which run side by side: what each sends is kept apart.
abbrev pub both_done : Answer (Unit {0}) → Answer (Unit {0}) → Answer (Unit {0})
both_done (ok _) (ok _) = ok tt
both_done _ _ = err failure

unfoldable pub cleanup_runtime_state : Desktop → Answer (Unit {0}) × List Sent × List Sent
cleanup_runtime_state desktop =
    let (focus, focus_sent) = cleanup_focus_state desktop in
    let (shortcut, shortcut_sent) = cleanup_shortcut_state desktop in
    (both_done focus shortcut, focus_sent, shortcut_sent)

pub record Bridge : Type 0 where
  pub reconciler : Reconciler
  pub focus_state : FocusSyncState
  pub geometry : GeometrySynchronizer
  pub shortcuts : List ShortcutReconciler
  pub latest_snapshot : CoreSnapshot
  pub reconciliation_pending : Bool

abbrev pub new_bridge : List ShortcutReconciler → Bridge
new_bridge shortcuts = record {
  reconciler = new_reconciler;
  focus_state = new_focus;
  geometry = new_synchronizer;
  shortcuts = shortcuts;
  latest_snapshot = empty_snapshot;
  reconciliation_pending = false;
}

-- A branch of the `select!`. The debounce's is taken only while a reconciliation is pending.
pub data Branch : Type 0 where
  keepalive focus_sync geometry_sync debounce : Branch
  event : Result EventError (Option Text) → Branch

-- `sync_shortcuts_once(..).await?` after what was sent before.
unfoldable pub then_shortcuts : Desktop → Bridge → List Sent → Answer Bridge × List Sent
then_shortcuts desktop b before =
    let (after, result, sent) = sync_shortcuts_once desktop b.latest_snapshot b.shortcuts in
    elim result [
      | err e ↦ (err e, before ++ sent)
      | ok _ ↦ (ok (record b { shortcuts = after }), before ++ sent)
    ]

-- A reconciliation, after which the shortcuts are looked at, once `f` is applied to them.
unfoldable pub reconcile_turn :
    Desktop
    → Core
    → Bridge
    → (List ShortcutReconciler → List ShortcutReconciler)
    → Answer Bridge × List Sent
unfolding then_shortcuts
reconcile_turn desktop core b f =
    let (after, result, sent) = reconcile_once desktop core b.reconciler in
    elim result [
      | err e ↦ (err e, sent)
      | ok snapshot ↦
          then_shortcuts desktop
            (record b { reconciler = after; latest_snapshot = snapshot; shortcuts = f b.shortcuts })
            sent
    ]

-- An event's line: a reload of the configuration invalidates what is known of the shortcuts.
unfoldable pub on_line : Bridge → Text → Bridge
on_line b line =
    if is_reconciliation_event line
    then record b {
      shortcuts =
          if starts_with line (chars "configreloaded>>")
          then map invalidate b.shortcuts
          else b.shortcuts;
      reconciliation_pending = true;
    }
    else b

unfoldable pub bridge_turn : Desktop → Core → Bridge → Branch → Answer Bridge × List Sent
unfolding reconcile_turn then_shortcuts on_line
bridge_turn desktop core b keepalive = reconcile_turn desktop core b (map invalidate)
bridge_turn desktop core b focus_sync =
    let (after, result, sent) = sync_focus_once desktop core b.focus_state in
    elim result [
      | err e ↦ (err e, sent)
      | ok snapshot ↦
          then_shortcuts desktop (record b { focus_state = after; latest_snapshot = snapshot }) sent
    ]
bridge_turn desktop core b geometry_sync =
    let (after, result, sent) = sync_geometry_once desktop b.latest_snapshot b.geometry in
    elim result [ err e ↦ (err e, sent) | ok _ ↦ (ok (record b { geometry = after }), sent) ]
bridge_turn desktop core b debounce =
    reconcile_turn desktop core (record b { reconciliation_pending = false })
      (λ shortcuts. shortcuts)
bridge_turn desktop core b (event (ok (some line))) = (ok (on_line b line), [])
bridge_turn desktop core b (event (ok none)) = (err failure, cleared ∷ [])
bridge_turn desktop core b (event (err e)) = (err failure, cleared ∷ [])
