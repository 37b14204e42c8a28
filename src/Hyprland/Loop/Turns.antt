-- ===== src/Hyprland/Loop/Turns.antt =====
-- A reconciliation that an event asks for is kept until its turn.
use player_vox_over_crow.Common.{
  ◌≡◌, inl, inr, sym, ap, ◌∙◌, Bool, true, false, none, some, List, map, Bool-cases, if◌then◌else◌,
}
use player_vox_over_crow.Common.Result.{ok, err, Result-cases}
use player_vox_over_crow.Common.Text.{Text}
use player_vox_over_crow.Hyprland.Shortcut.Reconciler.{ShortcutReconciler, invalidate}
use player_vox_over_crow.Hyprland.Events.{is_reconciliation_event}
use player_vox_over_crow.Hyprland.Bridge.{
  Answer, Sent, Core, Desktop, reconcile_once, sync_focus_once, sync_geometry_once,
  sync_shortcuts_once,
}
use player_vox_over_crow.Hyprland.Loop.{
  Bridge, Branch, keepalive, focus_sync, geometry_sync, debounce, event, then_shortcuts,
  reconcile_turn, on_line, bridge_turn,
}

-- Whether a reconciliation is pending after a turn that found it so.
abbrev pub pending_after : Branch → Bool → Bool
pending_after debounce pending = false
pending_after (event (ok (some line))) pending =
    if is_reconciliation_event line then true else pending
pending_after _ pending = pending

module _ (desktop : Desktop) (core : Core) where
  then_shortcuts-pending :
      (b after : Bridge) (before : List Sent)
      → (then_shortcuts desktop b before).0 ≡ ok after
      → after.reconciliation_pending ≡ b.reconciliation_pending
  unfolding then_shortcuts
  then_shortcuts-pending b after before h =
      elim (Result-cases (sync_shortcuts_once desktop b.latest_snapshot b.shortcuts).1) [
        | inl (f, e) ↦ let k = rw (then_shortcuts, e) at h in cc
        | inr (u, e) ↦
            let made : ok (record b {
              shortcuts = (sync_shortcuts_once desktop b.latest_snapshot b.shortcuts).0;
            })
                ≡ ok after =
              rw (then_shortcuts, e) at h in
            ap reconciliation_of (sym made)
      ]
    where
      reconciliation_of : Answer Bridge → Bool
      reconciliation_of (ok c) = c.reconciliation_pending
      reconciliation_of (err e) = false

  reconcile_turn-pending :
      (b after : Bridge) (f : List ShortcutReconciler → List ShortcutReconciler)
      → (reconcile_turn desktop core b f).0 ≡ ok after
      → after.reconciliation_pending ≡ b.reconciliation_pending
  unfolding reconcile_turn
  reconcile_turn-pending b after f h =
      elim (Result-cases (reconcile_once desktop core b.reconciler).1) [
        | inl (g, e) ↦ let k = rw (reconcile_turn, e) at h in cc
        | inr (snapshot, e) ↦
            then_shortcuts-pending
              (record b {
                reconciler = (reconcile_once desktop core b.reconciler).0;
                latest_snapshot = snapshot;
                shortcuts = f b.shortcuts;
              })
              after (reconcile_once desktop core b.reconciler).2 (rw (reconcile_turn, e) at h)
      ]

  ok-pending :
      (b after : Bridge)
      → ◌≡◌ {A = Answer Bridge} (ok b) (ok after)
      → after.reconciliation_pending ≡ b.reconciliation_pending
  ok-pending b after h = let same : b ≡ after = cc in ap (λ c. c.reconciliation_pending) (sym same)

  -- A turn after which the bridge goes on leaves a reconciliation pending exactly when the turn's
  -- event asks for one, or one was pending before and the turn is not the one of the debounce.
  pub bridge_turn-pending :
      (b after : Bridge) (branch : Branch)
      → (bridge_turn desktop core b branch).0 ≡ ok after
      → after.reconciliation_pending ≡ pending_after branch b.reconciliation_pending
  unfolding bridge_turn
  bridge_turn-pending b after keepalive h = reconcile_turn-pending b after (map invalidate) h
  bridge_turn-pending b after focus_sync h =
      elim (Result-cases (sync_focus_once desktop core b.focus_state).1) [
        | inl (g, e) ↦ let k = rw (bridge_turn, e) at h in cc
        | inr (snapshot, e) ↦
            then_shortcuts-pending
              (record b {
                focus_state = (sync_focus_once desktop core b.focus_state).0;
                latest_snapshot = snapshot;
              })
              after (sync_focus_once desktop core b.focus_state).2 (rw (bridge_turn, e) at h)
      ]
  bridge_turn-pending b after geometry_sync h =
      elim (Result-cases (sync_geometry_once desktop b.latest_snapshot b.geometry).1) [
        | inl (g, e) ↦ let k = rw (bridge_turn, e) at h in cc
        | inr (u, e) ↦
            ok-pending
              (record b { geometry = (sync_geometry_once desktop b.latest_snapshot b.geometry).0 })
              after (rw (bridge_turn, e) at h)
      ]
  bridge_turn-pending b after debounce h =
      reconcile_turn-pending (record b { reconciliation_pending = false }) after (λ s. s) h
  bridge_turn-pending b after (event (ok (some line))) h =
      ok-pending (on_line b line) after h ∙ on_line-pending b line
    where
      on_line-pending :
          (c : Bridge) (l : Text)
          → (on_line c l).reconciliation_pending
            ≡ (if is_reconciliation_event l then true else c.reconciliation_pending)
      on_line-pending c l = elim (Bool-cases (is_reconciliation_event l)) [
        | inl e ↦ rw (on_line, e)
        | inr e ↦ rw (on_line, e)
      ]
  bridge_turn-pending b after (event (ok none)) h = cc
  bridge_turn-pending b after (event (err e)) h = cc
