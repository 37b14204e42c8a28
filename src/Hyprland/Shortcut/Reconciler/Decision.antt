-- ===== src/Hyprland/Shortcut/Reconciler/Decision.antt =====
-- What the decision of a reconciler rests on.
use player_vox_over_crow.Common.{
  ℕ, ◌≡◌, inl, inr, refl, Bool, true, false, not, ◌&&◌, Option, some, List, length, opt_eq,
  opt_eq_iff, bool_eq, bool_eq_iff, is_some, Bool-cases, arith,
}
use player_vox_over_crow.Common.Counts.{Counts}
use player_vox_over_crow.Hyprland.Shortcut.{GlobalShortcut, HyprBinding}
use player_vox_over_crow.Common.Text.{Text}
use player_vox_over_crow.Hyprland.Shortcut.Binding.{advertised_portal_action}
use player_vox_over_crow.Hyprland.Shortcut.Ownership.{
  OnAccelerator, OwnedBy, Counts-matching, Counts-owned,
}
use player_vox_over_crow.Hyprland.Shortcut.Reconciler.{
  ShortcutDecision, unknown, conflicting, ReconcileState, ShortcutReconciler, observe_desired,
  matching_bindings, owned_bindings, plan, is_conflicting,
}
use player_vox_over_crow.Hyprland.Shortcut.Reconciler.Grounds.{Decided, plan_observed-Decided}

-- The decision with the counts of the bindings, by their fields.
abbrev pub Justified :
    ShortcutReconciler → Bool → Option Text → List HyprBinding → ShortcutDecision → Type 0
Justified r desired advertised bindings d =
    (on : ℕ) × (own : ℕ) × Counts (OnAccelerator r.spec) bindings on
    × Counts (OwnedBy r.spec) bindings own
    × Decided ((r.last_desired ≡ some true) × (r.state ≡ conflicting)) r.spec r.backend desired
        advertised bindings on own d

is_conflicting-eq : (s : ReconcileState) → is_conflicting s ≡ true → s ≡ conflicting
is_conflicting-eq unknown h = cc
is_conflicting-eq ReconcileState.absent h = cc
is_conflicting-eq ReconcileState.owned h = cc
is_conflicting-eq conflicting h = refl

kept_conflict :
    (r : ShortcutReconciler) (desired : Bool) (advertised : Option Text)
    → not (opt_eq bool_eq r.last_desired (some (desired && is_some advertised))) ≡ false
    → desired ≡ true
    → is_some advertised ≡ true
    → is_conflicting r.state ≡ true
    → (r.last_desired ≡ some true) × (r.state ≡ conflicting)
kept_conflict r desired advertised same wanted known h =
    let k : not (opt_eq bool_eq r.last_desired (some true)) ≡ false = rw (wanted, known) at same in
    (
      (opt_eq_iff bool_eq bool_eq_iff r.last_desired (some true)).0 (ground (arith, k)),
      is_conflicting-eq r.state h,
    )

-- The counts are those of the bindings whose fields put them on the accelerator, and of those whose
-- fields also name the shortcut's action, or its older name, with its description. A shortcut is
-- bound only when it is wanted, an action is advertised for it, and no binding is on its accelerator.
-- A binding is removed only when it is the one of its accelerator, is owned, and is unwanted, has no
-- action advertised or is bound to another one than the advertised. Nothing is done only when nothing
-- is owned that is unwanted, or the one binding is owned and bound to the advertised action. The
-- portal is waited for only when no action is advertised and nothing is owned. There is a conflict
-- only when the shortcut is wanted and advertised, and either a conflict was found for the same wish
-- before, or a binding is on the accelerator and none is owned or it is not alone. Ownership is
-- ambiguous only when the shortcut is unwanted or unadvertised and an owned binding is not alone.
pub plan-Justified :
    (r : ShortcutReconciler) (desired : Bool) (globals : List GlobalShortcut)
    (bindings : List HyprBinding)
    → Justified r desired
        (advertised_portal_action r.spec globals)
        bindings
        (plan r desired globals bindings).1
unfolding plan
plan-Justified r desired globals bindings =
    let advertised = advertised_portal_action r.spec globals in
    let fresh : ShortcutReconciler = record r {
      last_desired = some (desired && is_some advertised);
      state = unknown;
      warning_reported = false;
    } in
    let kept = (r.last_desired ≡ some true) × (r.state ≡ conflicting) in
    (
      length (matching_bindings r.spec bindings),
      length (owned_bindings r.spec bindings),
      Counts-matching r.spec bindings,
      Counts-owned r.spec bindings,
      elim (Bool-cases
          (not (opt_eq bool_eq r.last_desired (some (desired && is_some advertised))))) [
            | inl e ↦
                rw (observe_desired, e)
                  (plan_observed-Decided kept fresh bindings desired advertised (λ w k h. cc))
            | inr e ↦
                rw (observe_desired, e)
                  (plan_observed-Decided kept r bindings desired advertised
                    (kept_conflict r desired advertised e))
          ],
    )
