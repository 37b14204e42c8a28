-- ===== src/Hyprland/Shortcut/Reconciler/Settling.antt =====
-- When the next probe of the bindings is needed.
use player_vox_over_crow.Common.{
  ◌≡◌, Bool, true, false, ◌&&◌, Option, none, some, List, is_some, arith,
}
use player_vox_over_crow.Common.Text.{Text}
use player_vox_over_crow.Hyprland.Shortcut.{GlobalShortcut, HyprBinding}
use player_vox_over_crow.Hyprland.Shortcut.Binding.{advertised_portal_action}
use player_vox_over_crow.Hyprland.Shortcut.Reconciler.{
  ShortcutDecision, idle, wait_for_portal, conflict, ambiguous_ownership, bind, unbind,
  ShortcutReconciler, observe_desired, needs_probe, plan_observed, plan, act,
}

-- Whether a decision leaves something to be done for the same wish.
abbrev pub is_open : Bool → ShortcutDecision → Bool
is_open desired idle = false
is_open desired wait_for_portal = true
is_open desired (bind request) = false
is_open desired (unbind request) = desired
is_open desired conflict = false
is_open desired ambiguous_ownership = desired

plan_observed-open :
    (r : ShortcutReconciler) (desired : Bool) (advertised : Option Text)
    (bindings : List HyprBinding)
    → r.last_desired ≡ some (desired && is_some advertised)
    → (needs_probe (act (plan_observed r desired advertised bindings)) desired).1
      ≡ is_open desired (plan_observed r desired advertised bindings).1
unfolding plan_observed needs_probe act
plan_observed-open r true none bindings h = ground arith
plan_observed-open r false none bindings h = ground arith
plan_observed-open r false (some action) bindings h = ground arith
plan_observed-open r true (some action) bindings h = ground arith

observe_desired-last :
    (r : ShortcutReconciler) (desired : Bool)
    → (observe_desired r desired).last_desired ≡ some desired
unfolding observe_desired
observe_desired-last r desired = ground arith

-- Once the request of a decision is taken, the bindings are looked at again for the same wish exactly
-- when the decision left something to be done: the portal's action was waited for, a binding was
-- removed or is ambiguous while the shortcut is wanted.
pub plan-open :
    (r : ShortcutReconciler) (desired : Bool) (globals : List GlobalShortcut)
    (bindings : List HyprBinding)
    → (needs_probe (act (plan r desired globals bindings)) desired).1
      ≡ is_open desired (plan r desired globals bindings).1
unfolding plan
plan-open r desired globals bindings =
    let advertised = advertised_portal_action r.spec globals in
    let wish = desired && is_some advertised in
    plan_observed-open (observe_desired r wish) desired advertised bindings
      (observe_desired-last r wish)
