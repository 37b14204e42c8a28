-- ===== src/Hyprland/Shortcut/Reconciler.antt =====
-- crates/overcrow-hyprland/src/shortcut.rs, `ShortcutReconciler`: when a shortcut is bound and
-- unbound.
pub mod Grounds
pub mod Decision
pub mod Settling
use player_vox_over_crow.Common.{
  ℕ, ◌-◌, ◌==◌, Bool, true, false, not, ◌&&◌, ◌||◌, Option, none, some, List, [], ◌∷◌, length, keep,
  opt_eq, bool_eq, is_some, if◌then◌else◌,
}
use player_vox_over_crow.Common.Options.{is_empty}
use player_vox_over_crow.Common.Text.{Text}
use player_vox_over_crow.Hyprland.Shortcut.{
  ShortcutBackend, ShortcutSpec, GlobalShortcut, HyprBinding,
}
use player_vox_over_crow.Hyprland.Shortcut.Binding.{
  matches_accelerator, owns, owns_action, advertised_portal_action, bind_request_for_action,
  unbind_request,
}

pub data ShortcutDecision : Type 0 where
  idle wait_for_portal conflict ambiguous_ownership : ShortcutDecision
  bind unbind : (request : Text) → ShortcutDecision

pub data ReconcileState : Type 0 where
  unknown absent owned conflicting : ReconcileState

pub record ShortcutReconciler : Type 0 where
  pub spec : ShortcutSpec
  pub backend : ShortcutBackend
  pub state : ReconcileState
  pub last_desired : Option Bool
  pub warning_reported : Bool

abbrev pub new_reconciler : ShortcutSpec → ShortcutBackend → ShortcutReconciler
new_reconciler spec backend = record {
  spec = spec;
  backend = backend;
  state = unknown;
  last_desired = none;
  warning_reported = false;
}

abbrev pub is_conflicting : ReconcileState → Bool
is_conflicting conflicting = true
is_conflicting _ = false

unfoldable pub invalidate : ShortcutReconciler → ShortcutReconciler
invalidate r = record r { state = unknown }

unfoldable pub mark_bound : ShortcutReconciler → ShortcutReconciler
mark_bound r = record r { state = owned; warning_reported = false }

unfoldable pub mark_unbound : ShortcutReconciler → ShortcutReconciler
mark_unbound r = record r { state = absent; warning_reported = false }

unfoldable pub take_warning : ShortcutReconciler → ShortcutReconciler × Bool
take_warning r =
    if not (is_conflicting r.state) || r.warning_reported
    then (r, false)
    else (record r { warning_reported = true }, true)

unfoldable pub observe_desired : ShortcutReconciler → Bool → ShortcutReconciler
observe_desired r desired =
    if not (opt_eq bool_eq r.last_desired (some desired))
    then record r { last_desired = some desired; state = unknown; warning_reported = false }
    else r

abbrev pub is_settled : Bool → ReconcileState → Bool
is_settled true owned = true
is_settled true conflicting = true
is_settled false absent = true
is_settled false conflicting = true
is_settled _ _ = false

unfoldable pub needs_probe : ShortcutReconciler → Bool → ShortcutReconciler × Bool
unfolding observe_desired
needs_probe r desired =
    let observed = observe_desired r desired in (observed, not (is_settled desired observed.state))

-- The branch without a wish: the match on the counts of its own and of the others' bindings.
unfoldable pub plan_release :
    ShortcutReconciler → Bool → ℕ → ℕ → ShortcutReconciler × ShortcutDecision
plan_release r desired owned_count foreign_count =
    if owned_count == 0
    then (
      record r { state = absent; warning_reported = false },
      if desired then wait_for_portal else idle,
    )
    else if owned_count == 1 && foreign_count == 0
    then (
      record r { state = owned; warning_reported = false },
      unbind (unbind_request r.spec r.backend),
    )
    else (record r { state = conflicting }, ambiguous_ownership)

-- The branch with a wish and an advertised action.
unfoldable pub plan_binding :
    ShortcutReconciler → Text → List HyprBinding → ℕ → ℕ → ShortcutReconciler × ShortcutDecision
plan_binding r action matching owned_count foreign_count =
    let desired_owned = length (keep (λ b. owns_action r.spec b action) matching) in
    if desired_owned == 1 && (owned_count == 1 && foreign_count == 0)
    then (record r { state = owned; warning_reported = false }, idle)
    else if desired_owned == 0 && (owned_count == 1 && foreign_count == 0)
    then (
      record r { state = owned; warning_reported = false },
      unbind (unbind_request r.spec r.backend),
    )
    else if not (is_empty matching)
    then (record r { state = conflicting }, conflict)
    else (
      record r { warning_reported = false },
      bind (bind_request_for_action r.spec r.backend action),
    )

abbrev pub matching_bindings : ShortcutSpec → List HyprBinding → List HyprBinding
matching_bindings spec bindings = keep (matches_accelerator spec) bindings

abbrev pub owned_bindings : ShortcutSpec → List HyprBinding → List HyprBinding
owned_bindings spec bindings = keep (owns spec) (matching_bindings spec bindings)

-- The plan once the wish is observed. Without an advertised action the wish is not effective, so
-- that the code's second test of the action does not fail.
unfoldable pub plan_observed :
    ShortcutReconciler
    → Bool
    → Option Text
    → List HyprBinding
    → ShortcutReconciler × ShortcutDecision
unfolding plan_release plan_binding
plan_observed r desired none bindings =
    let owned_count = length (owned_bindings r.spec bindings) in
    plan_release r desired owned_count (length (matching_bindings r.spec bindings) - owned_count)
plan_observed r false (some action) bindings =
    let owned_count = length (owned_bindings r.spec bindings) in
    plan_release r false owned_count (length (matching_bindings r.spec bindings) - owned_count)
plan_observed r true (some action) bindings =
    let owned_count = length (owned_bindings r.spec bindings) in
    let matching = matching_bindings r.spec bindings in
    if is_conflicting r.state
    then (r, conflict)
    else plan_binding r action matching owned_count (length matching - owned_count)

unfoldable pub plan :
    ShortcutReconciler
    → Bool
    → List GlobalShortcut
    → List HyprBinding
    → ShortcutReconciler × ShortcutDecision
unfolding plan_observed observe_desired
plan r desired globals bindings =
    let advertised = advertised_portal_action r.spec globals in
    plan_observed (observe_desired r (desired && is_some advertised)) desired advertised bindings

-- crates/overcrow-hyprland/src/bridge.rs, `sync_shortcuts_once`: what is sent for a decision, and the
-- state once the compositor has taken it.
unfoldable pub request_of : ShortcutDecision → Option Text
request_of (bind request) = some request
request_of (unbind request) = some request
request_of _ = none

unfoldable pub act : ShortcutReconciler × ShortcutDecision → ShortcutReconciler
unfolding mark_bound mark_unbound take_warning
act (r, bind request) = mark_bound r
act (r, unbind request) = mark_unbound r
act (r, conflict) = (take_warning r).0
act (r, ambiguous_ownership) = (take_warning r).0
act (r, idle) = r
act (r, wait_for_portal) = r
