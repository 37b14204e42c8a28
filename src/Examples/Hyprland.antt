-- ===== src/Examples/Hyprland.antt =====
-- The bridge's theorems for the desktop of the examples.
use player_vox_over_crow.Common.{
  ◌≡◌, ◌↔◌, refl, true, false, none, some, List, [], ◌∷◌, ◌++◌, map, ◌&&◌, is_none,
}
use player_vox_over_crow.Common.Options.{is_empty}
use player_vox_over_crow.Common.Counts.{Every}
use player_vox_over_crow.Common.Result.{is_ok, ok}
use player_vox_over_crow.Common.Text.{Text, chars}
use player_vox_over_crow.Config.Accelerator.{accelerator_is_valid}
use player_vox_over_crow.Protocol.{interactive, mode_eq}
use player_vox_over_crow.Hyprland.Reconcile.{new_reconciler, reconcile}
use player_vox_over_crow.Hyprland.Reconcile.Choice.{Settled, reconcile-Settled}
use player_vox_over_crow.Hyprland.Geometry.{new_synchronizer, commands}
use player_vox_over_crow.Hyprland.Geometry.Settling.{commands-again}
use player_vox_over_crow.Hyprland.Geometry.Leading as Leading
use player_vox_over_crow.Hyprland.Focus.{
  new_focus, interactive_tag, reconcile_window_tag, focus_plan, wanted_targets, interaction_targets,
}
use player_vox_over_crow.Hyprland.Focus.Tags.{InOrder, Carried, reconcile_window_tag-settled}
use player_vox_over_crow.Hyprland.Focus.Plan.{plan_tags, Moved, focus_plan-Moved}
use player_vox_over_crow.Hyprland.Shortcut.{
  compatibility, parse, portal_shortcut_name, bind_description,
}
use player_vox_over_crow.Hyprland.Shortcut.Binding.{
  from_owned_binding, advertised_portal_action, unbind_request,
}
use player_vox_over_crow.Hyprland.Shortcut.Parsing.{parse-valid}
use player_vox_over_crow.Hyprland.Shortcut.Owned.{from_owned_binding-from_settings}
use player_vox_over_crow.Hyprland.Shortcut.Reconciler as Shortcuts
use player_vox_over_crow.Hyprland.Shortcut.Reconciler.Decision.{Justified, plan-Justified}
use player_vox_over_crow.Hyprland.Shortcut.Reconciler.Settling.{is_open, plan-open}
use player_vox_over_crow.Hyprland.Events.{Bytes, buffer, read_event_line}
use player_vox_over_crow.Hyprland.Events.Reading.{concat, line_in, read_event_line-line_in}
use player_vox_over_crow.Hyprland.Bindings.Bounds.{Bounded, parse_bindings_text-Bounded}
use player_vox_over_crow.Hyprland.Bridge.{reconcile_once}
use player_vox_over_crow.Hyprland.Bridge.Passes.{Told, reconcile_once-Told}
use player_vox_over_crow.Hyprland.Bridge.Requests.{Removes, cleanup_requests-Removes}
use player_vox_over_crow.Hyprland.Loop.{new_bridge, event}
use player_vox_over_crow.Hyprland.Loop.Turns.{pending_after, bridge_turn-pending}
use player_vox_over_crow.Examples.Desktop.{
  game_client, overlay_client, clients, monitors, snapshot, shortcut, spec, binding, globals,
  desktop, core, bindings_text,
}
use player_vox_over_crow.Examples.Answers.{
  identity, live_game, tracked, made, owned_binding, parsed, removed, line_read,
}

reconcile_once-Told_example : Told core desktop (reconcile_once desktop core new_reconciler)
reconcile_once-Told_example = reconcile_once-Told desktop core new_reconciler

reconcile-Settled_example :
    Settled new_reconciler clients monitors false
      (reconcile new_reconciler (some game_client) clients monitors false)
reconcile-Settled_example =
    reconcile-Settled new_reconciler clients monitors (some game_client) false

commands-again_example :
    commands
      (commands new_synchronizer snapshot (some game_client) clients).0
      snapshot
      (some game_client)
      clients
    ≡ ((commands new_synchronizer snapshot (some game_client) clients).0, [])
commands-again_example = commands-again new_synchronizer snapshot (some game_client) clients

commands-Sent_example :
    Leading.Sent new_synchronizer
      (some overlay_client)
      snapshot
      clients
      identity
      live_game
      (commands new_synchronizer snapshot (some overlay_client) clients).1
commands-Sent_example =
    Leading.commands-Sent new_synchronizer (some overlay_client) snapshot clients identity live_game
      tracked

reconcile_window_tag-settled_example :
    (is_empty
        (reconcile_window_tag clients interactive_tag (some (record { raw = chars "0x20" }))).0
      ≡ true)
    ↔ (Every (InOrder interactive_tag (some (record { raw = chars "0x20" }))) clients
        × Carried clients interactive_tag (some (record { raw = chars "0x20" })))
reconcile_window_tag-settled_example =
    reconcile_window_tag-settled clients interactive_tag (some (record { raw = chars "0x20" }))

focus_plan-Moved_example :
    ((focus : List Text) × ((focus_plan new_focus clients none snapshot).1.commands
        ≡ (plan_tags clients snapshot).0 ++ focus)
      × Moved new_focus clients none snapshot
          (wanted_targets clients snapshot)
          (plan_tags clients snapshot).1
          focus)
    × ((focus_plan new_focus clients none snapshot).1.clear_core ≡ (
        mode_eq snapshot.overlay_mode interactive
        && is_none (interaction_targets clients snapshot)))
focus_plan-Moved_example = focus_plan-Moved new_focus clients none snapshot

plan-Justified_example :
    Justified
      (Shortcuts.new_reconciler spec compatibility)
      true
      (advertised_portal_action spec globals)
      (binding ∷ [])
      (Shortcuts.plan (Shortcuts.new_reconciler spec compatibility) true globals (binding ∷ [])).1
plan-Justified_example =
    plan-Justified (Shortcuts.new_reconciler spec compatibility) true globals (binding ∷ [])

plan-open_example :
    (Shortcuts.needs_probe
      (Shortcuts.act (Shortcuts.plan (Shortcuts.new_reconciler spec compatibility) true globals []))
      true).1
    ≡ is_open true (Shortcuts.plan (Shortcuts.new_reconciler spec compatibility) true globals []).1
plan-open_example = plan-open (Shortcuts.new_reconciler spec compatibility) true globals []

parse-valid_example :
    is_ok (parse (chars "Meta+Alt+o") portal_shortcut_name bind_description)
    ≡ accelerator_is_valid (chars "Meta+Alt+o")
parse-valid_example = parse-valid (chars "Meta+Alt+o") portal_shortcut_name bind_description

from_owned_binding-from_settings_example : from_owned_binding binding ≡ some spec
from_owned_binding-from_settings_example =
    from_owned_binding-from_settings shortcut spec binding made owned_binding

abbrev chunks : List Bytes
chunks = chars "openwin" ∷ chars "dow>>1\r\nclose" ∷ []

read_event_line-line_in_example :
    (read_event_line (map buffer chunks)).0 ≡ line_in [] (concat chunks)
read_event_line-line_in_example = read_event_line-line_in chunks refl

parse_bindings_text-Bounded_example : Bounded (binding ∷ [])
parse_bindings_text-Bounded_example =
    parse_bindings_text-Bounded bindings_text (binding ∷ []) parsed

cleanup_requests-Removes_example :
    Removes compatibility (binding ∷ []) (unbind_request spec compatibility)
cleanup_requests-Removes_example =
    cleanup_requests-Removes compatibility [] (binding ∷ []) (binding ∷ [])
      (unbind_request spec compatibility) removed

bridge_turn-pending_example :
    (record (new_bridge []) { reconciliation_pending = true }).reconciliation_pending
    ≡ pending_after (event (ok (some (chars "pin>>1")))) false
bridge_turn-pending_example =
    bridge_turn-pending desktop core (new_bridge [])
      (record (new_bridge []) { reconciliation_pending = true })
      (event (ok (some (chars "pin>>1")))) line_read
