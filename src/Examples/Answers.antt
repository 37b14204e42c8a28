-- ===== src/Examples/Answers.antt =====
-- What the definitions give for the desktop of the examples.
use mathlib.Core.List.{Memᴰ}
use player_vox_over_crow.Common.{ℕ, ◌≡◌, refl, true, none, some, List, [], ◌∷◌}
use player_vox_over_crow.Common.Result.{ok}
use player_vox_over_crow.Common.Text.{Text, chars}
use player_vox_over_crow.Common.Int.{pos}
use player_vox_over_crow.Hyprland.Geometry.{TrackedIdentity, LiveClient, tracked_game}
use player_vox_over_crow.Hyprland.Shortcut.{compatibility, from_settings}
use player_vox_over_crow.Hyprland.Shortcut.Binding.{owns, unbind_request}
use player_vox_over_crow.Hyprland.Bindings.{parse_bindings_text}
use player_vox_over_crow.Hyprland.Bridge.{cleanup_requests}
use player_vox_over_crow.Hyprland.Loop.{new_bridge, event, bridge_turn}
use player_vox_over_crow.Examples.Desktop.{
  desktop, core, game_class, game_rect, clients, snapshot, shortcut, spec, binding, bindings_text,
}

abbrev pub identity : TrackedIdentity
identity = record { pid = 136279; app_id = game_class; address = record { raw = chars "0x10" } }

abbrev pub live_game : LiveClient
live_game = record {
  address = record { raw = chars "0x10" };
  rect = game_rect;
  workspace_id = pos 1;
}

pub tracked : tracked_game snapshot clients ≡ some (identity, live_game)
unfolding player_vox_over_crow.Common.Text.byte_len player_vox_over_crow.Hyprland.Model.window_rect
    player_vox_over_crow.Hyprland.Model.parse_address
    player_vox_over_crow.Hyprland.Geometry.live_client
    player_vox_over_crow.Hyprland.Geometry.tracked_game
tracked = refl

pub made : from_settings shortcut ≡ ok (some spec)
unfolding player_vox_over_crow.Common.Text.split player_vox_over_crow.Hyprland.Shortcut.modifier
    player_vox_over_crow.Hyprland.Shortcut.modifiers
    player_vox_over_crow.Hyprland.Shortcut.parse_parts player_vox_over_crow.Hyprland.Shortcut.parse
    player_vox_over_crow.Hyprland.Shortcut.from_settings
made = refl

pub owned_binding : owns spec binding ≡ true
unfolding player_vox_over_crow.Hyprland.Shortcut.Binding.matches_accelerator
    player_vox_over_crow.Hyprland.Shortcut.Binding.owns_action
    player_vox_over_crow.Hyprland.Shortcut.Binding.legacy_portal_action
    player_vox_over_crow.Hyprland.Shortcut.Binding.owns
owned_binding = refl

pub parsed : parse_bindings_text bindings_text ≡ ok (binding ∷ [])
unfolding player_vox_over_crow.Common.Text.byte_len player_vox_over_crow.Common.Text.split
    player_vox_over_crow.Common.Text.starts_with player_vox_over_crow.Common.Text.parse_digits
    player_vox_over_crow.Common.Text.parse_u32 player_vox_over_crow.Hyprland.Bindings.finish
    player_vox_over_crow.Hyprland.Bindings.set_text_field
    player_vox_over_crow.Hyprland.Bindings.finish_text_binding
    player_vox_over_crow.Hyprland.Bindings.lines player_vox_over_crow.Hyprland.Bindings.set_modmask
    player_vox_over_crow.Hyprland.Bindings.set_field
    player_vox_over_crow.Hyprland.Bindings.read_field
    player_vox_over_crow.Hyprland.Bindings.field_line
    player_vox_over_crow.Hyprland.Bindings.is_header
    player_vox_over_crow.Hyprland.Bindings.read_line
    player_vox_over_crow.Hyprland.Bindings.read_lines
    player_vox_over_crow.Hyprland.Bindings.parse_bindings_text
parsed = refl

pub removed :
    Memᴰ
      (unbind_request spec compatibility)
      (cleanup_requests compatibility [] (binding ∷ []) (binding ∷ []))
unfolding player_vox_over_crow.Hyprland.Shortcut.Binding.matches_accelerator
    player_vox_over_crow.Hyprland.Shortcut.Binding.modifier_names
    player_vox_over_crow.Hyprland.Shortcut.Binding.unsupported_bits
    player_vox_over_crow.Hyprland.Shortcut.Binding.known_binding_identity
    player_vox_over_crow.Hyprland.Shortcut.Binding.from_owned_binding
    player_vox_over_crow.Hyprland.Shortcut.Binding.owns_action
    player_vox_over_crow.Hyprland.Shortcut.Binding.legacy_portal_action
    player_vox_over_crow.Hyprland.Shortcut.Binding.owns
    player_vox_over_crow.Hyprland.Bridge.cleanup_requests
removed = Memᴰ.head refl

pub line_read :
    (bridge_turn desktop core (new_bridge []) (event (ok (some (chars "pin>>1"))))).0
    ≡ ok (record (new_bridge []) { reconciliation_pending = true })
unfolding player_vox_over_crow.Common.Text.starts_with
    player_vox_over_crow.Hyprland.Events.event_name
    player_vox_over_crow.Hyprland.Events.is_reconciliation_event
    player_vox_over_crow.Hyprland.Loop.on_line player_vox_over_crow.Hyprland.Loop.bridge_turn
line_read = refl
