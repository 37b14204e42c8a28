-- ===== src/Hyprland/Focus.antt =====
-- crates/overcrow-hyprland/src/bridge.rs: the tags by which the compositor blocks the game's input
-- and the overlay takes it, and when the focus is moved.
pub mod Tags
pub mod Plan
use player_vox_over_crow.Common.{
  Bool, true, false, not, ◌&&◌, ◌||◌, Option, none, some, List, [], ◌∷◌, ◌++◌, any, keep, opt_eq,
  is_some, is_none, if◌then◌else◌,
}
use player_vox_over_crow.Common.Options.{map_option, ◌>>=◌, ◌>>◌, guard, find, is_empty, flat_map}
use player_vox_over_crow.Common.Text.{Text, chars, text_eq}
use player_vox_over_crow.Protocol.{
  OverlayMode, passive, interactive, CoreSnapshot, GameWindow, mode_eq,
}
use player_vox_over_crow.Hyprland.Model.{
  HyprWindow, WindowAddress, address_eq, overlay_app_id, parse_address,
}
use player_vox_over_crow.Hyprland.Geometry.{is_game_window, only}

abbrev pub interactive_tag : Text
interactive_tag = chars "overcrow-interactive"

abbrev pub game_input_blocked_tag : Text
game_input_blocked_tag = chars "overcrow-game-input-blocked"

pub record FocusSyncState : Type 0 where
  pub observed_mode : Option OverlayMode
  pub interactive_focus_pending : Bool
  pub passive_focus_pending : Bool

abbrev pub new_focus : FocusSyncState
new_focus = record {
  observed_mode = none;
  interactive_focus_pending = false;
  passive_focus_pending = false;
}

abbrev pub enter_mode : FocusSyncState → OverlayMode → FocusSyncState
enter_mode s interactive = record {
  observed_mode = some interactive;
  interactive_focus_pending = true;
  passive_focus_pending = false;
}
enter_mode s passive = record {
  observed_mode = some passive;
  interactive_focus_pending = false;
  passive_focus_pending = opt_eq mode_eq s.observed_mode (some interactive);
}

unfoldable pub observe_mode : FocusSyncState → OverlayMode → FocusSyncState
observe_mode s mode = if opt_eq mode_eq s.observed_mode (some mode) then s else enter_mode s mode

pub record FocusPlan : Type 0 where
  pub commands : List Text
  pub clear_core : Bool

pub record InteractionTargets : Type 0 where
  pub game : WindowAddress
  pub overlay : WindowAddress

abbrev pub has_tag : Text → HyprWindow → Bool
has_tag tag w = any (λ candidate. text_eq candidate tag) w.tags

unfoldable pub tag_command : Text → Text → WindowAddress → Text
tag_command sign tag address =
    chars "dispatch tagwindow " ++ (sign ++ (tag ++ (chars " address:" ++ address.raw)))

abbrev pub focus_command : WindowAddress → Text
focus_command address = chars "dispatch focuswindow address:" ++ address.raw

-- `intended.is_none_or(|target| target != &address)`.
abbrev pub is_unintended : Option WindowAddress → WindowAddress → Bool
is_unintended none address = true
is_unintended (some target) address = not (address_eq target address)

-- The command for a window that has the tag and should not.
unfoldable pub untag : Text → Option WindowAddress → HyprWindow → List Text
untag tag intended w = elim (parse_address w.address) [
  | none ↦ []
  | some address ↦
      if has_tag tag w && is_unintended intended address
      then tag_command (chars "-") tag address ∷ []
      else []
]

-- `is_some_and` on the first window of the address.
abbrev pub target_has_tag : List HyprWindow → Text → Option WindowAddress → Bool
target_has_tag clients tag none = false
target_has_tag clients tag (some address) =
    elim (find (λ (w : HyprWindow). text_eq w.address address.raw) clients) [
      | none ↦ false
      | some w ↦ has_tag tag w
    ]

abbrev pub add_tag : Text → Option WindowAddress → Bool → List Text
add_tag tag (some address) false = tag_command (chars "+") tag address ∷ []
add_tag tag _ _ = []

unfoldable pub reconcile_window_tag :
    List HyprWindow → Text → Option WindowAddress → List Text × Bool
unfolding untag
reconcile_window_tag clients tag intended =
    let tagged = target_has_tag clients tag intended in
    (flat_map (untag tag intended) clients ++ add_tag tag intended tagged, tagged)

unfoldable pub unique_overlay_address : List HyprWindow → Option WindowAddress
unique_overlay_address clients = do
  overlay ← only (
      keep (λ (w : HyprWindow). w.mapped && (not w.hidden && text_eq w.class overlay_app_id))
        clients)
  parse_address overlay.address

unfoldable pub validated_game_address : List HyprWindow → CoreSnapshot → Option WindowAddress
validated_game_address clients snapshot = do
  game ← snapshot.active_game
  pid ← game.pid
  app_id ← game.app_id
  window ← only (keep (is_game_window pid app_id) clients)
  parse_address window.address

unfoldable pub interaction_targets : List HyprWindow → CoreSnapshot → Option InteractionTargets
unfolding validated_game_address unique_overlay_address
interaction_targets clients snapshot = do
  game ← validated_game_address clients snapshot
  overlay ← unique_overlay_address clients
  some (record { game = game; overlay = overlay })

abbrev pub is_at : Option HyprWindow → WindowAddress → Bool
is_at none address = false
is_at (some w) address = text_eq w.address address.raw

-- The interactive branch of the plan, after the commands for the tags.
unfoldable pub interactive_focus :
    FocusSyncState → InteractionTargets → Option HyprWindow → Bool → FocusSyncState × List Text
interactive_focus s targets active tags_settled =
    if tags_settled
      && (not (is_at active targets.overlay)
          && ((is_none active || is_at active targets.game)
              && (s.interactive_focus_pending || is_at active targets.game)))
    then (record s { interactive_focus_pending = false }, focus_command targets.overlay ∷ [])
    else (s, [])

abbrev pub focus_found : Option WindowAddress → List Text
focus_found none = []
focus_found (some address) = focus_command address ∷ []

abbrev pub has_managed_tag : HyprWindow → Bool
has_managed_tag w =
    any (λ tag. text_eq tag interactive_tag || text_eq tag game_input_blocked_tag) w.tags

-- The passive branch.
unfoldable pub passive_focus :
    FocusSyncState → List HyprWindow → CoreSnapshot → FocusSyncState × List Text
passive_focus s clients snapshot =
    if mode_eq snapshot.overlay_mode passive
      && (s.passive_focus_pending && not (any has_managed_tag clients))
    then (
      record s { passive_focus_pending = false },
      focus_found (validated_game_address clients snapshot),
    )
    else (s, [])

-- `then(|| interaction_targets(clients, snapshot)).flatten()`.
unfoldable pub wanted_targets : List HyprWindow → CoreSnapshot → Option InteractionTargets
wanted_targets clients snapshot =
    if mode_eq snapshot.overlay_mode interactive then interaction_targets clients snapshot else none

abbrev pub effective_mode : Option InteractionTargets → OverlayMode
effective_mode none = passive
effective_mode (some targets) = interactive

-- The commands for both tags, and whether both targets have theirs.
unfoldable pub tag_commands : List HyprWindow → Option InteractionTargets → List Text × Bool
unfolding reconcile_window_tag
tag_commands clients targets =
    let (game, game_tagged) =
      reconcile_window_tag clients game_input_blocked_tag
        (map_option (λ (t : InteractionTargets). t.game) targets) in
    let (overlay, overlay_tagged) =
      reconcile_window_tag clients interactive_tag
        (map_option (λ (t : InteractionTargets). t.overlay) targets) in
    (game ++ overlay, game_tagged && (overlay_tagged && is_empty (game ++ overlay)))

abbrev pub move_focus :
    FocusSyncState
    → Option InteractionTargets
    → List HyprWindow
    → Option HyprWindow
    → CoreSnapshot
    → Bool
    → FocusSyncState × List Text
move_focus s none clients active snapshot tags_settled = passive_focus s clients snapshot
move_focus s (some targets) clients active snapshot tags_settled =
    interactive_focus s targets active tags_settled

unfoldable pub focus_plan :
    FocusSyncState → List HyprWindow → Option HyprWindow → CoreSnapshot → FocusSyncState × FocusPlan
unfolding wanted_targets observe_mode tag_commands interactive_focus passive_focus
focus_plan s clients active snapshot =
    let targets = wanted_targets clients snapshot in
    let tags = tag_commands clients targets in
    let focus =
      move_focus (observe_mode s (effective_mode targets)) targets clients active snapshot tags.1 in
    (
      focus.0,
      record {
        commands = tags.0 ++ focus.1;
        clear_core = mode_eq snapshot.overlay_mode interactive && is_none targets;
      },
    )

-- `cleanup_commands`: both tags of every window.
unfoldable pub cleanup_window : HyprWindow → List Text
cleanup_window w = elim (parse_address w.address) [
  | none ↦ []
  | some address ↦
      flat_map
        (λ (tag : Text). if has_tag tag w then tag_command (chars "-") tag address ∷ [] else [])
        (game_input_blocked_tag ∷ interactive_tag ∷ [])
]

unfoldable pub cleanup_commands : List HyprWindow → List Text
unfolding cleanup_window
cleanup_commands clients = flat_map cleanup_window clients
