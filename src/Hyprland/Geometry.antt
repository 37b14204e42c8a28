-- ===== src/Hyprland/Geometry.antt =====
-- crates/overcrow-hyprland/src/geometry.rs: the overlay follows the game's window, and the game
-- follows an overlay that the player moves.
pub mod Settling
pub mod Leading
use player_vox_over_crow.Common.{
  ℕ, ◌==◌, Bool, true, false, not, ◌&&◌, ◌||◌, Option, none, some, List, [], ◌∷◌, ◌++◌, all, keep,
  list_eq, opt_eq, if◌then◌else◌,
}
use player_vox_over_crow.Common.Options.{◌>>=◌, ◌>>◌, guard, find, is_empty, filter_map, flat_map}
use player_vox_over_crow.Common.Text.{Text, chars, text_eq}
use player_vox_over_crow.Common.Int.{ℤ, pos, int_eq}
use player_vox_over_crow.Common.Print.{print_ℕ, print_ℤ}
use player_vox_over_crow.Protocol.{
  Rect, GameWindow, OverlayMode, interactive, CoreSnapshot, rect_eq, mode_eq,
}
use player_vox_over_crow.Hyprland.Model.{
  HyprWindow, WindowAddress, address_eq, is_positive_id, overlay_app_id, parse_address, window_rect,
}

pub record LiveClient : Type 0 where
  pub address : WindowAddress
  pub rect : Rect
  pub workspace_id : ℤ  -- i32

pub record TrackedIdentity : Type 0 where
  pub pid : ℕ  -- u32
  pub app_id : Text
  pub address : WindowAddress

abbrev pub tracked_eq : TrackedIdentity → TrackedIdentity → Bool
tracked_eq a b = a.pid == b.pid && (text_eq a.app_id b.app_id && address_eq a.address b.address)

pub record GeometrySynchronizer : Type 0 where
  pub identity : Option TrackedIdentity
  pub converged : Option Rect
  pub last_dispatch : Option (List Text)

abbrev pub new_synchronizer : GeometrySynchronizer
new_synchronizer = record { identity = none; converged = none; last_dispatch = none }

unfoldable pub live_client : HyprWindow → Option LiveClient
live_client w = do
  guard (not (not w.mapped || w.hidden))
  workspace ← w.workspace
  guard (is_positive_id workspace.id)
  address ← parse_address w.address
  rect ← window_rect w
  some (record { address = address; rect = rect; workspace_id = workspace.id })

unfoldable pub active_overlay : Option HyprWindow → List LiveClient → Option LiveClient
active_overlay active overlays = do
  window ← active
  guard (text_eq window.class overlay_app_id)
  address ← parse_address window.address
  find (λ (o : LiveClient). address_eq o.address address) overlays

unfoldable pub exact_geometry_commands : WindowAddress → Rect → List Text
exact_geometry_commands address rect =
    (chars "dispatch resizewindowpixel exact "
      ++ (print_ℕ rect.width
          ++ (chars " " ++ (print_ℕ rect.height ++ (chars ",address:" ++ address.raw)))))
    ∷ (chars "dispatch movewindowpixel exact "
        ++ (print_ℤ rect.x
            ++ (chars " " ++ (print_ℤ rect.y ++ (chars ",address:" ++ address.raw)))))
    ∷ []

unfoldable pub overlay_follow_commands : LiveClient → LiveClient → List Text
unfolding exact_geometry_commands
overlay_follow_commands overlay game =
    (chars "dispatch movetoworkspacesilent "
      ++ (print_ℤ game.workspace_id ++ (chars ",address:" ++ overlay.address.raw)))
    ∷ (exact_geometry_commands overlay.address game.rect
        ++ ((chars "dispatch alterzorder top,address:" ++ overlay.address.raw) ∷ []))

unfoldable pub dispatch_once : GeometrySynchronizer → List Text → GeometrySynchronizer × List Text
dispatch_once g commands =
    if is_empty commands || opt_eq (list_eq text_eq) g.last_dispatch (some commands)
    then (g, [])
    else (record g { last_dispatch = some commands }, commands)

abbrev pub is_game_window : ℕ → Text → HyprWindow → Bool
is_game_window pid app_id w =
    w.mapped
    && (not w.hidden
        && (int_eq w.pid (pos pid)
            && (text_eq w.class app_id && not (text_eq w.class overlay_app_id))))

abbrev pub only {ℓ} : {A : Type ℓ} → List A → Option A
only [] = none
only (x ∷ []) = some x
only (x ∷ y ∷ xs) = none

-- The game that the snapshot names, when exactly one live window is its.
unfoldable pub tracked_game : CoreSnapshot → List HyprWindow → Option (TrackedIdentity × LiveClient)
tracked_game snapshot clients = do
  game ← snapshot.active_game
  pid ← game.pid
  app_id ← game.app_id
  window ← only (keep (is_game_window pid app_id) clients)
  live ← live_client window
  some (record { pid = pid; app_id = app_id; address = live.address }, live)

-- The state after the identity is compared with the one that was tracked.
unfoldable pub track : GeometrySynchronizer → TrackedIdentity → GeometrySynchronizer
track g identity =
    if opt_eq tracked_eq g.identity (some identity)
    then g
    else record { identity = some identity; converged = none; last_dispatch = none }

unfoldable pub live_overlays : List HyprWindow → List LiveClient
live_overlays clients = filter_map live_client (
    keep (λ (w : HyprWindow). w.mapped && (not w.hidden && text_eq w.class overlay_app_id)) clients)

abbrev pub is_aligned : LiveClient → LiveClient → Bool
is_aligned game overlay =
    rect_eq overlay.rect game.rect && int_eq overlay.workspace_id game.workspace_id

-- The overlay whose place the game takes: the active one, when the rectangle had settled and it is
-- the only one that moved.
unfoldable pub leading_overlay :
    GeometrySynchronizer
    → OverlayMode
    → Option HyprWindow
    → List LiveClient
    → LiveClient
    → Option LiveClient
leading_overlay g mode active overlays game = do
  guard (mode_eq mode interactive && opt_eq rect_eq g.converged (some game.rect))
  leading ← active_overlay active overlays
  guard (
      int_eq leading.workspace_id game.workspace_id
      && (not (rect_eq leading.rect game.rect)
          && all (λ (o : LiveClient). address_eq o.address leading.address || is_aligned game o)
              overlays))
  some leading

unfoldable pub wanted_commands : Option LiveClient → List LiveClient → LiveClient → List Text
wanted_commands (some leading) overlays game = exact_geometry_commands game.address leading.rect
wanted_commands none overlays game =
    flat_map (λ o. overlay_follow_commands o game)
      (keep (λ (o : LiveClient). not (is_aligned game o)) overlays)

unfoldable pub follow :
    GeometrySynchronizer
    → OverlayMode
    → Option HyprWindow
    → List LiveClient
    → LiveClient
    → GeometrySynchronizer × List Text
unfolding dispatch_once leading_overlay wanted_commands
follow g mode active overlays game =
    if is_empty overlays
    then (record g { converged = none; last_dispatch = none }, [])
    else if all (is_aligned game) overlays
    then (record g { converged = some game.rect; last_dispatch = none }, [])
    else dispatch_once g
        (wanted_commands (leading_overlay g mode active overlays game) overlays game)

unfoldable pub commands :
    GeometrySynchronizer
    → CoreSnapshot
    → Option HyprWindow
    → List HyprWindow
    → GeometrySynchronizer × List Text
unfolding tracked_game live_overlays track follow
commands g snapshot active clients = elim (tracked_game snapshot clients) [
  | none ↦ (new_synchronizer, [])
  | some (identity, game) ↦
      follow (track g identity) snapshot.overlay_mode active (live_overlays clients) game
]
