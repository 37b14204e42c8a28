-- ===== src/Hyprland/Model.antt =====
-- crates/overcrow-hyprland/src/model.rs: the windows, monitors and workspaces that Hyprland reports,
-- and the window report that is made of them.
pub mod Report
use player_vox_over_crow.Common.{
  ℕ, ◌≤◌, Bool, true, false, not, ◌&&◌, ◌||◌, Option, none, some, List, [], ◌∷◌, length, all, leb,
  ltb, if◌then◌else◌,
}
use player_vox_over_crow.Common.Options.{◌>>=◌, ◌>>◌, guard, then_some, find, is_empty}
use player_vox_over_crow.Common.Text.{Text, chars, text_eq, byte_len}
use player_vox_over_crow.Common.Int.{ℤ, pos, negsuc, int_eq, int_le}
use player_vox_over_crow.Common.Float.{Float, is_finite, is_positive}
use player_vox_over_crow.Common.Time.{u32_max}
use player_vox_over_crow.Protocol.{Rect}

abbrev pub overlay_app_id : Text
overlay_app_id = chars "io.github.overcrow.Overlay"

abbrev pub i32_max : ℕ
i32_max = 2147483647

pub record HyprWorkspace : Type 0 where
  pub id : ℤ  -- i32
  pub name : Text

pub record HyprWindow : Type 0 where
  pub address : Text
  pub mapped : Bool
  pub hidden : Bool
  pub at_x : ℤ  -- `at[0]`, an i64
  pub at_y : ℤ
  pub size_x : ℤ  -- `size[0]`, an i64
  pub size_y : ℤ
  pub monitor : ℤ  -- i32
  pub class : Text
  pub title : Text
  pub pid : ℤ  -- i64
  pub workspace : Option HyprWorkspace
  pub tags : List Text

pub record HyprWorkspaceId : Type 0 where
  pub id : ℤ  -- i32

pub record HyprMonitor : Type 0 where
  pub id : ℤ  -- i32
  pub scale : Float  -- f64
  pub focused : Bool
  pub active_workspace : Option HyprWorkspaceId

pub record WindowAddress : Type 0 where
  pub raw : Text

pub record WindowReport : Type 0 where
  pub address : WindowAddress
  pub pid : ℕ  -- i32, positive
  pub title : Text
  pub app_id : Text
  pub rect : Rect
  pub scale : Float  -- f64
  pub workspace_id : ℤ  -- i32

-- `i32::try_from`.
abbrev pub to_i32 : ℤ → Option ℤ
to_i32 z = then_some (int_le (negsuc i32_max) z && int_le z (pos i32_max)) z

-- A width or a height: `u32::try_from`, positive and within `i32`.
abbrev pub extent : ℤ → Option ℕ
extent (pos n) = then_some (leb n u32_max && (ltb 0 n && leb n i32_max)) n
extent (negsuc n) = none

unfoldable pub window_rect : HyprWindow → Option Rect
window_rect w = do
  x ← to_i32 w.at_x
  y ← to_i32 w.at_y
  width ← extent w.size_x
  height ← extent w.size_y
  some (record { x = x; y = y; width = width; height = height })

abbrev pub is_ascii_hexdigit : ℕ → Bool
is_ascii_hexdigit c =
    leb b'0' c && leb c b'9' || leb b'a' c && leb c b'f' || leb b'A' c && leb c b'F'

-- `strip_prefix`.
abbrev pub strip_prefix : Text → Text → Option Text
strip_prefix [] s = some s
strip_prefix (p ∷ ps) [] = none
strip_prefix (p ∷ ps) (c ∷ s) = if text_eq (p ∷ []) (c ∷ []) then strip_prefix ps s else none

unfoldable pub parse_address : Text → Option WindowAddress
parse_address value = do
  digits ← strip_prefix (chars "0x") value
  guard (not (is_empty digits || ltb 16 (byte_len digits) || not (all is_ascii_hexdigit digits)))
  some (record { raw = value })

abbrev pub address_eq : WindowAddress → WindowAddress → Bool
address_eq a b = text_eq a.raw b.raw

-- `i32::try_from(pid).ok().filter(|pid| *pid > 0)`.
abbrev pub positive_pid : ℤ → Option ℕ
positive_pid (pos n) = then_some (leb n i32_max && ltb 0 n) n
positive_pid (negsuc n) = none

abbrev pub is_positive_id : ℤ → Bool
is_positive_id (pos n) = ltb 0 n
is_positive_id (negsuc n) = false

unfoldable pub from_window : HyprWindow → List HyprMonitor → Option WindowReport
from_window w monitors = do
  guard (not (not w.mapped || w.hidden || is_empty w.class))
  address ← parse_address w.address
  pid ← positive_pid w.pid
  rect ← window_rect w
  monitor ← find (λ (m : HyprMonitor). int_eq m.id w.monitor) monitors
  guard (not (not (is_finite monitor.scale) || not (is_positive monitor.scale)))
  workspace ← w.workspace
  guard (is_positive_id workspace.id)
  some (record {
    address = address;
    pid = pid;
    title = w.title;
    app_id = w.class;
    rect = rect;
    scale = monitor.scale;
    workspace_id = workspace.id;
  })

unfoldable pub is_overlay : WindowReport → Bool
is_overlay r = text_eq r.app_id overlay_app_id
