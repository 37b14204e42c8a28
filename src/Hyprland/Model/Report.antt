-- ===== src/Hyprland/Model/Report.antt =====
-- What a window report says of its window.
use player_vox_over_crow.Common.{
  ◌≤◌, ◌<◌, ◌≡◌, true, false, some, List, inl, inr, arith, Option-cases,
}
use player_vox_over_crow.Common.Text.{Text}
use player_vox_over_crow.Common.Int.{pos}
use player_vox_over_crow.Hyprland.Model.{
  HyprWindow, HyprMonitor, WindowAddress, WindowReport, i32_max, parse_address, from_window,
  window_rect,
}

pub parse_address-raw :
    (value : Text) (a : WindowAddress) → parse_address value ≡ some a → a.raw ≡ value
unfolding parse_address
parse_address-raw value a h = ground arith

-- A report is made of a mapped, visible window of a class, with its address and class, at its place;
-- the process number is the window's and positive within 32 bits, and both sides of the rectangle are
-- positive within 31 bits.
pub from_window-fields :
    (w : HyprWindow) (monitors : List HyprMonitor) (r : WindowReport)
    → from_window w monitors ≡ some r
    → (w.mapped ≡ true)
      × (w.hidden ≡ false)
      × (r.address.raw ≡ w.address)
      × (r.app_id ≡ w.class)
      × (w.pid ≡ pos r.pid)
      × (0 < r.pid)
      × (r.pid ≤ i32_max)
      × (w.size_x ≡ pos r.rect.width)
      × (0 < r.rect.width)
      × (r.rect.width ≤ i32_max)
      × (w.size_y ≡ pos r.rect.height)
      × (0 < r.rect.height)
      × (r.rect.height ≤ i32_max)
unfolding from_window window_rect
from_window-fields w monitors r h = elim (Option-cases (parse_address w.address)) [
  | inl e ↦ ground arith
  | inr (a, e) ↦ let q = parse_address-raw w.address a e in ground arith
]
