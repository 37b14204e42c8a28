-- ===== src/Core/Session/Plans/Cover.antt =====
-- That the stop plans undo the start plans, in the time that a forced cleanup has.
use mathlib.Core.List.{Memᴰ}
use player_vox_over_crow.Common.{◌+◌, ◌*◌, ◌≤◌, ap, length, arith}
use player_vox_over_crow.Core.Session.Desktop.{
  DesktopSession, x11, hyprland, plasma_wayland, gnome_wayland, unsupported,
}
use player_vox_over_crow.Core.Session.Plans.{
  SessionCommand, stop_command, start_command_plan, stop_command_plan, maximum_plan_length,
  forced_cleanup_timeout_seconds,
}

-- Every unit that a desktop's start plan starts, its stop plan stops; and each stop command may take
-- its three seconds and a second for its child, with two to spare, within the time of a forced
-- cleanup.
pub stop_command_plan-covers :
    (desktop : DesktopSession) (command : SessionCommand)
    → Memᴰ command (start_command_plan desktop)
    → Memᴰ (stop_command command.target) (stop_command_plan desktop)
      × (length (stop_command_plan desktop) * (3 + 1) + 2 ≤ forced_cleanup_timeout_seconds)
unfolding start_command_plan stop_command_plan maximum_plan_length
stop_command_plan-covers x11 command m = elim m [
  | Memᴰ.head e ↦ (Memᴰ.head (ap (λ c. stop_command c.target) e), omega arith)
  | Memᴰ.tail n ↦ elim n [ ]
]
stop_command_plan-covers plasma_wayland command m = elim m [
  | Memᴰ.head e ↦ (Memᴰ.head (ap (λ c. stop_command c.target) e), omega arith)
  | Memᴰ.tail n ↦ elim n [ ]
]
stop_command_plan-covers gnome_wayland command m = elim m [
  | Memᴰ.head e ↦ (Memᴰ.head (ap (λ c. stop_command c.target) e), omega arith)
  | Memᴰ.tail n ↦ elim n [ ]
]
stop_command_plan-covers hyprland command m = elim m [
  | Memᴰ.head e ↦ (Memᴰ.tail (Memᴰ.head (ap (λ c. stop_command c.target) e)), omega arith)
  | Memᴰ.tail n ↦ elim n [
    | Memᴰ.head e ↦ (Memᴰ.head (ap (λ c. stop_command c.target) e), omega arith)
    | Memᴰ.tail k ↦ elim k [ ]
  ]
]
stop_command_plan-covers unsupported command m = elim m [ ]
