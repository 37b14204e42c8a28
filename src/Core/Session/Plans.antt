-- ===== src/Core/Session/Plans.antt =====
-- crates/overcrow-core/src/session.rs: the commands that start and stop a session's units.
pub mod Cover
use player_vox_over_crow.Common.{
  ℕ, ◌+◌, ◌*◌, Bool, true, false, List, [], ◌∷◌, length, bool_eq, ltb, if◌then◌else◌,
}
use player_vox_over_crow.Common.Text.{Text, chars}
use player_vox_over_crow.Core.Session.Desktop.{
  DesktopSession, x11, hyprland, plasma_wayland, gnome_wayland, unsupported,
}

pub record SessionCommand : Type 0 where
  pub verb : Text
  pub target : Text  -- `unit`

abbrev pub overlay_unit : Text
overlay_unit = chars "overcrow-overlay.service"

abbrev pub hyprland_unit : Text
hyprland_unit = chars "overcrow-hyprland.service"

abbrev pub start_command : Text → SessionCommand
start_command target = record { verb = chars "start"; target = target }

abbrev pub stop_command : Text → SessionCommand
stop_command target = record { verb = chars "stop"; target = target }

unfoldable pub start_command_plan : DesktopSession → List SessionCommand
start_command_plan hyprland = start_command overlay_unit ∷ start_command hyprland_unit ∷ []
start_command_plan x11 = start_command overlay_unit ∷ []
start_command_plan plasma_wayland = start_command overlay_unit ∷ []
start_command_plan gnome_wayland = start_command overlay_unit ∷ []
start_command_plan unsupported = []

unfoldable pub stop_command_plan : DesktopSession → List SessionCommand
stop_command_plan hyprland = stop_command hyprland_unit ∷ stop_command overlay_unit ∷ []
stop_command_plan unsupported = stop_command hyprland_unit ∷ stop_command overlay_unit ∷ []
stop_command_plan x11 = stop_command overlay_unit ∷ []
stop_command_plan plasma_wayland = stop_command overlay_unit ∷ []
stop_command_plan gnome_wayland = stop_command overlay_unit ∷ []

unfoldable pub transition_commands : DesktopSession → Bool → Bool → List SessionCommand
transition_commands desktop applied_running desired_running =
    if bool_eq applied_running desired_running
    then []
    else if desired_running
    then start_command_plan desktop
    else stop_command_plan desktop

-- The lengths of the five desktops' plans, in the order of the source's table.
abbrev pub stop_plan_lengths : List ℕ
unfolding stop_command_plan
stop_plan_lengths =
    length (stop_command_plan x11)
    ∷ length (stop_command_plan hyprland)
    ∷ length (stop_command_plan plasma_wayland)
    ∷ length (stop_command_plan gnome_wayland)
    ∷ length (stop_command_plan unsupported)
    ∷ []

unfoldable pub maximum_from : ℕ → List ℕ → ℕ
maximum_from maximum [] = maximum
maximum_from maximum (n ∷ rest) = maximum_from (if ltb maximum n then n else maximum) rest

unfoldable pub maximum_plan_length : List ℕ → ℕ
unfolding maximum_from
maximum_plan_length = maximum_from 0

abbrev pub max_stop_commands : ℕ
unfolding maximum_plan_length
max_stop_commands = maximum_plan_length stop_plan_lengths

-- In seconds: a command may take 3 and the reaping of its child 1; 2 are spare.
abbrev pub forced_cleanup_timeout_seconds : ℕ
forced_cleanup_timeout_seconds = (3 + 1) * max_stop_commands + 2
