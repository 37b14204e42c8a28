-- ===== src/Examples/Desktop.antt =====
-- The game of process 136279 on workspace 1 with the overlay over it, in interactive mode, and the
-- overlay's shortcut Meta+Alt+O with its binding.
use player_vox_over_crow.Common.{true, false, some, List, [], ◌∷◌}
use player_vox_over_crow.Common.Text.{Text, chars}
use player_vox_over_crow.Common.Float.{above}
use player_vox_over_crow.Common.Int.{pos}
use player_vox_over_crow.Common.Result.{ok}
use player_vox_over_crow.Protocol.{Rect, CoreSnapshot, empty_snapshot, interactive}
use player_vox_over_crow.Config.Settings.{ShortcutSettings}
use player_vox_over_crow.Hyprland.Model.{HyprWindow, HyprMonitor, overlay_app_id}
use player_vox_over_crow.Hyprland.Shortcut.{
  ShortcutSpec, GlobalShortcut, HyprBinding, compatibility, portal_shortcut_name, bind_description,
}
use player_vox_over_crow.Hyprland.Bridge.{Core, Desktop}

abbrev pub game_class : Text
game_class = chars "steam_app_1623730"

abbrev pub game_rect : Rect
game_rect = record { x = pos 12; y = pos 36; width = 2417; height = 1680 }

abbrev pub game_client : HyprWindow
game_client = record {
  address = chars "0x10";
  mapped = true;
  hidden = false;
  at_x = pos 12;
  at_y = pos 36;
  size_x = pos 2417;
  size_y = pos 1680;
  monitor = pos 0;
  class = game_class;
  title = chars "Pal";
  pid = pos 136279;
  workspace = some (record { id = pos 1; name = chars "1" });
  tags = [];
}

abbrev pub overlay_client : HyprWindow
overlay_client = record game_client {
  address = chars "0x20";
  at_x = pos 200;
  class = overlay_app_id;
  title = chars "OverCrow";
  pid = pos 42;
}

abbrev pub clients : List HyprWindow
clients = game_client ∷ overlay_client ∷ []

abbrev pub monitors : List HyprMonitor
monitors =
    (record {
      id = pos 0;
      scale = above 5;
      focused = true;
      active_workspace = some (record { id = pos 1 });
    })
    ∷ []

abbrev pub snapshot : CoreSnapshot
snapshot = record empty_snapshot {
  active_game = some (record {
    pid = some 136279;
    steam_app_id = some 1623730;
    app_id = some game_class;
    title = chars "Pal";
    rect = game_rect;
    scale = above 5;
    backend = chars "wayland";
  });
  overlay_mode = interactive;
}

abbrev pub shortcut : ShortcutSettings
shortcut = record { enabled = true; accelerator = chars "Meta+Alt+o" }

abbrev pub spec : ShortcutSpec
spec = record {
  keys = chars "SUPER + ALT + O";
  key = chars "O";
  modmask = 72;
  portal_action = portal_shortcut_name;
  description = bind_description;
}

abbrev pub binding : HyprBinding
binding = record {
  modmask = 72;
  key = chars "O";
  description = bind_description;
  dispatcher = chars "global";
  arg = portal_shortcut_name;
}

abbrev pub globals : List GlobalShortcut
globals = (record { name = portal_shortcut_name; description = bind_description }) ∷ []

abbrev pub desktop : Desktop
desktop = record {
  active_window = ok (some game_client);
  clients = ok clients;
  monitors = ok monitors;
  global_shortcuts = ok globals;
  bindings = ok (binding ∷ []);
  shortcut_backend = ok compatibility;
  accepts = λ command. true;
}

abbrev pub core : Core
core = record { report = λ report. ok snapshot; clear = ok empty_snapshot; snapshot = ok snapshot }

abbrev pub bindings_text : Text
bindings_text =
    chars
      "bindd\n\tmodmask: 72\n\tkey: O\n\tdescription: OverCrow overlay\n\tdispatcher: global\n\targ: com.playervox.OverCrow:toggle-overlay\n\n"
