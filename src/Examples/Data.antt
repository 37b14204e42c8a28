-- ===== src/Examples/Data.antt =====
-- A game with Steam id 10 as process 5, a child of its launcher 4, with settings that select it.
use player_vox_over_crow.Common.{true, none, some, [], ◌∷◌}
use player_vox_over_crow.Common.Text.{chars}
use player_vox_over_crow.Common.Float.{above}
use player_vox_over_crow.Common.Int.{pos}
use player_vox_over_crow.Protocol.{GameWindow}
use player_vox_over_crow.Config.Settings.{LifecycleSettings, default_settings}
use player_vox_over_crow.Core.Classifier.{ProcessInfo, ProcessTable}
use player_vox_over_crow.Core.Runtime.State.{WindowObservation}

abbrev pub selecting : LifecycleSettings
selecting = record default_settings { enabled = true; selected_steam_app_ids = 10 ∷ [] }

abbrev pub launcher : ProcessInfo
launcher = record {
  pid = 4;
  parent_pid = 0;
  start_ticks = 90;
  timing = none;
  resources = record { total_cpu_ticks = 20; resident_bytes = 1000 };
  name = chars "reaper";
  environment = (chars "SteamAppId", chars "10") ∷ [];
  command_line = [];
  executable = none;
}

abbrev pub game_process : ProcessInfo
game_process = record {
  pid = 5;
  parent_pid = 4;
  start_ticks = 100;
  timing = some (record { elapsed_at_observation = 7; observed_at = 20 });
  resources = record { total_cpu_ticks = 300; resident_bytes = 5000 };
  name = chars "game.exe";
  environment = [];
  command_line = [];
  executable = some (record { raw = chars "/games/game.exe" });
}

abbrev pub table : ProcessTable
table = (4, launcher) ∷ (5, game_process) ∷ []

abbrev pub window : WindowObservation
window = record {
  pid = some 5;
  app_id = none;
  title = chars "Game";
  rect = record { x = pos 0; y = pos 0; width = 800; height = 600 };
  scale = above 1;
  backend = chars "wayland";
}

abbrev pub game : GameWindow
game = record {
  pid = some 5;
  steam_app_id = some 10;
  app_id = none;
  title = chars "Game";
  rect = record { x = pos 0; y = pos 0; width = 800; height = 600 };
  scale = above 1;
  backend = chars "wayland";
}
