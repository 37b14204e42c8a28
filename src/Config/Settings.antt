-- ===== src/Config/Settings.antt =====
-- crates/overcrow-config/src/model.rs: the lifecycle settings and their validation. A `BTreeSet` is
-- a list without duplicates.
pub mod Laws
use player_vox_over_crow.Common.{
  ℕ, Bool, true, false, not, Option, none, some, List, [], ◌∷◌, any, ◌==◌, if◌then◌else◌,
}
use player_vox_over_crow.Common.Result.{Result, ok, err}
use player_vox_over_crow.Common.Text.{Text, chars, text_eq, FilePath, is_absolute}
use player_vox_over_crow.Config.Accelerator.{accelerator_is_valid}

abbrev pub settings_schema_version : ℕ
settings_schema_version = 1

pub record ShortcutSettings : Type 0 where
  pub enabled : Bool
  pub accelerator : Text

pub record ManualGame : Type 0 where
  pub id : Text
  pub name : Text
  pub executable : FilePath

pub record LifecycleSettings : Type 0 where
  pub schema_version : ℕ  -- u32
  pub enabled : Bool
  pub selected_steam_app_ids : List ℕ
  pub manual_games : List ManualGame
  pub shortcut : ShortcutSettings

abbrev pub default_settings : LifecycleSettings
default_settings = record {
  schema_version = settings_schema_version;
  enabled = false;
  selected_steam_app_ids = [];
  manual_games = [];
  shortcut = record { enabled = true; accelerator = chars "Meta+Alt+O" };
}

pub data SettingsError : Type 0 where
  unsupported_schema_version zero_steam_app_id duplicate_manual_id : SettingsError
  non_absolute_executable malformed_accelerator : SettingsError

-- The loop over the manual games, with the ids seen so far.
unfoldable pub manual_games_error : List Text → List ManualGame → Option SettingsError
manual_games_error seen [] = none
manual_games_error seen (game ∷ games) =
    let rest = manual_games_error (game.id ∷ seen) games in
    if any (text_eq game.id) seen
    then some duplicate_manual_id
    else if not (is_absolute game.executable)
    then some non_absolute_executable
    else rest

abbrev pub or_error {ℓ} :
    {A : Type ℓ} → Option SettingsError → Result SettingsError A → Result SettingsError A
or_error none r = r
or_error (some e) r = err e

unfoldable pub validate : LifecycleSettings → Result SettingsError LifecycleSettings
unfolding manual_games_error
validate s =
    if not (s.schema_version == settings_schema_version)
    then err unsupported_schema_version
    else if any (λ id. id == 0) s.selected_steam_app_ids
    then err zero_steam_app_id
    else or_error (manual_games_error [] s.manual_games) (
        if not (accelerator_is_valid s.shortcut.accelerator)
        then err malformed_accelerator
        else ok s)

-- `deserialize_unique_steam_app_ids`: a repeated id is refused. The set holds the latest id first.
unfoldable pub unique_ids : List ℕ → List ℕ → Option (List ℕ)
unique_ids seen [] = some seen
unique_ids seen (id ∷ ids) =
    let rest = unique_ids (id ∷ seen) ids in if any (λ k. k == id) seen then none else rest
