-- ===== src/Config/Widgets/Profile.antt =====
-- crates/overcrow-config/src/widgets.rs: the widgets, their settings and the default profile. Floats
-- (`f32`) are in units of 2^-149.
use player_vox_over_crow.Common.{ℕ, ◌*◌, ◌^◌, Bool, true, false, List, [], ◌∷◌, if◌then◌else◌}
use player_vox_over_crow.Common.Float.{Float, above, is_positive}

abbrev pub widget_schema_version : ℕ
widget_schema_version = 3

abbrev pub discord_participant_limit_min : ℕ
discord_participant_limit_min = 2

abbrev pub discord_participant_limit_max : ℕ
discord_participant_limit_max = 16

unfoldable pub widget_scale_min : Float
widget_scale_min = above (3 * 2 ^ 147)

unfoldable pub widget_scale_max : Float
widget_scale_max = above (7 * 2 ^ 147)

unfoldable pub widget_panel_min_height : Float
widget_panel_min_height = above (160 * 2 ^ 149)

unfoldable pub widget_panel_max : Float
widget_panel_max = above (900 * 2 ^ 149)

pub data WidgetId : Type 0 where
  session clock performance manual_stopwatch media notes warframe_status : WidgetId
  warframe_fissures warframe_market warframe_sortie warframe_invasions : WidgetId
  twitch_chat discord_voice : WidgetId

abbrev pub all_widgets : List WidgetId
all_widgets =
    session ∷ clock ∷ performance ∷ manual_stopwatch ∷ media ∷ notes ∷ warframe_status
    ∷ warframe_fissures ∷ warframe_market ∷ warframe_sortie ∷ warframe_invasions ∷ twitch_chat
    ∷ discord_voice ∷ []

pub record WidgetPosition : Type 0 where
  pub x : Float
  pub y : Float

-- The nearest `f32` of each literal: 0.12, 0.18, 0.28, 0.45, 0.5, 0.72 and 1.0.
unfoldable pub default_position : WidgetId → WidgetPosition
default_position session = record { x = above 0; y = above 0 }
default_position clock = record { x = above (2 ^ 149); y = above 0 }
default_position performance = record { x = above 0; y = above (2 ^ 149) }
default_position manual_stopwatch = record { x = above (2 ^ 149); y = above (2 ^ 149) }
default_position media = record { x = above (2 ^ 148); y = above 0 }
default_position notes = record { x = above (2 ^ 148); y = above (2 ^ 149) }
default_position warframe_status = record { x = above (2 ^ 148); y = above (16106127 * 2 ^ 122) }
default_position warframe_fissures = record { x = above (2 ^ 149); y = above (15099494 * 2 ^ 124) }
default_position warframe_market = record { x = above 0; y = above (15099494 * 2 ^ 124) }
default_position warframe_sortie = record { x = above 0; y = above (12079596 * 2 ^ 123) }
default_position warframe_invasions = record { x = above (2 ^ 149); y = above (12079596 * 2 ^ 125) }
default_position twitch_chat = record { x = above (2 ^ 149); y = above (9395241 * 2 ^ 124) }
default_position discord_voice = record { x = above 0; y = above (9395241 * 2 ^ 124) }

abbrev pub pixels : ℕ → Float
pixels n = above (n * 2 ^ 149)

unfoldable pub default_panel_size : WidgetId → Float × Float
default_panel_size warframe_status = (pixels 380, pixels 240)
default_panel_size warframe_fissures = (pixels 440, pixels 340)
default_panel_size warframe_market = (pixels 400, pixels 420)
default_panel_size warframe_sortie = (pixels 400, pixels 300)
default_panel_size warframe_invasions = (pixels 440, pixels 360)
default_panel_size twitch_chat = (pixels 420, pixels 360)
default_panel_size discord_voice = (pixels 280, pixels 160)
default_panel_size notes = (pixels 360, pixels 280)
default_panel_size media = (pixels 320, pixels 160)
default_panel_size _ = (above 0, above 0)

pub record WidgetSettings : Type 0 where
  pub enabled : Bool
  pub show_in_passive : Bool
  pub position : WidgetPosition
  pub scale : Float
  pub width : Float
  pub height : Float
  pub transparent_background : Bool

unfoldable pub with_passive : WidgetId → Bool → Bool → WidgetSettings
unfolding default_position default_panel_size
with_passive id enabled show_in_passive = record {
  enabled = enabled;
  show_in_passive = show_in_passive;
  position = default_position id;
  scale = above (2 ^ 149);
  width = (default_panel_size id).0;
  height = (default_panel_size id).1;
  transparent_background = false;
}

unfoldable pub new_settings : WidgetId → Bool → WidgetSettings
unfolding with_passive
new_settings id enabled = with_passive id enabled false

unfoldable pub effective_panel_size : WidgetSettings → WidgetId → Float × Float
unfolding default_panel_size
effective_panel_size s id = (
  if is_positive s.width then s.width else (default_panel_size id).0,
  if is_positive s.height then s.height else (default_panel_size id).1,
)

pub record ClockDisplaySettings : Type 0 where
  pub show_date : Bool

pub data PerformanceLayout : Type 0 where
  vertical horizontal : PerformanceLayout

pub record PerformanceDisplaySettings : Type 0 where
  pub layout : PerformanceLayout

pub record NotesDisplaySettings : Type 0 where
  pub show_note : Bool
  pub show_checklist : Bool

pub data DiscordVoiceAlignment : Type 0 where
  left right : DiscordVoiceAlignment

pub record DiscordVoiceDisplaySettings : Type 0 where
  pub participant_limit : ℕ  -- u8
  pub alignment : DiscordVoiceAlignment

pub record WidgetProfile : Type 0 where
  pub schema_version : ℕ  -- u32
  pub session : WidgetSettings
  pub clock : WidgetSettings
  pub clock_display : ClockDisplaySettings
  pub performance : WidgetSettings
  pub performance_display : PerformanceDisplaySettings
  pub manual_stopwatch : WidgetSettings
  pub media : WidgetSettings
  pub notes : WidgetSettings
  pub notes_display : NotesDisplaySettings
  pub warframe_status : WidgetSettings
  pub warframe_fissures : WidgetSettings
  pub warframe_market : WidgetSettings
  pub warframe_sortie : WidgetSettings
  pub warframe_invasions : WidgetSettings
  pub twitch_chat : WidgetSettings
  pub discord_voice : WidgetSettings
  pub discord_voice_display : DiscordVoiceDisplaySettings
  pub warframe_nightwave : WidgetSettings

unfoldable pub default_profile : WidgetProfile
unfolding new_settings
default_profile = record {
  schema_version = widget_schema_version;
  session = new_settings session true;
  clock = new_settings clock false;
  clock_display = record { show_date = true };
  performance = new_settings performance false;
  performance_display = record { layout = horizontal };
  manual_stopwatch = new_settings manual_stopwatch false;
  media = new_settings media false;
  notes = new_settings notes false;
  notes_display = record { show_note = true; show_checklist = true };
  warframe_status = with_passive warframe_status false true;
  warframe_fissures = with_passive warframe_fissures false true;
  warframe_market = with_passive warframe_market false false;
  warframe_sortie = with_passive warframe_sortie false true;
  warframe_invasions = with_passive warframe_invasions false true;
  twitch_chat = with_passive twitch_chat false false;
  discord_voice = with_passive discord_voice false true;
  discord_voice_display = record { participant_limit = 8; alignment = left };
  warframe_nightwave = with_passive warframe_status false true;
}

unfoldable pub settings : WidgetProfile → WidgetId → WidgetSettings
settings p session = p.session
settings p clock = p.clock
settings p performance = p.performance
settings p manual_stopwatch = p.manual_stopwatch
settings p media = p.media
settings p notes = p.notes
settings p warframe_status = p.warframe_status
settings p warframe_fissures = p.warframe_fissures
settings p warframe_market = p.warframe_market
settings p warframe_sortie = p.warframe_sortie
settings p warframe_invasions = p.warframe_invasions
settings p twitch_chat = p.twitch_chat
settings p discord_voice = p.discord_voice

-- A write through `settings_mut`.
unfoldable pub settings_mut : WidgetProfile → WidgetId → WidgetSettings → WidgetProfile
settings_mut p session s = record p { session = s }
settings_mut p clock s = record p { clock = s }
settings_mut p performance s = record p { performance = s }
settings_mut p manual_stopwatch s = record p { manual_stopwatch = s }
settings_mut p media s = record p { media = s }
settings_mut p notes s = record p { notes = s }
settings_mut p warframe_status s = record p { warframe_status = s }
settings_mut p warframe_fissures s = record p { warframe_fissures = s }
settings_mut p warframe_market s = record p { warframe_market = s }
settings_mut p warframe_sortie s = record p { warframe_sortie = s }
settings_mut p warframe_invasions s = record p { warframe_invasions = s }
settings_mut p twitch_chat s = record p { twitch_chat = s }
settings_mut p discord_voice s = record p { discord_voice = s }
