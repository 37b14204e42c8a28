-- ===== src/Config/Widgets/Validation.antt =====
-- crates/overcrow-config/src/widgets.rs: the derived equalities and the validation of a profile.
use player_vox_over_crow.Common.{
  ◌^◌, Bool, true, false, not, ◌&&◌, ◌||◌, Option, none, some, List, [], ◌∷◌, leb, bool_eq, all,
  ◌==◌, if◌then◌else◌,
}
use player_vox_over_crow.Common.Result.{Result, ok, err}
use player_vox_over_crow.Common.Float.{Float, above, is_finite, float_eq, float_le}
use player_vox_over_crow.Config.Widgets.Profile.{
  widget_schema_version, discord_participant_limit_min, discord_participant_limit_max,
  widget_scale_min, widget_scale_max, widget_panel_min_height, widget_panel_max, all_widgets,
  settings, WidgetId, WidgetPosition, WidgetSettings, PerformanceLayout, DiscordVoiceAlignment,
  WidgetProfile, vertical, horizontal, left, right,
}

-- The derived `==`.
unfoldable pub widget_eq : WidgetSettings → WidgetSettings → Bool
widget_eq a b =
    bool_eq a.enabled b.enabled
    && (bool_eq a.show_in_passive b.show_in_passive
        && (float_eq a.position.x b.position.x
            && (float_eq a.position.y b.position.y
                && (float_eq a.scale b.scale
                    && (float_eq a.width b.width
                        && (float_eq a.height b.height
                            && bool_eq a.transparent_background b.transparent_background))))))

abbrev pub layout_eq : PerformanceLayout → PerformanceLayout → Bool
layout_eq vertical vertical = true
layout_eq horizontal horizontal = true
layout_eq _ _ = false

abbrev pub alignment_eq : DiscordVoiceAlignment → DiscordVoiceAlignment → Bool
alignment_eq left left = true
alignment_eq right right = true
alignment_eq _ _ = false

unfoldable pub profile_eq : WidgetProfile → WidgetProfile → Bool
unfolding settings widget_eq
profile_eq a b =
    a.schema_version == b.schema_version
    && (all (λ id. widget_eq (settings a id) (settings b id)) all_widgets
        && (bool_eq a.clock_display.show_date b.clock_display.show_date
            && (layout_eq a.performance_display.layout b.performance_display.layout
                && (bool_eq a.notes_display.show_note b.notes_display.show_note
                    && (bool_eq a.notes_display.show_checklist b.notes_display.show_checklist
                        && (a.discord_voice_display.participant_limit
                              == b.discord_voice_display.participant_limit
                            && (alignment_eq a.discord_voice_display.alignment
                                  b.discord_voice_display.alignment
                                && widget_eq a.warframe_nightwave b.warframe_nightwave)))))))

pub data WidgetProfileError : Type 0 where
  unsupported_schema_version empty_notes_display : WidgetProfileError
  invalid_discord_participant_limit : WidgetProfileError
  invalid_position invalid_scale invalid_size : WidgetId → WidgetProfileError

unfoldable pub valid_ratio : Float → Bool
valid_ratio v = is_finite v && (float_le (above 0) v && float_le v (above (2 ^ 149)))

unfoldable pub valid_scale : Float → Bool
unfolding widget_scale_min widget_scale_max
valid_scale v = is_finite v && (float_le widget_scale_min v && float_le v widget_scale_max)

unfoldable pub valid_panel_dim : Float → Bool
unfolding widget_panel_min_height widget_panel_max
valid_panel_dim v =
    is_finite v
    && (float_eq v (above 0) || float_le widget_panel_min_height v && float_le v widget_panel_max)

unfoldable pub position_is_valid : WidgetPosition → Bool
position_is_valid p = valid_ratio p.x && valid_ratio p.y

-- The body of the loop over the widgets.
unfoldable pub widget_error : WidgetId → WidgetSettings → Option WidgetProfileError
widget_error id s =
    if not (position_is_valid s.position)
    then some (invalid_position id)
    else if not (valid_scale s.scale)
    then some (invalid_scale id)
    else if not (valid_panel_dim s.width) || not (valid_panel_dim s.height)
    then some (invalid_size id)
    else none

abbrev pub or_else {ℓ} : {A : Type ℓ} → Option A → Option A → Option A
or_else none next = next
or_else (some e) next = some e

unfoldable pub widgets_error : WidgetProfile → List WidgetId → Option WidgetProfileError
widgets_error p [] = none
widgets_error p (id ∷ ids) = or_else (widget_error id (settings p id)) (widgets_error p ids)

abbrev pub reject {ℓ} :
    {A : Type ℓ}
    → Option WidgetProfileError
    → Result WidgetProfileError A
    → Result WidgetProfileError A
reject none r = r
reject (some e) r = err e

unfoldable pub validate_profile : WidgetProfile → Result WidgetProfileError WidgetProfile
validate_profile p =
    if not (p.schema_version == widget_schema_version)
    then err unsupported_schema_version
    else reject (widgets_error p all_widgets) (
        if not p.notes_display.show_note && not p.notes_display.show_checklist
        then err empty_notes_display
        else if not (
            leb discord_participant_limit_min p.discord_voice_display.participant_limit
            && leb p.discord_voice_display.participant_limit discord_participant_limit_max)
        then err invalid_discord_participant_limit
        else ok p)
