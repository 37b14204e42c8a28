-- ===== src/Config/Widgets/Laws.antt =====
-- A profile's widgets as fields to read and write, and what validation asks of them.
use mathlib.Core.List.{Memᴰ}
use player_vox_over_crow.Common.{
  ◌≡◌, refl, ◌↔◌, ◌≤◌, Bool, true, false, not, ◌||◌, Option, none, some, List, [], ◌∷◌, arith,
  if◌then◌else◌,
}
use player_vox_over_crow.Common.Result.{ok, err}
use player_vox_over_crow.Config.Widgets.Profile.{
  WidgetId, WidgetSettings, WidgetProfile, all_widgets, settings, settings_mut,
  widget_schema_version, discord_participant_limit_min, discord_participant_limit_max,
}
use player_vox_over_crow.Config.Widgets.Validation.{
  WidgetProfileError, widget_error, widgets_error, validate_profile, reject, position_is_valid,
  valid_scale, valid_panel_dim, or_else,
}

-- Reading a widget's settings after writing them gives what was written, writing what is there
-- changes nothing, and of two writes to one widget the second counts.
pub settings_mut-settings :
    (p : WidgetProfile) (id : WidgetId) (s t : WidgetSettings)
    → (settings (settings_mut p id s) id ≡ s)
      × (settings_mut p id (settings p id) ≡ p)
      × (settings_mut (settings_mut p id s) id t ≡ settings_mut p id t)
unfolding settings settings_mut
settings_mut-settings p WidgetId.session s t = (refl, refl, refl)
settings_mut-settings p WidgetId.clock s t = (refl, refl, refl)
settings_mut-settings p WidgetId.performance s t = (refl, refl, refl)
settings_mut-settings p WidgetId.manual_stopwatch s t = (refl, refl, refl)
settings_mut-settings p WidgetId.media s t = (refl, refl, refl)
settings_mut-settings p WidgetId.notes s t = (refl, refl, refl)
settings_mut-settings p WidgetId.warframe_status s t = (refl, refl, refl)
settings_mut-settings p WidgetId.warframe_fissures s t = (refl, refl, refl)
settings_mut-settings p WidgetId.warframe_market s t = (refl, refl, refl)
settings_mut-settings p WidgetId.warframe_sortie s t = (refl, refl, refl)
settings_mut-settings p WidgetId.warframe_invasions s t = (refl, refl, refl)
settings_mut-settings p WidgetId.twitch_chat s t = (refl, refl, refl)
settings_mut-settings p WidgetId.discord_voice s t = (refl, refl, refl)

abbrev pub WidgetIsValid : WidgetSettings → Type 0
WidgetIsValid s =
    (position_is_valid s.position ≡ true)
    × (valid_scale s.scale ≡ true)
    × (valid_panel_dim s.width ≡ true)
    × (valid_panel_dim s.height ≡ true)

abbrev pub ProfileIsValid : WidgetProfile → Type 0
ProfileIsValid p =
    (p.schema_version ≡ widget_schema_version)
    × ((id : WidgetId) → WidgetIsValid (settings p id))
    × ((p.notes_display.show_note || p.notes_display.show_checklist) ≡ true)
    × (discord_participant_limit_min ≤ p.discord_voice_display.participant_limit)
    × (p.discord_voice_display.participant_limit ≤ discord_participant_limit_max)

widget_error-valid :
    (id : WidgetId) (s : WidgetSettings) → (widget_error id s ≡ none) ↔ WidgetIsValid s
unfolding widget_error
widget_error-valid id s = ground arith

or_else-none : {A : Type 0} (a b : Option A) → (or_else a b ≡ none) ↔ ((a ≡ none) × (b ≡ none))
or_else-none a b = ground arith

widgets_error-all :
    (p : WidgetProfile) (ids : List WidgetId)
    → (widgets_error p ids ≡ none) ↔ ((id : WidgetId) → Memᴰ id ids → WidgetIsValid (settings p id))
unfolding widgets_error
widgets_error-all p [] = (λ h id m. elim m [ ], λ h. refl)
widgets_error-all p (i ∷ ids) = (
  λ h id m.
      let (first, rest) = (or_else-none _ _).0 h in
      elim m [
        | Memᴰ.head e ↦ rw e ((widget_error-valid i (settings p i)).0 first)
        | Memᴰ.tail n ↦ (widgets_error-all p ids).0 rest id n
      ],
  λ h. (or_else-none _ _).1 (
    (widget_error-valid i (settings p i)).1 (h i (Memᴰ.head refl)),
    (widgets_error-all p ids).1 (λ id n. h id (Memᴰ.tail n)),
  ),
)

in_all : (id : WidgetId) → Memᴰ id all_widgets
in_all WidgetId.session = Memᴰ.head refl
in_all WidgetId.clock = Memᴰ.tail (Memᴰ.head refl)
in_all WidgetId.performance = Memᴰ.tail (Memᴰ.tail (Memᴰ.head refl))
in_all WidgetId.manual_stopwatch = Memᴰ.tail (Memᴰ.tail (Memᴰ.tail (Memᴰ.head refl)))
in_all WidgetId.media = Memᴰ.tail (Memᴰ.tail (Memᴰ.tail (Memᴰ.tail (Memᴰ.head refl))))
in_all WidgetId.notes = Memᴰ.tail (Memᴰ.tail (Memᴰ.tail (Memᴰ.tail (Memᴰ.tail (Memᴰ.head refl)))))
in_all WidgetId.warframe_status =
    Memᴰ.tail (Memᴰ.tail (Memᴰ.tail (Memᴰ.tail (Memᴰ.tail (Memᴰ.tail (Memᴰ.head refl))))))
in_all WidgetId.warframe_fissures =
    Memᴰ.tail
      (Memᴰ.tail (Memᴰ.tail (Memᴰ.tail (Memᴰ.tail (Memᴰ.tail (Memᴰ.tail (Memᴰ.head refl)))))))
in_all WidgetId.warframe_market = Memᴰ.tail (
    Memᴰ.tail
      (Memᴰ.tail (Memᴰ.tail (Memᴰ.tail (Memᴰ.tail (Memᴰ.tail (Memᴰ.tail (Memᴰ.head refl))))))))
in_all WidgetId.warframe_sortie = Memᴰ.tail (
    Memᴰ.tail (
      Memᴰ.tail
        (Memᴰ.tail (Memᴰ.tail (Memᴰ.tail (Memᴰ.tail (Memᴰ.tail (Memᴰ.tail (Memᴰ.head refl)))))))))
in_all WidgetId.warframe_invasions = Memᴰ.tail (
    Memᴰ.tail (
      Memᴰ.tail (
        Memᴰ.tail (
          Memᴰ.tail (Memᴰ.tail (Memᴰ.tail (Memᴰ.tail (Memᴰ.tail (Memᴰ.tail (Memᴰ.head refl))))))))))
in_all WidgetId.twitch_chat = Memᴰ.tail (
    Memᴰ.tail (
      Memᴰ.tail (
        Memᴰ.tail (
          Memᴰ.tail (
            Memᴰ.tail
              (Memᴰ.tail (Memᴰ.tail (Memᴰ.tail (Memᴰ.tail (Memᴰ.tail (Memᴰ.head refl)))))))))))
in_all WidgetId.discord_voice = Memᴰ.tail (
    Memᴰ.tail (
      Memᴰ.tail (
        Memᴰ.tail (
          Memᴰ.tail (
            Memᴰ.tail (
              Memᴰ.tail
                (Memᴰ.tail (Memᴰ.tail (Memᴰ.tail (Memᴰ.tail (Memᴰ.tail (Memᴰ.head refl))))))))))))

-- The guards of the validation, in their order.
guards :
    (p : WidgetProfile) (current empty limits : Bool) (e : Option WidgetProfileError)
    → ((if not current
          then err WidgetProfileError.unsupported_schema_version
          else reject e (
              if empty
              then err WidgetProfileError.empty_notes_display
              else if not limits
              then err WidgetProfileError.invalid_discord_participant_limit
              else ok p))
        ≡ ok p)
      ↔ ((current ≡ true) × (e ≡ none) × (empty ≡ false) × (limits ≡ true))
guards p false empty limits e = (λ h. cc, λ h. cc (h.0))
guards p true empty limits (some f) = (λ h. cc, λ h. cc (h.1))
guards p true true limits none = (λ h. cc, λ h. cc (h.2))
guards p true false false none = (λ h. cc, λ h. cc (h.3))
guards p true false true none = (λ h. (refl, refl, refl, refl), λ h. refl)

-- A profile passes validation, unchanged, exactly when its schema version is the current one, every
-- one of the thirteen widgets has a valid position, scale and size, the notes show something and the
-- participant limit of the voice widget is from 2 to 16.
pub validate_profile-ProfileIsValid :
    (p : WidgetProfile) → (validate_profile p ≡ ok p) ↔ ProfileIsValid p
unfolding validate_profile
validate_profile-ProfileIsValid p = (
  λ h.
      let (current, clean, shown, limits) = (guards p _ _ _ (widgets_error p all_widgets)).0 h in
      (
        ground (arith, current),
        λ id. (widgets_error-all p all_widgets).0 clean id (in_all id),
        ground (arith, shown),
        ground (arith, limits),
        ground (arith, limits),
      ),
  λ (current, valid, shown, low, high). (guards p _ _ _ (widgets_error p all_widgets)).1 (
    ground (arith, current),
    (widgets_error-all p all_widgets).1 (λ id m. valid id),
    ground (arith, shown),
    ground (arith, low, high),
  ),
)
