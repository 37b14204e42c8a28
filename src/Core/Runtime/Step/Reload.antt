-- ===== src/Core/Runtime/Step/Reload.antt =====
-- The refresh of the processes and the reload of settings and profile keep the invariant.
use player_vox_over_crow.Common.{
  ℕ, ◌≡◌, refl, subst, true, false, not, Option, none, some, Bool-cases, inl, inr, if◌then◌else◌,
  bool_eq,
}
use player_vox_over_crow.Common.Result.{Result, ok, err}
use player_vox_over_crow.Protocol.{GameWindow}
use player_vox_over_crow.Config.Settings.{LifecycleSettings}
use player_vox_over_crow.Config.Allowlist.{GameAllowlist, from_settings}
use player_vox_over_crow.Config.Widgets.{
  WidgetProfile, WidgetProfileError, validate_profile, profile_eq,
}
use player_vox_over_crow.Core.Classifier.{ProcessTable}
use player_vox_over_crow.Core.Runtime.State.{
  CoreRuntime, RuntimeSettingsError, ShortcutAvailability, TemperatureSnapshot,
  validate_enabled_settings, snapshot_has_selected_process,
}
use player_vox_over_crow.Core.Runtime.Snapshot.{
  snapshot_at, publish_shortcut_availability, shortcut_eq, availability_eq,
}
use player_vox_over_crow.Core.Runtime.Metadata.{refresh_active_process, refresh_telemetry}
use player_vox_over_crow.Core.Runtime.Operations.{
  without_game, is_current, install_refresh_snapshot_at, install_settings, reload_settings,
  reload_widget_profile, reload_checked, reload_profile_checked,
}
use player_vox_over_crow.Core.Runtime.Held.{Held, Authorized}
use player_vox_over_crow.Core.Runtime.Held.Refresh.{
  StillCurrent, refresh_active_process-Authorized, refresh_telemetry-Authorized, with_metadata-Held,
}
use player_vox_over_crow.Core.Runtime.Step.Invariant.{
  HeldBy, Inv, without_game-HeldBy, publish_at-Inv,
}

still_current :
    (q : CoreRuntime) (game : Option GameWindow) (al : GameAllowlist)
    → is_current q game al ≡ true
    → StillCurrent game q.metadata q.processes al
still_current q none al h = tt
still_current q (some g) al h = h

-- A checked game stays with its refreshed memory, any other is dropped. The settings may be new.
checked-HeldBy :
    (s : LifecycleSettings) (q : CoreRuntime) (al : GameAllowlist) (now : ℕ)
    → al ≡ from_settings q.settings
    → Held s q.state q.metadata
    → let game = q.state.snapshot.active_game in
      (is_current q game al ≡ false → HeldBy (without_game q))
      × (is_current q game al ≡ true
          → Held q.settings q.state (refresh_active_process q.metadata game q.processes now))
checked-HeldBy s q al now e h = (
  λ _. without_game-HeldBy s q h,
  λ c.
      let game = q.state.snapshot.active_game in
      with_metadata-Held s q.settings q.state q.metadata
        (refresh_active_process q.metadata game q.processes now) h
        (subst (λ l. Authorized l game (refresh_active_process q.metadata game q.processes now)) e
          (refresh_active_process-Authorized (from_settings s) al game q.metadata q.processes now
            h.authorized (still_current q game al c))),
)

reload-HeldBy :
    (s : LifecycleSettings) (q : CoreRuntime) (al : GameAllowlist) (now : ℕ)
    → al ≡ from_settings q.settings
    → Held s q.state q.metadata
    → let game = q.state.snapshot.active_game in
      HeldBy (
        if not (is_current q game al)
        then without_game q
        else record q { metadata = refresh_active_process q.metadata game q.processes now })
reload-HeldBy s q al now e h =
    let game = q.state.snapshot.active_game in
    let k = checked-HeldBy s q al now e h in
    elim (Bool-cases (is_current q game al)) [ inl c ↦ rw c (k.1 c) | inr c ↦ rw c (k.0 c) ]

refresh-HeldBy :
    (q : CoreRuntime) (al : GameAllowlist) (temps : TemperatureSnapshot) (now ticks : ℕ)
    → al ≡ from_settings q.settings
    → HeldBy q
    → let game = q.state.snapshot.active_game in
      HeldBy (
        if not (is_current q game al) then without_game q else record q {
          metadata =
              refresh_telemetry
                (refresh_active_process q.metadata game q.processes now)
                game
                q.processes
                temps
                now
                ticks;
        })
refresh-HeldBy q al temps now ticks e h =
    let game = q.state.snapshot.active_game in
    let k = checked-HeldBy q.settings q al now e h in
    elim (Bool-cases (is_current q game al)) [
      | inl c ↦ rw c (
          with_metadata-Held q.settings q.settings q.state _ _ (k.1 c) (
            refresh_telemetry-Authorized (from_settings q.settings) game _ q.processes temps now
              ticks (k.1 c).authorized))
      | inr c ↦ rw c (k.0 c)
    ]

pub install_refresh-Inv :
    (r : CoreRuntime) (table : ProcessTable) (temps : TemperatureSnapshot) (now ticks : ℕ)
    → HeldBy r
    → Inv (install_refresh_snapshot_at r table temps now ticks).0
unfolding install_refresh_snapshot_at
install_refresh-Inv r table temps now ticks h =
    let al = from_settings r.settings in
    let b = snapshot_has_selected_process al table in
    let p : CoreRuntime = record r { processes = table } in
    elim (Bool-cases (bool_eq r.selected_running b)) [
      | inl e ↦ rw e (publish_at-Inv _ now (refresh-HeldBy p al temps now ticks refl h))
      | inr e ↦ rw e (
          publish_at-Inv _ now
            (refresh-HeldBy (record p { selected_running = b }) al temps now ticks refl h))
    ]

install_settings-Inv :
    (r : CoreRuntime) (s : LifecycleSettings) (refreshed_at now : ℕ)
    → HeldBy r
    → Inv (install_settings r s refreshed_at now).0
unfolding install_settings
install_settings-Inv r s refreshed_at now h =
    let al = from_settings s in
    let b = snapshot_has_selected_process al r.processes in
    let p : CoreRuntime = record r { settings = s } in
    let p' : CoreRuntime = record p { shortcut_settings = s.shortcut } in
    elim (Bool-cases (shortcut_eq r.shortcut_settings s.shortcut)) [
      | inl d ↦ elim (Bool-cases (bool_eq r.selected_running b)) [
        | inl e ↦
            rw (d, e) (publish_at-Inv _ now (reload-HeldBy r.settings p al refreshed_at refl h))
        | inr e ↦
            rw (d, e)
              (publish_at-Inv _ now (
                reload-HeldBy r.settings (record p { selected_running = b }) al refreshed_at refl
                  h))
      ]
      | inr d ↦ elim (Bool-cases (bool_eq r.selected_running b)) [
        | inl e ↦
            rw (d, e) (publish_at-Inv _ now (reload-HeldBy r.settings p' al refreshed_at refl h))
        | inr e ↦
            rw (d, e)
              (publish_at-Inv _ now (
                reload-HeldBy r.settings (record p' { selected_running = b }) al refreshed_at refl
                  h))
      ]
    ]

reload_checked-Inv :
    (r : CoreRuntime) (checked : Result RuntimeSettingsError LifecycleSettings)
    (refreshed_at now : ℕ)
    → Inv r
    → Inv (reload_checked r checked refreshed_at now).0
reload_checked-Inv r (err e) refreshed_at now v = v
reload_checked-Inv r (ok s) refreshed_at now v = install_settings-Inv r s refreshed_at now v.held

pub reload_settings-Inv :
    (r : CoreRuntime) (s : LifecycleSettings) (refreshed_at now : ℕ)
    → Inv r
    → Inv (reload_settings r s refreshed_at now).0
unfolding reload_settings
reload_settings-Inv r s refreshed_at now v =
    reload_checked-Inv r (validate_enabled_settings s) refreshed_at now v

reload_profile-Inv :
    (r : CoreRuntime) (checked : Result WidgetProfileError WidgetProfile) (now : ℕ)
    → Inv r
    → Inv (reload_profile_checked r checked now).0
reload_profile-Inv r (err e) now v = v
reload_profile-Inv r (ok p) now v = elim (Bool-cases (profile_eq r.published_profile p)) [
  | inl e ↦ rw e (publish_at-Inv _ now v.held)
  | inr e ↦ rw e (publish_at-Inv _ now v.held)
]

pub reload_widget_profile-Inv :
    (r : CoreRuntime) (p : WidgetProfile) (now : ℕ) → Inv r → Inv (reload_widget_profile r p now).0
unfolding reload_widget_profile
reload_widget_profile-Inv r p now v = reload_profile-Inv r (validate_profile p) now v

pub publish_shortcut_availability-Inv :
    (r : CoreRuntime) (a : ShortcutAvailability) → Inv r → Inv (publish_shortcut_availability r a)
unfolding publish_shortcut_availability snapshot_at
publish_shortcut_availability-Inv r a v =
    elim (Bool-cases (availability_eq r.shortcut_availability a)) [
      | inl e ↦ rw e v
      | inr e ↦ rw e (record { held = v.held; in_sync = v.in_sync })
    ]
