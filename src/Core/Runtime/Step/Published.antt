-- ===== src/Core/Runtime/Step/Published.antt =====
-- The revisions that one operation may publish.
use player_vox_over_crow.Common.{
  ℕ, ◌-◌, ◌≡◌, refl, Bool, true, false, Option, none, some, opt_eq, inl, inr, ltb, bool_eq,
  Bool-cases, if◌then◌else◌,
}
use player_vox_over_crow.Common.Result.{Result, ok, err}
use player_vox_over_crow.Common.Text.{text_eq}
use player_vox_over_crow.Config.Settings.{LifecycleSettings}
use player_vox_over_crow.Config.Allowlist.{from_settings}
use player_vox_over_crow.Config.Widgets.{
  WidgetProfile, WidgetProfileError, validate_profile, profile_eq,
}
use player_vox_over_crow.Core.Classifier.{ProcessTable}
use player_vox_over_crow.Core.Runtime.State.{
  CoreRuntime, RuntimeSettingsError, WindowObservation, TemperatureSnapshot, AllowedProcess,
  overlay_app_id, bridge_lease_timeout, validate_enabled_settings, observation_has_valid_geometry,
  snapshot_has_selected_process,
}
use player_vox_over_crow.Core.Runtime.Snapshot.{
  snapshot_at, shortcut_eq, availability_eq, publish_shortcut_availability,
}
use player_vox_over_crow.Core.Runtime.Snapshot.Sync.{NextPublished, publish_snapshot-NextPublished}
use player_vox_over_crow.Core.Runtime.Operations.{
  publish_at, takes_stopwatch, toggle_manual_stopwatch_at, reset_manual_stopwatch_at,
  toggle_runtime_overlay, set_runtime_interactive, without_game, clear_game_locked, observed,
  allowed_process, apply_bridge_observation_at, apply_x11_observation, expire_bridge_lease_at,
  expire_report, install_refresh_snapshot_at, install_settings, reload_settings, reload_checked,
  reload_widget_profile, reload_profile_checked,
}
use player_vox_over_crow.Core.Runtime.Step.{
  Command, toggle_stopwatch, reset_stopwatch, toggle_mode, set_interactive, report_window, clear,
  poll_x11, watchdog, refresh, load_settings, load_profile, shortcut, step,
}

-- The change of the published snapshot from `r` to `q`.
abbrev Publishes : CoreRuntime → CoreRuntime → Type 0
Publishes r q = NextPublished r.published q.published

publish_at-Publishes :
    (r q : CoreRuntime) (now : ℕ) → q.published ≡ r.published → Publishes r (publish_at q now).0
unfolding publish_at
publish_at-Publishes r q now e = rw (← e) (publish_snapshot-NextPublished q (snapshot_at q now))

clear-Publishes : (r : CoreRuntime) → Publishes r (clear_game_locked r).0
unfolding clear_game_locked
clear-Publishes r = publish_snapshot-NextPublished (without_game r) (without_game r).state.snapshot

if-published :
    (b : Bool) (p q r : CoreRuntime)
    → p.published ≡ r.published
    → q.published ≡ r.published
    → (if b then p else q).published ≡ r.published
if-published true p q r e f = e
if-published false p q r e f = f

observed-published :
    (r : CoreRuntime) (o : WindowObservation) (a : Option AllowedProcess) (report : Option ℕ)
    (now : ℕ)
    → (observed r o a report now).published ≡ r.published
observed-published r o none report now = refl
observed-published r o (some a) report now = refl

x11-Publishes :
    (r : CoreRuntime) (o : Option WindowObservation) (now : ℕ)
    → Publishes r (apply_x11_observation r o now).0
unfolding apply_x11_observation
x11-Publishes r none now = clear-Publishes r
x11-Publishes r (some o) now = elim (Bool-cases (opt_eq text_eq o.app_id (some overlay_app_id))) [
  | inl own ↦ rw own (inl refl)
  | inr other ↦ elim (Bool-cases (observation_has_valid_geometry o)) [
    | inl e ↦
        rw (other, e)
          (publish_at-Publishes r _ now (observed-published r o (allowed_process r o) none now))
    | inr e ↦ rw (other, e) (clear-Publishes r)
  ]
]

bridge-Publishes :
    (r : CoreRuntime) (o : WindowObservation) (now : ℕ)
    → Publishes r (apply_bridge_observation_at r o now).0
unfolding apply_bridge_observation_at
bridge-Publishes r o now = elim (Bool-cases (observation_has_valid_geometry o)) [
  | inl e ↦
      rw e
        (publish_at-Publishes r _ now (observed-published r o (allowed_process r o) (some now) now))
  | inr e ↦ rw e (clear-Publishes r)
]

expire-Publishes :
    (r : CoreRuntime) (o : Option ℕ) (now : ℕ) → Publishes r (expire_report r o now).0
expire-Publishes r none now = inl refl
expire-Publishes r (some t) now = elim (Bool-cases (ltb (now - t) bridge_lease_timeout)) [
  | inl e ↦ rw e (inl refl)
  | inr e ↦ rw e (clear-Publishes r)
]

refresh-Publishes :
    (r : CoreRuntime) (table : ProcessTable) (temps : TemperatureSnapshot) (now ticks : ℕ)
    → Publishes r (install_refresh_snapshot_at r table temps now ticks).0
unfolding install_refresh_snapshot_at
refresh-Publishes r table temps now ticks =
    let al = from_settings r.settings in
    elim (Bool-cases (bool_eq r.selected_running (snapshot_has_selected_process al table))) [
      | inl e ↦ rw e (publish_at-Publishes r _ now (if-published _ _ _ r refl refl))
      | inr e ↦ rw e (publish_at-Publishes r _ now (if-published _ _ _ r refl refl))
    ]

settings-Publishes :
    (r : CoreRuntime) (s : LifecycleSettings) (refreshed_at now : ℕ)
    → Publishes r (install_settings r s refreshed_at now).0
unfolding install_settings
settings-Publishes r s refreshed_at now =
    let al = from_settings s in
    let b = snapshot_has_selected_process al r.processes in
    elim (Bool-cases (shortcut_eq r.shortcut_settings s.shortcut)) [
      | inl d ↦ elim (Bool-cases (bool_eq r.selected_running b)) [
        | inl e ↦ rw (d, e) (publish_at-Publishes r _ now (if-published _ _ _ r refl refl))
        | inr e ↦ rw (d, e) (publish_at-Publishes r _ now (if-published _ _ _ r refl refl))
      ]
      | inr d ↦ elim (Bool-cases (bool_eq r.selected_running b)) [
        | inl e ↦ rw (d, e) (publish_at-Publishes r _ now (if-published _ _ _ r refl refl))
        | inr e ↦ rw (d, e) (publish_at-Publishes r _ now (if-published _ _ _ r refl refl))
      ]
    ]

reload-Publishes :
    (r : CoreRuntime) (c : Result RuntimeSettingsError LifecycleSettings) (refreshed_at now : ℕ)
    → Publishes r (reload_checked r c refreshed_at now).0
reload-Publishes r (err e) refreshed_at now = inl refl
reload-Publishes r (ok s) refreshed_at now = settings-Publishes r s refreshed_at now

profile-Publishes :
    (r : CoreRuntime) (c : Result WidgetProfileError WidgetProfile) (now : ℕ)
    → Publishes r (reload_profile_checked r c now).0
profile-Publishes r (err e) now = inl refl
profile-Publishes r (ok p) now =
    publish_at-Publishes r _ now (if-published (profile_eq r.published_profile p) _ _ r refl refl)

-- One operation leaves the published snapshot as it is, or replaces it by a different one (the
-- session's time and a running stopwatch do not count) under the next revision, which stops at
-- `u64::MAX`.
pub step-NextPublished :
    (r : CoreRuntime) (c : Command) → NextPublished r.published (step r c).published
unfolding step toggle_manual_stopwatch_at reset_manual_stopwatch_at toggle_runtime_overlay
    set_runtime_interactive expire_bridge_lease_at reload_settings reload_widget_profile
    publish_shortcut_availability
step-NextPublished r (toggle_stopwatch now) =
    publish_at-Publishes r _ now (if-published (takes_stopwatch r) _ r r refl refl)
step-NextPublished r (reset_stopwatch now) =
    publish_at-Publishes r _ now (if-published (takes_stopwatch r) _ r r refl refl)
step-NextPublished r (toggle_mode now) = publish_at-Publishes r _ now refl
step-NextPublished r (set_interactive b now) = publish_at-Publishes r _ now refl
step-NextPublished r (report_window o now) = bridge-Publishes r o now
step-NextPublished r clear = clear-Publishes r
step-NextPublished r (poll_x11 o now) = x11-Publishes r o now
step-NextPublished r (watchdog now) = expire-Publishes r r.metadata.bridge_last_report now
step-NextPublished r (refresh table temps now ticks) = refresh-Publishes r table temps now ticks
step-NextPublished r (load_settings s refreshed_at now) =
    reload-Publishes r (validate_enabled_settings s) refreshed_at now
step-NextPublished r (load_profile p now) = profile-Publishes r (validate_profile p) now
step-NextPublished r (shortcut a) =
    inl (if-published (availability_eq r.shortcut_availability a) r _ r refl refl)
