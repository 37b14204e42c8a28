-- ===== src/Core/Runtime/Operations/Outcomes.antt =====
-- What single operations do on each of their paths: the bridge's lease, window reports and reloads.
use player_vox_over_crow.Common.{
  ℕ, ◌+◌, ◌-◌, ◌≤◌, ◌<◌, ◌≡◌, refl, sym, ap, ◌∙◌, ◌⊎◌, Bool, true, false, not, Option, none, some,
  arith, ltb, Bool-cases, inl, inr, if◌then◌else◌,
}
use player_vox_over_crow.Common.Result.{Result, ok, err, is_ok}
use player_vox_over_crow.Protocol.{CoreSnapshot, clear_game, observe_game, passive}
use player_vox_over_crow.Config.Settings.{LifecycleSettings, SettingsError, validate}
use player_vox_over_crow.Config.Allowlist.{from_settings}
use player_vox_over_crow.Config.Allowlist.Laws.{validate-ok}
use player_vox_over_crow.Core.Runtime.State.{
  CoreRuntime, RuntimeSettingsError, AllowedProcess, WindowObservation, default_metadata,
  bridge_lease_timeout, into_game, classification_from_identity, validate_enabled_settings,
  check_enabled, observation_has_valid_geometry, snapshot_has_selected_process,
}
use player_vox_over_crow.Core.Runtime.Snapshot.{
  snapshot_at, publish_selected_running, publish_shortcut_settings, shortcut_eq,
}
use player_vox_over_crow.Core.Runtime.Snapshot.Sync.{
  publish_snapshot-state, publish_snapshot-metadata, publish_snapshot-settings,
}
use player_vox_over_crow.Core.Runtime.Metadata.{forget_game, track_process}
use player_vox_over_crow.Core.Runtime.Operations.{
  publish_at, without_game, clear_game_locked, allowed_process, observed,
  apply_bridge_observation_at, expire_report, expire_bridge_lease_at, install_settings,
  reload_checked, reload_settings,
}

-- No game, no input, nothing remembered.
abbrev pub Forgotten : CoreRuntime → Type 0
Forgotten r =
    (r.state.snapshot.active_game ≡ none)
    × (r.state.snapshot.overlay_mode ≡ passive)
    × (r.metadata ≡ default_metadata)

pub clear_game_locked-Forgotten : (r : CoreRuntime) → Forgotten (clear_game_locked r).0
unfolding clear_game_locked clear_game forget_game
clear_game_locked-Forgotten r =
    let q = without_game r in
    let st = publish_snapshot-state q q.state.snapshot in
    (
      ap (λ x. x.snapshot.active_game) st,
      ap (λ x. x.snapshot.overlay_mode) st,
      publish_snapshot-metadata q q.state.snapshot,
    )

-- The bridge reported long enough ago and the game is forgotten, or nothing changes.
abbrev pub Expires : CoreRuntime → ℕ → CoreRuntime × Bool → Type 0
Expires r now (q, expired) =
    ((t : ℕ) × (r.metadata.bridge_last_report ≡ some t)
      × (t + bridge_lease_timeout ≤ now)
      × (expired ≡ true)
      × Forgotten q)
    ⊎ (((r.metadata.bridge_last_report ≡ none)
          ⊎ ((t : ℕ) × (r.metadata.bridge_last_report ≡ some t) × (now < t + bridge_lease_timeout)))
        × (expired ≡ false)
        × (q ≡ r))

expire_report-Expires :
    (r : CoreRuntime) (o : Option ℕ) (now : ℕ)
    → r.metadata.bridge_last_report ≡ o
    → Expires r now (expire_report r o now)
expire_report-Expires r none now e = inr (inl e, refl, refl)
expire_report-Expires r (some t) now e = elim (Bool-cases (ltb (now - t) bridge_lease_timeout)) [
  | inl early ↦ rw early (inr (inr (t, e, ground (arith, early)), refl, refl))
  | inr late ↦ rw late (inl (t, e, ground (arith, late), refl, clear_game_locked-Forgotten r))
]

-- The watchdog expires the lease exactly when the bridge last reported five seconds ago or earlier.
-- Then the game is forgotten, the overlay passive and the metadata as at the start; otherwise, also
-- when the bridge never reported, the runtime is unchanged.
pub expire_bridge_lease_at-Expires :
    (r : CoreRuntime) (now : ℕ) → Expires r now (expire_bridge_lease_at r now)
unfolding expire_bridge_lease_at
expire_bridge_lease_at-Expires r now =
    expire_report-Expires r r.metadata.bridge_last_report now refl

if-settings :
    (b : Bool) (p q : CoreRuntime) (s : LifecycleSettings)
    → p.settings ≡ s
    → q.settings ≡ s
    → (if b then p else q).settings ≡ s
if-settings true p q s e f = e
if-settings false p q s e f = f

install_settings-settings :
    (r : CoreRuntime) (s : LifecycleSettings) (refreshed_at now : ℕ)
    → (install_settings r s refreshed_at now).0.settings ≡ s
unfolding install_settings publish_at
install_settings-settings r s refreshed_at now =
    let p : CoreRuntime = record r { settings = s } in
    let b = snapshot_has_selected_process (from_settings s) r.processes in
    let installed : (publish_selected_running (publish_shortcut_settings p s.shortcut) b).settings
        ≡ s =
      if-settings _ _ _ s (if-settings (shortcut_eq p.shortcut_settings s.shortcut) _ _ s refl refl)
        (if-settings (shortcut_eq p.shortcut_settings s.shortcut) _ _ s refl refl) in
    publish_snapshot-settings _ _ ∙ if-settings _ _ _ s installed installed

-- Refused with the reason and unchanged, or accepted and installed.
abbrev pub Reloads :
    CoreRuntime
    → LifecycleSettings
    → CoreRuntime × Result RuntimeSettingsError CoreSnapshot
    → Type 0
Reloads r s (q, err (RuntimeSettingsError.invalid e)) = (validate s ≡ err e) × (q ≡ r)
Reloads r s (q, err RuntimeSettingsError.disabled) =
    (validate s ≡ ok s) × (s.enabled ≡ false) × (q ≡ r)
Reloads r s (q, ok _) = (validate s ≡ ok s) × (s.enabled ≡ true) × (q.settings ≡ s)

reload_checked-Reloads :
    (r : CoreRuntime) (s : LifecycleSettings) (v : Result SettingsError LifecycleSettings)
    (refreshed_at now : ℕ)
    → validate s ≡ v
    → Reloads r s (reload_checked r (check_enabled v) refreshed_at now)
reload_checked-Reloads r s (err e) refreshed_at now h = (h, refl)
reload_checked-Reloads r s (ok t) refreshed_at now h = by_enabled t.enabled refl
  where
    valid : validate s ≡ ok s
    valid = validate-ok s (ap is_ok h)

    same : t ≡ s
    same = cc (h, valid)

    by_enabled :
        (b : Bool)
        → t.enabled ≡ b
        → Reloads r s (
            reload_checked r
              (if not b then err RuntimeSettingsError.disabled else ok t)
              refreshed_at
              now)
    by_enabled true e = (
      valid,
      ap (λ x. x.enabled) (sym same) ∙ e,
      install_settings-settings r t refreshed_at now ∙ same,
    )
    by_enabled false e = (valid, ap (λ x. x.enabled) (sym same) ∙ e, refl)

-- A reload of invalid settings is refused with the first error of validation, one of valid disabled
-- settings as disabled, and both leave the runtime unchanged; a reload that succeeds was given valid
-- enabled settings, and the runtime then has exactly these.
pub reload_settings-Reloads :
    (r : CoreRuntime) (s : LifecycleSettings) (refreshed_at now : ℕ)
    → Reloads r s (reload_settings r s refreshed_at now)
unfolding reload_settings validate_enabled_settings
reload_settings-Reloads r s refreshed_at now =
    reload_checked-Reloads r s (validate s) refreshed_at now refl

-- What the bridge's report leaves active.
abbrev pub Reports : CoreRuntime → WindowObservation → ℕ → CoreRuntime → Type 0
Reports r o now q =
    ((a : AllowedProcess) × (observation_has_valid_geometry o ≡ true)
      × (allowed_process r o ≡ some a)
      × (q.state.snapshot.active_game
          ≡ some (into_game o (classification_from_identity a.identity)))
      × (q.state.snapshot.overlay_mode ≡ r.state.snapshot.overlay_mode)
      × (q.metadata.active_process ≡ some a.process)
      × (q.metadata.bridge_last_report ≡ some now))
    ⊎ (((observation_has_valid_geometry o ≡ false) ⊎ (allowed_process r o ≡ none)) × Forgotten q)

publish_at-Forgotten : (r : CoreRuntime) (now : ℕ) → Forgotten (publish_at (without_game r) now).0
unfolding publish_at clear_game forget_game
publish_at-Forgotten r now =
    let q = without_game r in
    let s = snapshot_at q now in
    let st = publish_snapshot-state q s in
    (
      ap (λ x. x.snapshot.active_game) st,
      ap (λ x. x.snapshot.overlay_mode) st,
      publish_snapshot-metadata q s,
    )

accepted-Reports :
    (r : CoreRuntime) (o : WindowObservation) (now : ℕ) (a : AllowedProcess)
    → observation_has_valid_geometry o ≡ true
    → allowed_process r o ≡ some a
    → Reports r o now (publish_at (observed r o (some a) (some now) now) now).0
unfolding publish_at observe_game track_process
accepted-Reports r o now a valid found =
    let q = observed r o (some a) (some now) now in
    let s = snapshot_at q now in
    let st = publish_snapshot-state q s in
    let m = publish_snapshot-metadata q s in
    inl (
      a,
      valid,
      found,
      ap (λ x. x.snapshot.active_game) st,
      ap (λ x. x.snapshot.overlay_mode) st,
      ap (λ x. x.active_process) m,
      ap (λ x. x.bridge_last_report) m,
    )

observed-Reports :
    (r : CoreRuntime) (o : WindowObservation) (now : ℕ) (a : Option AllowedProcess)
    → observation_has_valid_geometry o ≡ true
    → allowed_process r o ≡ a
    → Reports r o now (publish_at (observed r o a (some now) now) now).0
observed-Reports r o now none valid e = inr (inr e, publish_at-Forgotten r now)
observed-Reports r o now (some a) valid e = accepted-Reports r o now a valid e

-- After a report of the bridge either the reported window has a valid geometry and an allowed
-- process, is the active game with that process's classification, keeps the overlay's mode and
-- starts the lease now, or the geometry is invalid or the process not allowed and the runtime has
-- forgotten its game.
pub apply_bridge_observation_at-Reports :
    (r : CoreRuntime) (o : WindowObservation) (now : ℕ)
    → Reports r o now (apply_bridge_observation_at r o now).0
unfolding apply_bridge_observation_at
apply_bridge_observation_at-Reports r o now = by_geometry (observation_has_valid_geometry o) refl
  where
    by_geometry :
        (b : Bool)
        → observation_has_valid_geometry o ≡ b
        → Reports r o now
            (if not b
              then clear_game_locked r
              else publish_at (observed r o (allowed_process r o) (some now) now) now).0
    by_geometry true e = observed-Reports r o now (allowed_process r o) e refl
    by_geometry false e = inr (inl e, clear_game_locked-Forgotten r)
