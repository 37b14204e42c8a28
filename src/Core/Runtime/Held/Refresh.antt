-- ===== src/Core/Runtime/Held/Refresh.antt =====
-- A refresh or a reload keeps the active game only where it is still the accepted one.
use player_vox_over_crow.Common.{
  ℕ, ◌≡◌, refl, sym, ap, ◌∙◌, true, ◌&&◌, Option, none, some, opt_eq, opt_eq_iff, arith, ◌==◌,
  ==_iff, &&_true, Option-cases, inl, inr, get, Bool-cases, if◌then◌else◌,
}
use player_vox_over_crow.Protocol.{GameWindow, CoreState}
use player_vox_over_crow.Config.Settings.{LifecycleSettings}
use player_vox_over_crow.Config.Allowlist.{
  ProcessIdentity, GameAllowlist, from_settings, allows_identity, identity_eq,
}
use player_vox_over_crow.Config.Allowlist.Laws.{allows_identity-congr}
use player_vox_over_crow.Core.Classifier.{ProcessTable, ProcessTiming, classify_process_identity}
use player_vox_over_crow.Core.Runtime.State.{
  RuntimeMetadata, ProcessInstance, TemperatureSnapshot, default_metadata, matching_identity_of,
  game_process_of, same_identity, same_process, matching_process_identity, active_game_process,
  active_game_is_current,
}
use player_vox_over_crow.Core.Runtime.Metadata.{
  track_process, refresh_active_process, refresh_telemetry,
}
use player_vox_over_crow.Core.Runtime.Held.{Authorized, Held}

-- What a current game is known by, under the allowlist that it was checked against.
abbrev pub Current :
    Option ℕ
    → Option ℕ
    → Option ProcessIdentity
    → ProcessTable
    → GameAllowlist
    → Option (ProcessInstance × Option ProcessTiming)
    → Type 0
Current pid steam_id accepted table al found =
    (i : ProcessIdentity) × (p : ProcessInstance) × (t : Option ProcessTiming) × (accepted ≡ some i)
    × (found ≡ some (p, t))
    × (allows_identity al i ≡ true)
    × (steam_id ≡ i.steam_app_id)
    × (pid ≡ some p.pid)

pub nat_opt_eq : (m n : Option ℕ) → opt_eq (λ x y. x == y) m n ≡ true → m ≡ n
nat_opt_eq m n h = (opt_eq_iff (λ (x y : ℕ). x == y) ==_iff m n).0 h

identity_eq-steam :
    (i j : ProcessIdentity) → identity_eq i j ≡ true → i.steam_app_id ≡ j.steam_app_id
unfolding identity_eq
identity_eq-steam i j h = nat_opt_eq i.steam_app_id j.steam_app_id ((&&_true _ _ h).0)

-- The identity part: the classified identity is allowed, and is the accepted one.
same_identity-accepted :
    (c : ProcessIdentity) (steam_id : Option ℕ) (accepted : Option ProcessIdentity)
    (al : GameAllowlist)
    → same_identity
        (if allows_identity al c && opt_eq (λ x y. x == y) steam_id c.steam_app_id
          then some c
          else none)
        accepted
      ≡ true
    → (i : ProcessIdentity) × (accepted ≡ some i)
      × (allows_identity al i ≡ true)
      × (steam_id ≡ i.steam_app_id)
same_identity-accepted c steam_id none al h = absurd (ground arith)
same_identity-accepted c steam_id (some i) al h =
    elim (Bool-cases (allows_identity al c && opt_eq (λ x y. x == y) steam_id c.steam_app_id)) [
      | inl e ↦
          let (allowed, steam) = &&_true (allows_identity al c) _ e in
          let same : identity_eq c i ≡ true = ground (arith, e, h) in
          (
            i,
            refl,
            sym (allows_identity-congr al c i same) ∙ allowed,
            nat_opt_eq steam_id c.steam_app_id steam ∙ identity_eq-steam c i same,
          )
      | inr e ↦ absurd (ground (arith, e, h))
    ]

Current-found :
    (pid steam_id : Option ℕ) (accepted : Option ProcessIdentity) (process : Option ProcessInstance)
    (table : ProcessTable) (al : GameAllowlist)
    → same_identity (matching_identity_of pid steam_id table al) accepted
        && same_process (game_process_of pid table) process
      ≡ true
    → Current pid steam_id accepted table al (game_process_of pid table)
Current-found none steam_id accepted process table al h = absurd (ground arith)
Current-found (some pid) steam_id accepted process table al h =
    let (same, tracked) =
      &&_true (same_identity (matching_identity_of (some pid) steam_id table al) accepted) _ h in
    let (i, e, allowed, steam) =
      same_identity-accepted (classify_process_identity pid table) steam_id accepted al same in
    elim (Option-cases (get pid table)) [
      | inl missing ↦ absurd (ground (arith, missing, tracked))
      | inr (p, found) ↦ (
        i,
        record { pid = pid; start_ticks = p.start_ticks },
        p.timing,
        e,
        ground (arith, found),
        allowed,
        steam,
        refl,
      )
    ]

pub active_game_is_current-Current :
    (g : GameWindow) (m : RuntimeMetadata) (table : ProcessTable) (al : GameAllowlist)
    → active_game_is_current g m.active_identity m.active_process table al ≡ true
    → Current g.pid g.steam_app_id m.active_identity table al (active_game_process g table)
unfolding active_game_is_current matching_process_identity active_game_process
active_game_is_current-Current g m table al h =
    Current-found g.pid g.steam_app_id m.active_identity m.active_process table al h

track_process-identity :
    (m : RuntimeMetadata) (p : ProcessInstance) (t : Option ProcessTiming) (now : ℕ)
    → (track_process m p t now).active_identity ≡ m.active_identity
unfolding track_process
track_process-identity m p t now = ground arith

track_process-process :
    (m : RuntimeMetadata) (p : ProcessInstance) (t : Option ProcessTiming) (now : ℕ)
    → (track_process m p t now).active_process ≡ some p
unfolding track_process
track_process-process m p t now = refl

refresh_telemetry-identity :
    (m : RuntimeMetadata) (g : GameWindow) (table : ProcessTable) (temps : TemperatureSnapshot)
    (now ticks : ℕ)
    → (refresh_telemetry m (some g) table temps now ticks).active_identity ≡ m.active_identity
unfolding refresh_telemetry
refresh_telemetry-identity m g table temps now ticks = refl

refresh_telemetry-process :
    (m : RuntimeMetadata) (g : GameWindow) (table : ProcessTable) (temps : TemperatureSnapshot)
    (now ticks : ℕ)
    → (refresh_telemetry m (some g) table temps now ticks).active_process ≡ m.active_process
unfolding refresh_telemetry
refresh_telemetry-process m g table temps now ticks = refl

-- A current game stays authorized, under the new allowlist, when its process is looked up again.
refresh-Authorized :
    (al al' : GameAllowlist) (g : GameWindow) (m : RuntimeMetadata) (table : ProcessTable) (now : ℕ)
    → active_game_is_current g m.active_identity m.active_process table al' ≡ true
    → Authorized al' (some g) (refresh_active_process m (some g) table now)
unfolding refresh_active_process
refresh-Authorized al al' g m table now h =
    let (i, p, t, accepted, found, allowed, steam, pid) =
      active_game_is_current-Current g m table al' h in
    rw found (
      i,
      p,
      track_process-identity m p t now ∙ accepted,
      track_process-process m p t now,
      allowed,
      steam,
      pid,
    )

refresh_default :
    (table : ProcessTable) (now : ℕ)
    → refresh_active_process default_metadata none table now ≡ default_metadata
unfolding refresh_active_process
refresh_default table now = refl

telemetry_default :
    (table : ProcessTable) (temps : TemperatureSnapshot) (now ticks : ℕ)
    → refresh_telemetry default_metadata none table temps now ticks ≡ default_metadata
unfolding refresh_telemetry
telemetry_default table temps now ticks = refl

-- The test that a refresh makes, on either kind of state.
abbrev pub StillCurrent :
    Option GameWindow → RuntimeMetadata → ProcessTable → GameAllowlist → Type 0
StillCurrent none m table al = Unit {0}
StillCurrent (some g) m table al =
    active_game_is_current g m.active_identity m.active_process table al ≡ true

pub refresh_active_process-Authorized :
    (al al' : GameAllowlist) (game : Option GameWindow) (m : RuntimeMetadata) (table : ProcessTable)
    (now : ℕ)
    → Authorized al game m
    → StillCurrent game m table al'
    → Authorized al' game (refresh_active_process m game table now)
refresh_active_process-Authorized al al' none m table now a c =
    ap (λ n. refresh_active_process n none table now) a ∙ refresh_default table now
refresh_active_process-Authorized al al' (some g) m table now a c =
    refresh-Authorized al al' g m table now c

pub refresh_telemetry-Authorized :
    (al : GameAllowlist) (game : Option GameWindow) (m : RuntimeMetadata) (table : ProcessTable)
    (temps : TemperatureSnapshot) (now ticks : ℕ)
    → Authorized al game m
    → Authorized al game (refresh_telemetry m game table temps now ticks)
refresh_telemetry-Authorized al none m table temps now ticks a =
    ap (λ n. refresh_telemetry n none table temps now ticks) a
    ∙ telemetry_default table temps now ticks
refresh_telemetry-Authorized al (some g) m table temps now ticks (i, p, e, f, allowed, steam, pid) =
    (
      i,
      p,
      refresh_telemetry-identity m g table temps now ticks ∙ e,
      refresh_telemetry-process m g table temps now ticks ∙ f,
      allowed,
      steam,
      pid,
    )

pub with_metadata-Held :
    (s s' : LifecycleSettings) (st : CoreState) (m n : RuntimeMetadata)
    → Held s st m
    → Authorized (from_settings s') st.snapshot.active_game n
    → Held s' st n
with_metadata-Held s s' st m n h a = record {
  authorized = a;
  mode = h.mode;
  bare_telemetry = h.bare_telemetry;
  bare_stopwatch = h.bare_stopwatch;
  finite = h.finite;
}
