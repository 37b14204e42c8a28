-- ===== src/Core/Runtime/Held.antt =====
-- What the runtime's state and memory hold between operations, lemma by lemma for the changes that
-- the operations make.
pub mod Refresh
use player_vox_over_crow.Common.{
  ℕ, ◌≡◌, refl, sym, ap, ◌∙◌, subst, Bool, true, false, not, ◌&&◌, Option, none, some, opt_eq,
  opt_eq_iff, is_some, arith, ◌==◌, ==_iff, &&_true, Option-cases, inl, inr, get, Bool-cases,
  if◌then◌else◌,
}
use player_vox_over_crow.Protocol.{
  GameWindow, CoreState, CoreSnapshot, stopped_at_zero, observe_game, clear_game, toggle_overlay,
  set_overlay_interactive,
}
use player_vox_over_crow.Protocol.Laws.{
  ModeFits, observe_game-ModeFits, clear_game-ModeFits, toggle_overlay-ModeFits,
  set_overlay_interactive-ModeFits,
}
use player_vox_over_crow.Config.Settings.{LifecycleSettings}
use player_vox_over_crow.Config.Allowlist.{
  ProcessIdentity, GameAllowlist, from_settings, allows_identity, identity_eq,
}
use player_vox_over_crow.Config.Allowlist.Laws.{allows_identity-congr}
use player_vox_over_crow.Core.Classifier.{
  ProcessTable, ProcessTiming, ProcessInfo, classify_process_identity,
}
use player_vox_over_crow.Core.Stopwatch.{ManualStopwatch, reset}
use player_vox_over_crow.Core.Runtime.State.{
  RuntimeMetadata, WindowObservation, AllowedProcess, ProcessInstance, TemperatureSnapshot,
  default_metadata, into_game, classification_from_identity, observation_has_valid_geometry,
  matching_process_identity, active_game_process, active_game_is_current, instance_eq,
}
use player_vox_over_crow.Core.Runtime.Snapshot.Sync.{FiniteScale}
use player_vox_over_crow.Core.Runtime.Metadata.{
  forget_game, track_process, reset_telemetry_for_changed_group, refresh_active_process,
  refresh_telemetry,
}
use player_vox_over_crow.Core.Runtime.Operations.{accept_metadata, allowed_pid}

-- The active game is one that the user selected: its identity is allowed, its Steam id is that of
-- the identity, and its process is the one that is remembered.
abbrev pub Authorized : GameAllowlist → Option GameWindow → RuntimeMetadata → Type 0
Authorized al none m = m ≡ default_metadata
Authorized al (some g) m =
    (i : ProcessIdentity) × (p : ProcessInstance) × (m.active_identity ≡ some i)
    × (m.active_process ≡ some p)
    × (allows_identity al i ≡ true)
    × (g.steam_app_id ≡ i.steam_app_id)
    × (g.pid ≡ some p.pid)

pub record Held (s : LifecycleSettings) (st : CoreState) (m : RuntimeMetadata) : Type 0 where
  pub authorized : Authorized (from_settings s) st.snapshot.active_game m
  pub mode : ModeFits st.snapshot
  pub bare_telemetry : st.snapshot.telemetry ≡ none
  pub bare_stopwatch : st.snapshot.manual_stopwatch ≡ stopped_at_zero
  pub finite : FiniteScale st.snapshot.active_game

-- Without a game nothing is remembered.
pub forget_game-Held :
    (s s' : LifecycleSettings) (st : CoreState) (m : RuntimeMetadata)
    → Held s st m
    → Held s' (clear_game st) (forget_game m)
unfolding clear_game forget_game
forget_game-Held s s' st m h = record {
  authorized = refl;
  mode = clear_game-ModeFits st;
  bare_telemetry = h.bare_telemetry;
  bare_stopwatch = h.bare_stopwatch;
  finite = tt;
}

allowed_pid-pid :
    (al : GameAllowlist) (table : ProcessTable) (pid : Option ℕ) (a : AllowedProcess)
    → allowed_pid al table pid ≡ some a
    → (allows_identity al a.identity ≡ true) × (pid ≡ some a.process.pid)
allowed_pid-pid al table none a h = cc
allowed_pid-pid al table (some pid) a h = elim (Option-cases (get pid table)) [
  | inl e ↦ ground (arith, e)
  | inr (p, e) ↦ ground (arith, e)
]

valid_geometry-finite :
    (o : WindowObservation)
    → observation_has_valid_geometry o ≡ true
    → FiniteScale (some (into_game o (record { steam_app_id = none; is_game_candidate = false })))
unfolding observation_has_valid_geometry into_game
valid_geometry-finite o h = (&&_true _ _ h).0

-- An accepted window becomes the active game.
pub accept-Held :
    (s : LifecycleSettings) (table : ProcessTable) (st : CoreState) (m : RuntimeMetadata)
    (o : WindowObservation) (a : AllowedProcess) (report : Option ℕ) (now : ℕ)
    → Held s st m
    → observation_has_valid_geometry o ≡ true
    → allowed_pid (from_settings s) table o.pid ≡ some a
    → Held s
        (observe_game st (into_game o (classification_from_identity a.identity)))
        (accept_metadata m a report now)
unfolding observe_game into_game track_process
accept-Held s table st m o a report now h valid e =
    let (allowed, pid) = allowed_pid-pid (from_settings s) table o.pid a e in
    record {
      authorized = (a.identity, a.process, refl, refl, allowed, refl, pid);
      mode = observe_game-ModeFits st (into_game o (classification_from_identity a.identity));
      bare_telemetry = h.bare_telemetry;
      bare_stopwatch = h.bare_stopwatch;
      finite = unfold into_game in valid_geometry-finite o valid;
    }

pub toggle_overlay-Held :
    (s : LifecycleSettings) (st : CoreState) (m : RuntimeMetadata)
    → Held s st m
    → Held s (toggle_overlay st) m
unfolding toggle_overlay
toggle_overlay-Held s st m h = record {
  authorized = h.authorized;
  mode = toggle_overlay-ModeFits st;
  bare_telemetry = h.bare_telemetry;
  bare_stopwatch = h.bare_stopwatch;
  finite = h.finite;
}

pub set_overlay_interactive-Held :
    (s : LifecycleSettings) (st : CoreState) (m : RuntimeMetadata) (wanted : Bool)
    → Held s st m
    → Held s (set_overlay_interactive st wanted) m
unfolding set_overlay_interactive
set_overlay_interactive-Held s st m wanted h = record {
  authorized = h.authorized;
  mode = set_overlay_interactive-ModeFits st wanted;
  bare_telemetry = h.bare_telemetry;
  bare_stopwatch = h.bare_stopwatch;
  finite = h.finite;
}

-- The stopwatch may change while there is a game.
Authorized-stopwatch :
    (al : GameAllowlist) (game : Option GameWindow) (m : RuntimeMetadata) (w : ManualStopwatch)
    → is_some game ≡ true
    → Authorized al game m
    → Authorized al game (record m { manual_stopwatch = w })
Authorized-stopwatch al none m w h a = cc
Authorized-stopwatch al (some g) m w h a = a

pub stopwatch-Held :
    (s : LifecycleSettings) (st : CoreState) (m : RuntimeMetadata) (w : ManualStopwatch)
    → is_some st.snapshot.active_game ≡ true
    → Held s st m
    → Held s st (record m { manual_stopwatch = w })
stopwatch-Held s st m w e h = record {
  authorized = Authorized-stopwatch (from_settings s) st.snapshot.active_game m w e h.authorized;
  mode = h.mode;
  bare_telemetry = h.bare_telemetry;
  bare_stopwatch = h.bare_stopwatch;
  finite = h.finite;
}
