-- ===== src/Protocol.antt =====
-- crates/overcrow-protocol/src/state.rs: the snapshot that the core publishes, and the state that
-- decides the overlay's mode. Equality of snapshots is the one that Rust derives.
pub mod Laws
use player_vox_over_crow.Common.{
  ℕ, Bool, true, false, ◌&&◌, Option, none, some, opt_eq, bool_eq, is_some, is_none, ◌==◌,
  if◌then◌else◌,
}
use player_vox_over_crow.Common.Text.{Text, text_eq}
use player_vox_over_crow.Common.Float.{Float, float_eq}
use player_vox_over_crow.Common.Int.{ℤ, int_eq}

pub record Rect : Type 0 where
  pub x : ℤ  -- i32
  pub y : ℤ  -- i32
  pub width : ℕ  -- u32
  pub height : ℕ  -- u32

pub record GameWindow : Type 0 where
  pub pid : Option ℕ  -- u32
  pub steam_app_id : Option ℕ  -- u32
  pub app_id : Option Text
  pub title : Text
  pub rect : Rect
  pub scale : Float  -- f64
  pub backend : Text

pub data OverlayMode : Type 0 where
  passive interactive : OverlayMode

pub record GameTelemetry : Type 0 where
  pub cpu_percent_hundredths : Option ℕ  -- u32
  pub resident_bytes : Option ℕ  -- u64
  pub cpu_temperature_millicelsius : Option ℤ  -- i64
  pub gpu_temperature_millicelsius : Option ℤ  -- i64

abbrev pub no_telemetry : GameTelemetry
no_telemetry = record {
  cpu_percent_hundredths = none;
  resident_bytes = none;
  cpu_temperature_millicelsius = none;
  gpu_temperature_millicelsius = none;
}

pub record ManualStopwatchSnapshot : Type 0 where
  pub elapsed_ms : ℕ  -- u64
  pub running : Bool

abbrev pub stopped_at_zero : ManualStopwatchSnapshot
stopped_at_zero = record { elapsed_ms = 0; running = false }

pub record CoreSnapshot : Type 0 where
  pub active_game : Option GameWindow
  pub overlay_mode : OverlayMode
  pub session_elapsed_ms : Option ℕ  -- u64
  pub telemetry : Option GameTelemetry
  pub manual_stopwatch : ManualStopwatchSnapshot

abbrev pub empty_snapshot : CoreSnapshot
empty_snapshot = record {
  active_game = none;
  overlay_mode = passive;
  session_elapsed_ms = none;
  telemetry = none;
  manual_stopwatch = stopped_at_zero;
}

pub record VersionedCoreSnapshot : Type 0 where
  pub revision : ℕ  -- u64
  pub snapshot : CoreSnapshot

pub record CoreState : Type 0 where
  pub snapshot : CoreSnapshot

abbrev pub default_state : CoreState
default_state = record { snapshot = empty_snapshot }

unfoldable pub observe_game : CoreState → GameWindow → CoreState
observe_game s game = record { snapshot = record s.snapshot { active_game = some game } }
  where
    open s use {snapshot}

unfoldable pub clear_game : CoreState → CoreState
clear_game s = record {
  snapshot = record (s.snapshot) {
    active_game = none;
    overlay_mode = passive;
    session_elapsed_ms = none;
  };
}

abbrev pub other_mode : OverlayMode → OverlayMode
other_mode passive = interactive
other_mode interactive = passive

unfoldable pub toggle_overlay : CoreState → CoreState
toggle_overlay s = record {
  snapshot = record (s.snapshot) {
    overlay_mode =
        if is_none s.snapshot.active_game then passive else other_mode s.snapshot.overlay_mode;
  };
}

unfoldable pub set_overlay_interactive : CoreState → Bool → CoreState
set_overlay_interactive s wanted = record {
  snapshot = record (s.snapshot) {
    overlay_mode = if wanted && is_some s.snapshot.active_game then interactive else passive;
  };
}

-- The derived `==`.
abbrev pub rect_eq : Rect → Rect → Bool
rect_eq a b = int_eq a.x b.x && (int_eq a.y b.y && (a.width == b.width && a.height == b.height))

unfoldable pub game_eq : GameWindow → GameWindow → Bool
game_eq a b =
    opt_eq (λ m n. m == n) a.pid b.pid
    && (opt_eq (λ m n. m == n) a.steam_app_id b.steam_app_id
        && (opt_eq text_eq a.app_id b.app_id
            && (text_eq a.title b.title
                && (rect_eq a.rect b.rect
                    && (float_eq a.scale b.scale && text_eq a.backend b.backend)))))

abbrev pub mode_eq : OverlayMode → OverlayMode → Bool
mode_eq passive passive = true
mode_eq interactive interactive = true
mode_eq _ _ = false

unfoldable pub telemetry_eq : GameTelemetry → GameTelemetry → Bool
telemetry_eq a b =
    opt_eq (λ m n. m == n) a.cpu_percent_hundredths b.cpu_percent_hundredths
    && (opt_eq (λ m n. m == n) a.resident_bytes b.resident_bytes
        && (opt_eq int_eq a.cpu_temperature_millicelsius b.cpu_temperature_millicelsius
            && opt_eq int_eq a.gpu_temperature_millicelsius b.gpu_temperature_millicelsius))
