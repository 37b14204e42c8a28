-- ===== src/Protocol/Laws.antt =====
-- The overlay's mode against the active game, and the reflexivity of the derived equalities.
use player_vox_over_crow.Common.{ℕ, ◌≡◌, refl, Bool, true, opt_eq_refl, arith, is_some, ◌==◌}
use player_vox_over_crow.Common.{list_eq_refl}
use player_vox_over_crow.Common.Text.{Text, text_eq}
use player_vox_over_crow.Common.Float.{is_finite, float_eq_refl}
use player_vox_over_crow.Common.Int.{int_eq, ℤ}
use player_vox_over_crow.Protocol.{
  GameWindow, GameTelemetry, CoreSnapshot, CoreState, OverlayMode, interactive, game_eq,
  telemetry_eq, mode_eq, observe_game, clear_game, toggle_overlay, set_overlay_interactive,
}

-- The overlay takes input only over a game.
abbrev pub ModeFits : CoreSnapshot → Type 0
ModeFits s = s.overlay_mode ≡ interactive → is_some s.active_game ≡ true

pub observe_game-ModeFits : (s : CoreState) (g : GameWindow) → ModeFits (observe_game s g).snapshot
unfolding observe_game
observe_game-ModeFits s g h = refl

pub clear_game-ModeFits : (s : CoreState) → ModeFits (clear_game s).snapshot
unfolding clear_game
clear_game-ModeFits s = ground arith

pub toggle_overlay-ModeFits : (s : CoreState) → ModeFits (toggle_overlay s).snapshot
unfolding toggle_overlay
toggle_overlay-ModeFits s = ground arith

pub set_overlay_interactive-ModeFits :
    (s : CoreState) (wanted : Bool) → ModeFits (set_overlay_interactive s wanted).snapshot
unfolding set_overlay_interactive
set_overlay_interactive-ModeFits s wanted = ground arith

nat_refl : (n : ℕ) → (n == n) ≡ true
nat_refl n = ground arith

int_refl : (z : ℤ) → int_eq z z ≡ true
int_refl z = ground arith

pub text_eq_refl : (s : Text) → text_eq s s ≡ true
text_eq_refl = list_eq_refl _ nat_refl

pub mode_eq_refl : (m : OverlayMode) → mode_eq m m ≡ true
mode_eq_refl m = ground arith

pub game_eq_refl : (g : GameWindow) → is_finite g.scale ≡ true → game_eq g g ≡ true
unfolding game_eq
game_eq_refl g h = ground (
  arith,
  opt_eq_refl (λ (m n : ℕ). m == n) nat_refl g.pid,
  opt_eq_refl (λ (m n : ℕ). m == n) nat_refl g.steam_app_id,
  opt_eq_refl text_eq text_eq_refl g.app_id,
  text_eq_refl g.title,
  int_refl g.rect.x,
  int_refl g.rect.y,
  float_eq_refl g.scale h,
  text_eq_refl g.backend,
)

pub telemetry_eq_refl : (t : GameTelemetry) → telemetry_eq t t ≡ true
unfolding telemetry_eq
telemetry_eq_refl t = ground (
  arith,
  opt_eq_refl (λ (m n : ℕ). m == n) nat_refl t.cpu_percent_hundredths,
  opt_eq_refl (λ (m n : ℕ). m == n) nat_refl t.resident_bytes,
  opt_eq_refl int_eq int_refl t.cpu_temperature_millicelsius,
  opt_eq_refl int_eq int_refl t.gpu_temperature_millicelsius,
)
