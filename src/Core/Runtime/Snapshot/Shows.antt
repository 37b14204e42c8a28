-- ===== src/Core/Runtime/Snapshot/Shows.antt =====
-- What a published snapshot shows, field by field, and that the comparison of snapshots decides it.
use player_vox_over_crow.Common.{
  ℕ, ◌≡◌, ◌⊎◌, inl, inr, refl, ap, ◌∙◌, Bool, true, false, not, ◌&&◌, ◌||◌, Option, none, some,
  opt_eq, opt_eq_iff, bool_eq, bool_eq_iff, is_some, arith, ◌==◌, ==_iff, &&_true,
}
use player_vox_over_crow.Common.Text.{text_eq, text_eq_iff}
use player_vox_over_crow.Common.Time.{millis}
use player_vox_over_crow.Common.Float.{Float, float_eq, nan, infinity, above, below}
use player_vox_over_crow.Common.Int.{int_eq, int_eq_iff}
use player_vox_over_crow.Protocol.{
  Rect, GameWindow, GameTelemetry, CoreSnapshot, OverlayMode, passive, interactive, rect_eq,
  game_eq, telemetry_eq, mode_eq,
}
use player_vox_over_crow.Core.Stopwatch
use player_vox_over_crow.Core.Stopwatch.{ManualStopwatch}
use player_vox_over_crow.Core.Runtime.State.{CoreRuntime}
use player_vox_over_crow.Core.Runtime.Snapshot.{snapshot_at, snapshot_state_changed, over_game}

-- The snapshot shows the game and the mode of the state and the telemetry and the stopwatch of the
-- metadata. While the stopwatch runs, subscribers count its time themselves.
abbrev pub Shows : CoreSnapshot → CoreRuntime → Type 0
Shows s r =
    (s.active_game ≡ r.state.snapshot.active_game)
    × (s.overlay_mode ≡ r.state.snapshot.overlay_mode)
    × (s.telemetry ≡ r.metadata.telemetry)
    × (s.manual_stopwatch.running ≡ is_some r.metadata.manual_stopwatch.started_at)
    × ((is_some r.metadata.manual_stopwatch.started_at ≡ true)
        ⊎ (s.manual_stopwatch.elapsed_ms ≡ millis r.metadata.manual_stopwatch.accumulated))

float_eq-eq : (a b : Float) → float_eq a b ≡ true → a ≡ b
float_eq-eq nan b h = cc
float_eq-eq (infinity true) (infinity true) h = refl
float_eq-eq (infinity false) (infinity false) h = refl
float_eq-eq (infinity true) (infinity false) h = cc
float_eq-eq (infinity false) (infinity true) h = cc
float_eq-eq (infinity a) nan h = ground (arith, h)
float_eq-eq (infinity a) (above n) h = ground (arith, h)
float_eq-eq (infinity a) (below n) h = ground (arith, h)
float_eq-eq (above m) (above n) h = ap above ((==_iff m n).0 h)
float_eq-eq (above m) nan h = cc
float_eq-eq (above m) (infinity b) h = cc
float_eq-eq (above m) (below n) h = cc
float_eq-eq (below m) (below n) h = ap below ((==_iff m n).0 h)
float_eq-eq (below m) nan h = cc
float_eq-eq (below m) (infinity b) h = cc
float_eq-eq (below m) (above n) h = cc

rect_eq-eq : (a b : Rect) → rect_eq a b ≡ true → a ≡ b
rect_eq-eq a b h =
    let (x, rest) = &&_true _ _ h in
    let (y, rest2) = &&_true _ _ rest in
    let (w, ht) = &&_true (a.width == b.width) (a.height == b.height) rest2 in
    let ex = (int_eq_iff a.x b.x).0 x in
    let ey = (int_eq_iff a.y b.y).0 y in
    let ew = (==_iff a.width b.width).0 w in
    let eh = (==_iff a.height b.height).0 ht in
    λ i. record { x = ex i; y = ey i; width = ew i; height = eh i }

game_eq-eq : (a b : GameWindow) → game_eq a b ≡ true → a ≡ b
unfolding game_eq
game_eq-eq a b h =
    let (h1, r1) = &&_true (opt_eq (λ (m n : ℕ). m == n) a.pid b.pid) _ h in
    let (h2, r2) = &&_true (opt_eq (λ (m n : ℕ). m == n) a.steam_app_id b.steam_app_id) _ r1 in
    let (h3, r3) = &&_true (opt_eq text_eq a.app_id b.app_id) _ r2 in
    let (h4, r4) = &&_true (text_eq a.title b.title) _ r3 in
    let (h5, r5) = &&_true (rect_eq a.rect b.rect) _ r4 in
    let (h6, h7) = &&_true (float_eq a.scale b.scale) (text_eq a.backend b.backend) r5 in
    let e1 = (opt_eq_iff (λ (m n : ℕ). m == n) ==_iff a.pid b.pid).0 h1 in
    let e2 = (opt_eq_iff (λ (m n : ℕ). m == n) ==_iff a.steam_app_id b.steam_app_id).0 h2 in
    let e3 = (opt_eq_iff text_eq text_eq_iff a.app_id b.app_id).0 h3 in
    let e4 = (text_eq_iff a.title b.title).0 h4 in
    let e5 = rect_eq-eq a.rect b.rect h5 in
    let e6 = float_eq-eq a.scale b.scale h6 in
    let e7 = (text_eq_iff a.backend b.backend).0 h7 in
    λ i. record {
      pid = e1 i;
      steam_app_id = e2 i;
      app_id = e3 i;
      title = e4 i;
      rect = e5 i;
      scale = e6 i;
      backend = e7 i;
    }

telemetry_eq-eq : (a b : GameTelemetry) → telemetry_eq a b ≡ true → a ≡ b
unfolding telemetry_eq
telemetry_eq-eq a b h =
    let (h1, r1) =
      &&_true (opt_eq (λ (m n : ℕ). m == n) a.cpu_percent_hundredths b.cpu_percent_hundredths) _
        h in
    let (h2, r2) = &&_true (opt_eq (λ (m n : ℕ). m == n) a.resident_bytes b.resident_bytes) _ r1 in
    let (h3, h4) =
      &&_true (opt_eq int_eq a.cpu_temperature_millicelsius b.cpu_temperature_millicelsius)
        (opt_eq int_eq a.gpu_temperature_millicelsius b.gpu_temperature_millicelsius) r2 in
    let e1 = (opt_eq_iff (λ (m n : ℕ). m == n) ==_iff _ _).0 h1 in
    let e2 = (opt_eq_iff (λ (m n : ℕ). m == n) ==_iff _ _).0 h2 in
    let e3 = (opt_eq_iff int_eq int_eq_iff _ _).0 h3 in
    let e4 = (opt_eq_iff int_eq int_eq_iff _ _).0 h4 in
    λ i. record {
      cpu_percent_hundredths = e1 i;
      resident_bytes = e2 i;
      cpu_temperature_millicelsius = e3 i;
      gpu_temperature_millicelsius = e4 i;
    }

opt-eq {ℓ} :
    {A : Type ℓ} (eq : A → A → Bool)
    → ((a b : A) → eq a b ≡ true → a ≡ b)
    → (x y : Option A) → opt_eq eq x y ≡ true
    → x ≡ y
opt-eq eq f none none h = refl
opt-eq eq f none (some b) h = cc
opt-eq eq f (some a) none h = cc
opt-eq eq f (some a) (some b) h = ap some (f a b h)

mode_eq-eq : (a b : OverlayMode) → mode_eq a b ≡ true → a ≡ b
mode_eq-eq passive passive h = refl
mode_eq-eq interactive interactive h = refl
mode_eq-eq passive interactive h = cc
mode_eq-eq interactive passive h = cc

unchanged : (a rest : Bool) → (not a || rest) ≡ false → (a ≡ true) × (rest ≡ false)
unchanged true rest h = (refl, h)
unchanged false rest h = cc

stopwatch-elapsed :
    (shown : ℕ) (w : ManualStopwatch) (now : ℕ)
    → (not (is_some w.started_at) && not (shown == (Stopwatch.snapshot_at w now).elapsed_ms))
      ≡ false
    → (is_some w.started_at ≡ true) ⊎ (shown ≡ millis w.accumulated)
unfolding Stopwatch.snapshot_at
stopwatch-elapsed shown w now h = by_start w.started_at h
  where
    by_start :
        (o : Option ℕ)
        → (not (is_some o) && not (shown == millis (Stopwatch.elapsed_from o w.accumulated now)))
          ≡ false
        → (is_some o ≡ true) ⊎ (shown ≡ millis w.accumulated)
    by_start (some t) k = inl refl
    by_start none k = inr ((==_iff shown (millis w.accumulated)).0 (ground (arith, k)))

-- A snapshot that counts as unchanged shows everything, where no telemetry is kept without a game.
pub unchanged-Shows :
    (s : CoreSnapshot) (r : CoreRuntime) (now : ℕ)
    → over_game r.state.snapshot.active_game r.metadata.telemetry ≡ r.metadata.telemetry
    → snapshot_state_changed s (snapshot_at r now) ≡ false
    → Shows s r
unfolding snapshot_state_changed snapshot_at Stopwatch.snapshot_at
unchanged-Shows s r now kept h =
    let n = snapshot_at r now in
    let (h1, r1) = unchanged (opt_eq game_eq s.active_game n.active_game) _ h in
    let (h2, r2) = unchanged (mode_eq s.overlay_mode n.overlay_mode) _ r1 in
    let (h3, r3) = unchanged (opt_eq telemetry_eq s.telemetry n.telemetry) _ r2 in
    let (h4, h5) = unchanged (bool_eq s.manual_stopwatch.running n.manual_stopwatch.running) _ r3 in
    (
      opt-eq game_eq game_eq-eq s.active_game n.active_game h1,
      mode_eq-eq s.overlay_mode n.overlay_mode h2,
      opt-eq telemetry_eq telemetry_eq-eq s.telemetry n.telemetry h3 ∙ kept,
      (bool_eq_iff s.manual_stopwatch.running n.manual_stopwatch.running).0 h4,
      stopwatch-elapsed s.manual_stopwatch.elapsed_ms r.metadata.manual_stopwatch now h5,
    )
