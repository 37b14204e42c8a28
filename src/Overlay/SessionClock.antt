-- ===== src/Overlay/SessionClock.antt =====
-- crates/overcrow-overlay/src/session_clock.rs: the session's time between two samples of the core.
use player_vox_over_crow.Common.{
  ℕ, ◌+◌, ◌-◌, ◌*◌, ◌/◌, ◌%◌, ◌≤◌, ◌<◌, ◌≡◌, ◌⊎◌, Option, none, some, inl, inr, Option-cases, arith,
}
use player_vox_over_crow.Common.Options.{map_option}
use player_vox_over_crow.Common.Time.{saturating_add, duration_max}

pub record SessionAnchor : Type 0 where
  pub elapsed : ℕ  -- Duration
  pub received_at : ℕ  -- Instant

pub record SessionClock : Type 0 where
  pub anchor : Option SessionAnchor

abbrev pub new_clock : SessionClock
new_clock = record { anchor = none }

unfoldable pub sync : SessionClock → Option ℕ → ℕ → SessionClock
sync clock elapsed_ms received_at = record {
  anchor =
      map_option (λ ms. record { elapsed = ms * 1000000; received_at = received_at }) elapsed_ms;
}

unfoldable pub elapsed_at : SessionClock → ℕ → Option ℕ
unfolding saturating_add
elapsed_at clock now =
    map_option (λ (a : SessionAnchor). saturating_add duration_max a.elapsed (now - a.received_at))
      clock.anchor

abbrev pub subsec_millis : ℕ → ℕ
subsec_millis elapsed = elapsed % 1000000000 / 1000000

unfoldable pub repaint_after : SessionClock → ℕ → Option ℕ
unfolding elapsed_at
repaint_after clock now =
    map_option (λ elapsed. (1000 - subsec_millis elapsed) * 1000000) (elapsed_at clock now)

-- The wait for a time that is shown.
abbrev pub NextSecond : ℕ → ℕ → Type 0
NextSecond elapsed delay =
    (1000000 ≤ delay)
    × (delay ≤ 1000000000)
    × ((elapsed + delay) / 1000000000 ≡ elapsed / 1000000000 + 1)
    × ((elapsed + delay) % 1000000000 < 1000000)

next_second : (elapsed : ℕ) → NextSecond elapsed ((1000 - subsec_millis elapsed) * 1000000)
next_second elapsed = (omega arith, omega arith, omega arith, omega arith)

-- While a time is shown, the wait before it is painted again is at least a millisecond and at most a
-- second, and ends within the first millisecond of the next second; without a sample there is none.
pub repaint_after-NextSecond :
    (clock : SessionClock) (now : ℕ)
    → ((elapsed_at clock now ≡ none) × (repaint_after clock now ≡ none))
      ⊎ ((elapsed : ℕ) × (delay : ℕ) × (elapsed_at clock now ≡ some elapsed)
          × (repaint_after clock now ≡ some delay)
          × NextSecond elapsed delay)
unfolding repaint_after
repaint_after-NextSecond clock now = elim (Option-cases (elapsed_at clock now)) [
  | inl e ↦ inl (e, rw (repaint_after, e))
  | inr (elapsed, e) ↦ inr (
    elapsed,
    (1000 - subsec_millis elapsed) * 1000000,
    e,
    rw (repaint_after, e),
    next_second elapsed,
  )
]
