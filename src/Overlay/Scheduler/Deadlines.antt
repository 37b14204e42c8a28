-- ===== src/Overlay/Scheduler/Deadlines.antt =====
-- Work is due once for a deadline, and is not slept through.
use player_vox_over_crow.Common.{
  ℕ, ◌+◌, ◌-◌, ◌≤◌, ◌<◌, ◌==◌, ◌≡◌, ◌⊎◌, refl, leb, true, false, Option, none, some, [], ◌∷◌, inl,
  inr, Bool-cases, arith,
}
use player_vox_over_crow.Common.Time.{u64_max, checked_add, instant_max}
use player_vox_over_crow.Overlay.Scheduler.{
  MarketDeadline, OverlayScheduler, take_market_refresh, take_warframe_tick, market_deadline,
  is_not_yet, is_changed, next_repaint_after, earliest, pending_market, warframe_tick_interval,
  is_due,
}

-- A tick is not followed by another within a second, while the clock is not at its end.
pub take_warframe_tick-again :
    (s : OverlayScheduler) (now later : ℕ)
    → now + warframe_tick_interval ≤ instant_max
    → (take_warframe_tick s true now).1 ≡ true
    → later < now + warframe_tick_interval
    → (take_warframe_tick (take_warframe_tick s true now).0 true later).1 ≡ false
unfolding take_warframe_tick checked_add
take_warframe_tick-again s now later fits due soon =
    elim (Bool-cases (is_due s.warframe_tick_at now)) [
      | inl e ↦
          let fit : leb (now + warframe_tick_interval) instant_max ≡ true = ground (arith, fits) in
          let wait : leb (now + warframe_tick_interval) later ≡ false = ground (arith, soon) in
          rw (e, fit, wait)
      | inr e ↦ let k = rw (take_warframe_tick, e) at due in cc
    ]

market_deadline_kept :
    (d : MarketDeadline) (revision refresh_at now wall_secs : ℕ)
    → d.revision ≡ revision
    → d.wall_secs ≡ refresh_at
    → market_deadline (some d) revision refresh_at now wall_secs ≡ d
unfolding market_deadline
market_deadline_kept d revision refresh_at now wall_secs h k =
    let same : is_changed (some d) revision refresh_at ≡ false = ground (arith, h, k) in rw same

market_deadline-key :
    (o : Option MarketDeadline) (revision refresh_at now wall_secs : ℕ)
    → ((market_deadline o revision refresh_at now wall_secs).revision ≡ revision)
      × ((market_deadline o revision refresh_at now wall_secs).wall_secs ≡ refresh_at)
unfolding market_deadline
market_deadline-key none revision refresh_at now wall_secs = (refl, refl)
market_deadline-key (some d) revision refresh_at now wall_secs =
    elim (Bool-cases (is_changed (some d) revision refresh_at)) [
      | inl e ↦ rw e (refl, refl)
      | inr e ↦ rw e (ground (arith, e), ground (arith, e))
    ]

-- A refresh fires once: after it, no call for the same revision and wall time fires at any time.
pub take_market_refresh-again :
    (s : OverlayScheduler) (revision refresh_at now wall_secs later later_secs : ℕ)
    → (take_market_refresh s true true revision refresh_at now wall_secs).1 ≡ true
    → (take_market_refresh
        (take_market_refresh s true true revision refresh_at now wall_secs).0
        true
        true
        revision
        refresh_at
        later
        later_secs).1
      ≡ false
unfolding take_market_refresh
take_market_refresh-again s revision refresh_at now wall_secs later later_secs h =
    elim (Bool-cases (refresh_at == u64_max)) [
      | inl e ↦ let k = rw (take_market_refresh, e) at h in cc
      | inr e ↦
          let d = market_deadline s.market_refresh revision refresh_at now wall_secs in
          let (r, w) = market_deadline-key s.market_refresh revision refresh_at now wall_secs in
          let kept =
            market_deadline_kept (record d { fired = true }) revision refresh_at later later_secs r
              w in
          elim (Bool-cases (is_not_yet d now wall_secs)) [
            | inl f ↦ let k = rw (take_market_refresh, e, f) at h in cc
            | inr f ↦ rw (e, f, kept)
          ]
    ]

-- Not after the deadline, if there is one.
abbrev pub AtMost : ℕ → Option ℕ → ℕ → Type 0
AtMost delay none now = Unit
AtMost delay (some deadline) now = delay ≤ deadline - now

earliest-AtMost :
    (a b c : Option ℕ) (now : ℕ)
    → ((a ≡ none) × (b ≡ none) × (c ≡ none) × (earliest (a ∷ b ∷ c ∷ []) ≡ none))
      ⊎ ((m : ℕ) × (earliest (a ∷ b ∷ c ∷ []) ≡ some m)
          × AtMost (m - now) a now
          × AtMost (m - now) b now
          × AtMost (m - now) c now)
earliest-AtMost none none none now = inl (refl, refl, refl, refl)
earliest-AtMost (some x) none none now = inr (_, refl, omega arith, tt, tt)
earliest-AtMost none (some y) none now = inr (_, refl, tt, omega arith, tt)
earliest-AtMost none none (some z) now = inr (_, refl, tt, tt, omega arith)
earliest-AtMost (some x) (some y) none now = inr (_, refl, ground arith, ground arith, tt)
earliest-AtMost (some x) none (some z) now = inr (_, refl, ground arith, tt, ground arith)
earliest-AtMost none (some y) (some z) now = inr (_, refl, tt, ground arith, ground arith)
earliest-AtMost (some x) (some y) (some z) now =
    inr (_, refl, ground arith, ground arith, ground arith)

-- The next repaint is due no later than each deadline that is still open.
pub next_repaint_after-earliest :
    (s : OverlayScheduler) (now : ℕ)
    → ((next_repaint_after s now ≡ none)
        × (s.warframe_tick_at ≡ none)
        × (pending_market s.market_refresh ≡ none)
        × (s.copy_flash_at ≡ none))
      ⊎ ((delay : ℕ) × (next_repaint_after s now ≡ some delay)
          × AtMost delay s.warframe_tick_at now
          × AtMost delay (pending_market s.market_refresh) now
          × AtMost delay s.copy_flash_at now)
unfolding next_repaint_after
next_repaint_after-earliest s now =
    elim (earliest-AtMost s.warframe_tick_at (pending_market s.market_refresh) s.copy_flash_at
      now) [
        | inl (a, b, c, e) ↦ inl (rw (next_repaint_after, e), a, b, c)
        | inr (m, e, a, b, c) ↦ inr (m - now, rw (next_repaint_after, e), a, b, c)
      ]
