-- ===== src/Overlay/Scheduler.antt =====
-- crates/overcrow-overlay/src/runtime/scheduler.rs: when the overlay's timed work is due.
pub mod Deadlines
use player_vox_over_crow.Common.{
  ℕ, ◌-◌, ◌*◌, ◌==◌, leb, ltb, Bool, true, false, not, ◌&&◌, ◌||◌, Option, none, some, is_none,
  List, [], ◌∷◌, if◌then◌else◌,
}
use player_vox_over_crow.Common.Options.{map_option, filter_option}
use player_vox_over_crow.Common.Time.{u64_max, checked_add}

abbrev pub warframe_tick_interval : ℕ
warframe_tick_interval = 1000000000

pub record MarketDeadline : Type 0 where
  pub revision : ℕ  -- u64
  pub wall_secs : ℕ  -- u64
  pub monotonic : ℕ  -- Instant
  pub fired : Bool

pub record OverlayScheduler : Type 0 where
  pub warframe_tick_at : Option ℕ  -- Instant
  pub market_refresh : Option MarketDeadline
  pub copy_flash_at : Option ℕ  -- Instant
  pub last_observed_wall_secs : Option ℕ  -- u64

abbrev pub new_scheduler : OverlayScheduler
new_scheduler = record {
  warframe_tick_at = none;
  market_refresh = none;
  copy_flash_at = none;
  last_observed_wall_secs = none;
}

-- `is_none_or(|deadline| now >= deadline)` and `is_none_or(|deadline| now < deadline)`.
abbrev pub is_due : Option ℕ → ℕ → Bool
is_due none now = true
is_due (some deadline) now = leb deadline now

abbrev pub is_before : Option ℕ → ℕ → Bool
is_before none now = true
is_before (some deadline) now = ltb now deadline

unfoldable pub take_warframe_tick : OverlayScheduler → Bool → ℕ → OverlayScheduler × Bool
unfolding checked_add
take_warframe_tick s enabled now =
    if not enabled
    then (record s { warframe_tick_at = none }, false)
    else if is_due s.warframe_tick_at now
    then (record s { warframe_tick_at = checked_add now warframe_tick_interval }, true)
    else (s, false)

abbrev pub is_changed : Option MarketDeadline → ℕ → ℕ → Bool
is_changed none revision refresh_at = true
is_changed (some d) revision refresh_at =
    not (d.revision == revision) || not (d.wall_secs == refresh_at)

abbrev pub or_now : Option ℕ → ℕ → ℕ
or_now none now = now
or_now (some later) now = later

-- The deadline that is kept, or the one that a change of the selection sets.
unfoldable pub market_deadline : Option MarketDeadline → ℕ → ℕ → ℕ → ℕ → MarketDeadline
unfolding checked_add
market_deadline none revision refresh_at now wall_secs = record {
  revision = revision;
  wall_secs = refresh_at;
  monotonic = or_now (checked_add now ((refresh_at - wall_secs) * 1000000000)) now;
  fired = false;
}
market_deadline (some d) revision refresh_at now wall_secs =
    if is_changed (some d) revision refresh_at
    then record {
      revision = revision;
      wall_secs = refresh_at;
      monotonic = or_now (checked_add now ((refresh_at - wall_secs) * 1000000000)) now;
      fired = false;
    }
    else d

abbrev pub is_not_yet : MarketDeadline → ℕ → ℕ → Bool
is_not_yet d now wall_secs = d.fired || ltb now d.monotonic && ltb wall_secs d.wall_secs

unfoldable pub take_market_refresh :
    OverlayScheduler → Bool → Bool → ℕ → ℕ → ℕ → ℕ → OverlayScheduler × Bool
unfolding market_deadline
take_market_refresh s enabled has_selection revision refresh_at now wall_secs =
    let deadline = market_deadline s.market_refresh revision refresh_at now wall_secs in
    if not enabled || not has_selection || refresh_at == u64_max
    then (record s { last_observed_wall_secs = some wall_secs; market_refresh = none }, false)
    else if is_not_yet deadline now wall_secs
    then (
      record s { last_observed_wall_secs = some wall_secs; market_refresh = some deadline },
      false,
    )
    else (
      record s {
        last_observed_wall_secs = some wall_secs;
        market_refresh = some (record deadline { fired = true });
      },
      true,
    )

unfoldable pub set_copy_flash_deadline : OverlayScheduler → Option ℕ → OverlayScheduler
set_copy_flash_deadline s deadline = record s { copy_flash_at = deadline }

unfoldable pub take_copy_flash_expired : OverlayScheduler → ℕ → OverlayScheduler × Bool
take_copy_flash_expired s now =
    if is_before s.copy_flash_at now then (s, false) else (record s { copy_flash_at = none }, true)

-- `into_iter().flatten().min()`.
abbrev pub earliest : List (Option ℕ) → Option ℕ
earliest [] = none
earliest (none ∷ rest) = earliest rest
earliest (some t ∷ rest) = elim (earliest rest) [
  | none ↦ some t
  | some u ↦ some (if leb t u then t else u)
]

abbrev pub pending_market : Option MarketDeadline → Option ℕ
pending_market market =
    map_option (λ (d : MarketDeadline). d.monotonic)
      (filter_option (λ (d : MarketDeadline). not d.fired) market)

unfoldable pub next_repaint_after : OverlayScheduler → ℕ → Option ℕ
next_repaint_after s now =
    map_option (λ deadline. deadline - now)
      (earliest (s.warframe_tick_at ∷ pending_market s.market_refresh ∷ s.copy_flash_at ∷ []))
