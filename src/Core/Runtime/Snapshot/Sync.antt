-- ===== src/Core/Runtime/Snapshot/Sync.antt =====
-- What `publish_snapshot` keeps: the published snapshot shows the current one, at any later time,
-- and its revision counts the changes.
use player_vox_over_crow.Common.{
  ℕ, ◌≡◌, refl, ◌∙◌, ◌⊎◌, inl, inr, Bool, true, false, not, ◌&&◌, ◌||◌, Option, none, some, opt_eq,
  opt_eq_refl, arith, ◌==◌, bool_eq, Bool-cases,
}
use player_vox_over_crow.Common.Time.{u64_max, saturating_add}
use player_vox_over_crow.Common.Float.{is_finite}
use player_vox_over_crow.Protocol.{
  GameWindow, CoreSnapshot, VersionedCoreSnapshot, game_eq, telemetry_eq, ManualStopwatchSnapshot,
}
use player_vox_over_crow.Protocol.Laws.{game_eq_refl, telemetry_eq_refl, mode_eq_refl}
use player_vox_over_crow.Core.Stopwatch
use player_vox_over_crow.Core.Stopwatch.{ManualStopwatch}
use player_vox_over_crow.Core.Runtime.State.{CoreRuntime, RuntimeMetadata}
use player_vox_over_crow.Core.Runtime.Snapshot.{
  snapshot_of, snapshot_at, snapshot_state_changed, publish_snapshot,
}

-- The game's scale is a number that equals itself.
abbrev pub FiniteScale : Option GameWindow → Type 0
FiniteScale none = Unit {0}
FiniteScale (some g) = is_finite g.scale ≡ true

opt_game_refl : (o : Option GameWindow) → FiniteScale o → opt_eq game_eq o o ≡ true
opt_game_refl none h = refl
opt_game_refl (some g) h = game_eq_refl g h

pub snapshot_state_changed_refl :
    (s : CoreSnapshot) → FiniteScale s.active_game → snapshot_state_changed s s ≡ false
unfolding snapshot_state_changed
snapshot_state_changed_refl s h = ground (
  arith,
  opt_game_refl s.active_game h,
  mode_eq_refl s.overlay_mode,
  opt_eq_refl telemetry_eq telemetry_eq_refl s.telemetry,
)

-- The stopwatch's part of the comparison.
abbrev stopwatch_changed : ManualStopwatchSnapshot → ManualStopwatchSnapshot → Bool
stopwatch_changed p n =
    not (bool_eq p.running n.running) || not n.running && not (p.elapsed_ms == n.elapsed_ms)

stopwatch_changed-any_time :
    (p : ManualStopwatchSnapshot) (o : Option ℕ) (acc a b : ℕ)
    → let w : ManualStopwatch = record { accumulated = acc; started_at = o } in
      stopwatch_changed p (Stopwatch.snapshot_at w a)
      ≡ stopwatch_changed p (Stopwatch.snapshot_at w b)
unfolding Stopwatch.snapshot_at
stopwatch_changed-any_time p none acc a b = refl
stopwatch_changed-any_time p (some t) acc a b = ground arith

-- Whether the snapshot of a moment differs does not depend on the moment.
pub changed-any_time :
    (p s : CoreSnapshot) (m : RuntimeMetadata) (a b : ℕ)
    → snapshot_state_changed p (snapshot_of s m a) ≡ snapshot_state_changed p (snapshot_of s m b)
unfolding snapshot_state_changed snapshot_of
changed-any_time p s m a b = rw (
    stopwatch_changed-any_time p.manual_stopwatch m.manual_stopwatch.started_at
      m.manual_stopwatch.accumulated a b)

-- The published snapshot is the current one, whenever it is looked at.
abbrev pub InSync : CoreRuntime → Type 0
InSync r = (now : ℕ) → snapshot_state_changed r.published.snapshot (snapshot_at r now) ≡ false

-- After the snapshot of a moment was published, subscribers see the current state from then on.
pub publish_snapshot-InSync :
    (r : CoreRuntime) (now : ℕ)
    → FiniteScale r.state.snapshot.active_game
    → InSync (publish_snapshot r (snapshot_at r now)).0
unfolding publish_snapshot snapshot_at
publish_snapshot-InSync r now h later =
    let s = r.state.snapshot in
    let m = r.metadata in
    elim (Bool-cases (snapshot_state_changed r.published.snapshot (snapshot_of s m now))) [
      | inl e ↦
          rw (e, publish_snapshot)
            (changed-any_time (snapshot_of s m now) s m later now
              ∙ snapshot_state_changed_refl (snapshot_of s m now) h)
      | inr e ↦ rw (e, publish_snapshot) (changed-any_time r.published.snapshot s m later now ∙ e)
    ]

-- The published snapshot stays, or a different one takes its place under the next revision.
abbrev pub NextPublished : VersionedCoreSnapshot → VersionedCoreSnapshot → Type 0
NextPublished p q =
    (q ≡ p)
    ⊎ ((q.revision ≡ saturating_add u64_max p.revision 1)
        × (snapshot_state_changed p.snapshot q.snapshot ≡ true))

pub publish_snapshot-NextPublished :
    (r : CoreRuntime) (s : CoreSnapshot)
    → NextPublished r.published (publish_snapshot r s).0.published
unfolding publish_snapshot
publish_snapshot-NextPublished r s =
    elim (Bool-cases (snapshot_state_changed r.published.snapshot s)) [
      | inl e ↦ rw (e, publish_snapshot) (inr (refl, e))
      | inr e ↦ rw (e, publish_snapshot) (inl refl)
    ]

-- Publishing touches nothing else.
pub publish_snapshot-state :
    (r : CoreRuntime) (s : CoreSnapshot) → (publish_snapshot r s).0.state ≡ r.state
unfolding publish_snapshot
publish_snapshot-state r s = ground arith

pub publish_snapshot-metadata :
    (r : CoreRuntime) (s : CoreSnapshot) → (publish_snapshot r s).0.metadata ≡ r.metadata
unfolding publish_snapshot
publish_snapshot-metadata r s = ground arith

pub publish_snapshot-settings :
    (r : CoreRuntime) (s : CoreSnapshot) → (publish_snapshot r s).0.settings ≡ r.settings
unfolding publish_snapshot
publish_snapshot-settings r s = ground arith
