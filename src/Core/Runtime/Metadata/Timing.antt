-- ===== src/Core/Runtime/Metadata/Timing.antt =====
-- The session's time, which never runs backwards for one process.
use player_vox_over_crow.Common.{
  ℕ, ◌+◌, ◌-◌, ◌≤◌, ◌≡◌, refl, ◌⊎◌, true, Option, none, some, arith, ltb, Bool-cases, inl, inr,
}
use player_vox_over_crow.Common.Time.{duration_max, saturating_add}
use player_vox_over_crow.Core.Classifier.{ProcessTiming, elapsed_at}
use player_vox_over_crow.Core.Runtime.State.{ProcessInstance, instance_eq}
use player_vox_over_crow.Core.Runtime.Metadata.{raise_to_floor, reconcile_process_timing}

sat-le :
    (cap a b c d : ℕ)
    → saturating_add cap a b ≤ saturating_add cap c d
    → (k : ℕ) → saturating_add cap a (b + k) ≤ saturating_add cap c (d + k)
unfolding saturating_add
sat-le cap a b c d h k = ground arith

sat_twice :
    (cap e a k : ℕ) → saturating_add cap e (a + k) ≤ saturating_add cap (saturating_add cap e a) k
unfolding saturating_add
sat_twice cap e a k = ground arith

instance_eq_refl : (p : ProcessInstance) → instance_eq p p ≡ true
instance_eq_refl p = ground arith

from_floor :
    (floor : ProcessTiming) (now k : ℕ)
    → floor.observed_at ≤ now
    → elapsed_at floor (now + k)
      ≤ elapsed_at
          (record { elapsed_at_observation = elapsed_at floor now; observed_at = now })
          (now + k)
unfolding elapsed_at
from_floor floor now k h =
    let e : now + k - floor.observed_at ≡ now - floor.observed_at + k = omega arith in
    let f : now + k - now ≡ k = omega arith in
    rw (e, f) (sat_twice duration_max floor.elapsed_at_observation (now - floor.observed_at) k)

from_current :
    (floor current : ProcessTiming) (now k : ℕ)
    → floor.observed_at ≤ now
    → current.observed_at ≤ now
    → elapsed_at floor now ≤ elapsed_at current now
    → elapsed_at floor (now + k) ≤ elapsed_at current (now + k)
unfolding elapsed_at
from_current floor current now k hf hc h =
    let e : now + k - floor.observed_at ≡ now - floor.observed_at + k = omega arith in
    let f : now + k - current.observed_at ≡ now - current.observed_at + k = omega arith in
    rw (e, f)
      (sat-le duration_max floor.elapsed_at_observation (now - floor.observed_at)
        current.elapsed_at_observation (now - current.observed_at) h k)

raise_to_floor-le :
    (floor current : ProcessTiming) (now k : ℕ)
    → floor.observed_at ≤ now
    → current.observed_at ≤ now
    → elapsed_at floor (now + k) ≤ elapsed_at (raise_to_floor (some floor) current now) (now + k)
raise_to_floor-le floor current now k hf hc =
    elim (Bool-cases (ltb (elapsed_at current now) (elapsed_at floor now))) [
      | inl e ↦ rw e (from_floor floor now k hf)
      | inr e ↦ rw e (from_current floor current now k hf hc (ground arith))
    ]

-- The timing and the floor that come of a floor `f`: the new floor is at no later moment behind
-- `f`, and the timing that is shown, if any, is the new floor.
abbrev pub NoEarlier : ProcessTiming → ℕ → Option ProcessTiming × Option ProcessTiming → Type 0
NoEarlier f now (shown, floor) =
    (f' : ProcessTiming) × (floor ≡ some f')
    × ((shown ≡ none) ⊎ (shown ≡ some f'))
    × ((k : ℕ) → elapsed_at f (now + k) ≤ elapsed_at f' (now + k))

abbrev pub ObservedBy : Option ProcessTiming → ℕ → Type 0
ObservedBy none now = Unit {0}
ObservedBy (some t) now = t.observed_at ≤ now

-- While the process stays the same, and the floor and the timing that is read for it, if any, were
-- observed by now, the elapsed time does not fall back now or later: a reading behind the floor is
-- raised to it, a missing one keeps it, and a timing that is shown is the new floor.
pub reconcile_process_timing-NoEarlier :
    (p : ProcessInstance) (f : ProcessTiming) (timing : Option ProcessTiming) (now : ℕ)
    → f.observed_at ≤ now
    → ObservedBy timing now
    → NoEarlier f now (reconcile_process_timing (some p) (some f) p timing now)
unfolding reconcile_process_timing
reconcile_process_timing-NoEarlier p f none now hf ht =
    rw (instance_eq_refl p) (f, refl, inl refl, λ k. omega arith)
reconcile_process_timing-NoEarlier p f (some t) now hf ht =
    rw (instance_eq_refl p)
      (raise_to_floor (some f) t now, refl, inr refl, λ k. raise_to_floor-le f t now k hf ht)
