-- ===== src/Core/Stopwatch/Laws.antt =====
-- The stopwatch against the plain sum of its laps.
use native.Mathlib.Nat.{add_assoc, zero-add}
use player_vox_over_crow.Common.{ℕ, ◌+◌, ◌-◌, ◌≡◌, ap, ◌∙◌, none, List, [], ◌∷◌, arith}
use player_vox_over_crow.Common.Time.{duration_max, clamp_to, saturating_add}
use player_vox_over_crow.Core.Stopwatch.{ManualStopwatch, new_stopwatch, toggle, elapsed}

-- The stopwatch after presses at these moments.
unfoldable pub presses : ManualStopwatch → List ℕ → ManualStopwatch
presses w [] = w
presses w (t ∷ ts) = presses (toggle w t) ts

-- What it should show: the laps between the first and second press, the third and fourth, and so
-- on, and the one that is still running.
unfoldable pub laps : List ℕ → ℕ → ℕ
laps [] now = 0
laps (a ∷ []) now = now - a
laps (a ∷ b ∷ ts) now = (b - a) + laps ts now

stopped_at : ℕ → ManualStopwatch
stopped_at total = record { accumulated = clamp_to duration_max total; started_at = none }

clamp_add : (cap total k : ℕ) → saturating_add cap (clamp_to cap total) k ≡ clamp_to cap (total + k)
unfolding saturating_add
clamp_add cap total k = ground arith

lap_toggle : (total a b : ℕ) → toggle (toggle (stopped_at total) a) b ≡ stopped_at (total + (b - a))
unfolding toggle stopped_at
lap_toggle total a b = rw (clamp_add duration_max total (b - a))

stopped_presses :
    (total : ℕ) (ts : List ℕ) (now : ℕ)
    → elapsed (presses (stopped_at total) ts) now ≡ clamp_to duration_max (total + laps ts now)
unfolding presses laps elapsed stopped_at
stopped_presses total [] now = ap (clamp_to duration_max) (omega arith)
stopped_presses total (a ∷ []) now = unfold toggle in clamp_add duration_max total (now - a)
stopped_presses total (a ∷ b ∷ ts) now =
    ap (λ w. elapsed (presses w ts) now) (lap_toggle total a b)
    ∙ stopped_presses (total + (b - a)) ts now
    ∙ ap (clamp_to duration_max) (add_assoc total (b - a) (laps ts now))

-- A new stopwatch shows, after any presses, the sum of its laps, up to the longest duration.
pub elapsed-presses :
    (ts : List ℕ) (now : ℕ)
    → elapsed (presses new_stopwatch ts) now ≡ clamp_to duration_max (laps ts now)
unfolding stopped_at clamp_to
elapsed-presses ts now =
    stopped_presses 0 ts now ∙ ap (clamp_to duration_max) (zero-add (laps ts now))
