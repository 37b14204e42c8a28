-- ===== src/Hyprland/Diagnostics.antt =====
-- crates/overcrow-hyprland/src/bridge.rs, `DiagnosticRateLimiter`: at most one line per interval, with
-- the number of those left out since.
use player_vox_over_crow.Common.{
  ℕ, suc, ◌+◌, ◌≤◌, ◌≡◌, leb, Bool, true, Option, none, some, List, [], ◌∷◌, length, inl, inr,
  Bool-cases, arith, if◌then◌else◌,
}
use player_vox_over_crow.Common.Time.{u64_max, saturating_add, checked_add}

pub record DiagnosticRateLimiter : Type 0 where
  pub interval : ℕ  -- Duration
  pub next : Option ℕ  -- Instant
  pub suppressed : ℕ  -- u64

abbrev pub is_due : Option ℕ → ℕ → Bool
is_due none now = true
is_due (some deadline) now = leb deadline now

unfoldable pub admit_at : DiagnosticRateLimiter → ℕ → DiagnosticRateLimiter × Option ℕ
unfolding saturating_add checked_add
admit_at l now =
    if is_due l.next now
    then (record l { next = checked_add now l.interval; suppressed = 0 }, some l.suppressed)
    else (record l { suppressed = saturating_add u64_max l.suppressed 1 }, none)

-- What an admitted line accounts for: itself and those left out before it.
abbrev pub accounted : Option ℕ → ℕ
accounted none = 0
accounted (some suppressed) = suc suppressed

-- The calls of the limiter in turn, with what the admitted lines account for.
unfoldable pub admit_all : DiagnosticRateLimiter → List ℕ → DiagnosticRateLimiter × ℕ
unfolding admit_at
admit_all l [] = (l, 0)
admit_all l (now ∷ times) =
    let (after, admitted) = admit_at l now in
    let (final, total) = admit_all after times in (final, accounted admitted + total)

admit_at-accounted :
    (l : DiagnosticRateLimiter) (now : ℕ)
    → l.suppressed + 1 ≤ u64_max
    → accounted (admit_at l now).1 + (admit_at l now).0.suppressed ≡ l.suppressed + 1
unfolding admit_at saturating_add
admit_at-accounted l now h = elim (Bool-cases (is_due l.next now)) [
  | inl e ↦ rw e (omega arith)
  | inr e ↦ rw e (ground (arith, h))
]

-- No line is lost from the count: what the admitted lines account for and what is left out since the
-- last of them is every call, while the count fits 64 bits.
pub admit_all-accounted :
    (l : DiagnosticRateLimiter) (times : List ℕ)
    → l.suppressed + length times ≤ u64_max
    → (admit_all l times).1 + (admit_all l times).0.suppressed ≡ l.suppressed + length times
unfolding admit_all
admit_all-accounted l [] h = omega arith
admit_all-accounted l (now ∷ times) h =
    let after = (admit_at l now).0 in
    let one = admit_at-accounted l now (omega (arith, h)) in
    let rest = admit_all-accounted after times (omega (arith, one, h)) in omega (arith, one, rest)
