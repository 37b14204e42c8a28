-- ===== src/Core/Telemetry/Share.antt =====
-- The processor share between two samples, as the largest number below a quotient.
use native.Mathlib.Nat.{le-div_iff_mul-le, div-lt_iff_lt-mul}
use player_vox_over_crow.Common.{
  ℕ, ◌+◌, ◌-◌, ◌*◌, ◌/◌, ◌≤◌, ◌<◌, ◌≡◌, ◌⊎◌, ◌↔◌, inl, inr, refl, sym, ap, ◌∙◌, Bool, true, false,
  Option, none, some, arith, Bool-cases, ◌==◌, ltb, leb, if◌then◌else◌,
}
use player_vox_over_crow.Common.Time.{u32_max, u64_max, u128_max, clamp_to}
use player_vox_over_crow.Core.Telemetry.{ProcessSample, cpu_percent_hundredths}

clamp-fits : (cap n : ℕ) → n ≤ cap → clamp_to cap n ≡ n
unfolding clamp_to
clamp-fits cap n h = ground arith

-- Ticks of 64 bits leave room for the two factors in 128 bits.
scaled-fits :
    (used : ℕ)
    → used ≤ u64_max
    → clamp_to u128_max (clamp_to u128_max (used * 10000) * 1000000000) ≡ used * 10000 * 1000000000
scaled-fits used h =
    rw (clamp-fits u128_max (used * 10000) (omega arith))
      (clamp-fits u128_max (used * 10000 * 1000000000) (omega arith))

-- The largest number of 32 bits that is not above the ticks used, in ten-thousandths of the ticks
-- passed. The ticks passed are counted in billionths.
abbrev pub IsShare : ℕ → ℕ → ℕ → Type 0
IsShare used elapsed share =
    (share ≤ u32_max)
    × (share * elapsed ≤ used * 10000 * 1000000000)
    × ((share ≡ u32_max) ⊎ (used * 10000 * 1000000000 < (share + 1) * elapsed))

abbrev Nearest : ℕ → ℕ → Type 0
Nearest q n = (n ≤ u32_max) × (n ≤ q) × ((n ≡ u32_max) ⊎ (q < n + 1))

clamp_to-Nearest : (q n : ℕ) → (clamp_to u32_max q ≡ n) ↔ Nearest q n
unfolding clamp_to
clamp_to-Nearest q n = (
  λ h. elim (Bool-cases (leb q u32_max)) [
    | inl e ↦
        let same : q ≡ n = rw (e, clamp_to) at h in
        (ground (arith, e, same), omega arith, inr (omega arith))
    | inr e ↦
        let same : u32_max ≡ n = rw (e, clamp_to) at h in
        (omega arith, ground (arith, e, same), inl (sym same))
  ],
  λ h. elim (h.2) [ inl e ↦ ground (arith, h.0, h.1, e) | inr e ↦ ground (arith, h.0, h.1, e) ],
)

Nearest-IsShare :
    (used d n : ℕ) → 0 < d → Nearest (used * 10000 * 1000000000 / d) n ↔ IsShare used d n
Nearest-IsShare used d n h = (
  λ k. (
    k.0,
    (le-div_iff_mul-le h).0 k.1,
    elim (k.2) [ inl e ↦ inl e | inr e ↦ inr ((div-lt_iff_lt-mul h).0 e) ],
  ),
  λ k. (
    k.0,
    (le-div_iff_mul-le h).1 k.1,
    elim (k.2) [ inl e ↦ inl e | inr e ↦ inr ((div-lt_iff_lt-mul h).1 e) ],
  ),
)

-- The early returns, for any sample.
share_of : Bool → Bool → Bool → Bool → ℕ → Option ℕ
share_of late wide still reset n =
    if late
    then none
    else if wide
    then none
    else if still
    then none
    else if reset
    then none
    else some n

share_of-some :
    (late wide still reset : Bool) (m n : ℕ)
    → (share_of late wide still reset m ≡ some n)
      ↔ ((late ≡ false) × (wide ≡ false) × (still ≡ false) × (reset ≡ false) × (m ≡ n))
unfolding share_of
share_of-some true wide still reset m n = (λ h. cc, λ h. cc)
share_of-some false true still reset m n = (λ h. cc, λ h. cc)
share_of-some false false true reset m n = (λ h. cc, λ h. cc)
share_of-some false false false true m n = (λ h. cc, λ h. cc)
share_of-some false false false false m n = (λ h. (refl, refl, refl, refl, cc), λ h. ap some (h.4))

ltb-false_iff : (m n : ℕ) → (ltb m n ≡ false) ↔ (n ≤ m)
ltb-false_iff m n = (λ h. ground (arith, h), λ h. ground (arith, h))

positive_iff : (n : ℕ) → ((n == 0) ≡ false) ↔ (0 < n)
positive_iff n = (λ h. ground (arith, h), λ h. ground (arith, h))

cpu_percent_hundredths-share_of :
    (a b : ProcessSample) (ticks_per_second : ℕ)
    → b.resources.total_cpu_ticks ≤ u64_max
    → let elapsed = (b.observed_at - a.observed_at) * ticks_per_second in
      let used = b.resources.total_cpu_ticks - a.resources.total_cpu_ticks in
      cpu_percent_hundredths a b ticks_per_second
      ≡ share_of
          (ltb b.observed_at a.observed_at)
          (ltb u128_max elapsed)
          (elapsed == 0)
          (ltb b.resources.total_cpu_ticks a.resources.total_cpu_ticks)
          (clamp_to u32_max (used * 10000 * 1000000000 / elapsed))
unfolding cpu_percent_hundredths share_of
cpu_percent_hundredths-share_of a b ticks_per_second fits =
    rw (scaled-fits (b.resources.total_cpu_ticks - a.resources.total_cpu_ticks) (omega arith)) refl

-- With 64-bit tick counters, two samples give a share exactly when they are in order of time and of
-- ticks and some time has passed, which fits 128 bits in ticks; and the share is then the largest
-- number of 32 bits that is not above the ticks used in ten-thousandths of the ticks passed.
pub cpu_percent_hundredths-IsShare :
    (a b : ProcessSample) (ticks_per_second share : ℕ)
    → b.resources.total_cpu_ticks ≤ u64_max
    → let elapsed = (b.observed_at - a.observed_at) * ticks_per_second in
      let used = b.resources.total_cpu_ticks - a.resources.total_cpu_ticks in
      (cpu_percent_hundredths a b ticks_per_second ≡ some share) ↔ (
        (a.observed_at ≤ b.observed_at)
        × (elapsed ≤ u128_max)
        × (0 < elapsed)
        × (a.resources.total_cpu_ticks ≤ b.resources.total_cpu_ticks)
        × IsShare used elapsed share)
cpu_percent_hundredths-IsShare a b ticks_per_second share fits =
    let elapsed = (b.observed_at - a.observed_at) * ticks_per_second in
    let used = b.resources.total_cpu_ticks - a.resources.total_cpu_ticks in
    let q = used * 10000 * 1000000000 / elapsed in
    let e = cpu_percent_hundredths-share_of a b ticks_per_second fits in
    let guards =
      share_of-some (ltb b.observed_at a.observed_at) (ltb u128_max elapsed) (elapsed == 0)
        (ltb b.resources.total_cpu_ticks a.resources.total_cpu_ticks) (clamp_to u32_max q) share in
    let near = clamp_to-Nearest q share in
    (
      λ h.
          let (late, wide, still, reset, n) = guards.0 (sym e ∙ h) in
          let passed = (positive_iff elapsed).0 still in
          (
            (ltb-false_iff _ _).0 late,
            (ltb-false_iff _ _).0 wide,
            passed,
            (ltb-false_iff _ _).0 reset,
            (Nearest-IsShare used elapsed share passed).0 (near.0 n),
          ),
      λ h.
          e
          ∙ guards.1 (
            (ltb-false_iff _ _).1 h.0,
            (ltb-false_iff _ _).1 h.1,
            (positive_iff elapsed).1 h.2,
            (ltb-false_iff _ _).1 h.3,
            near.1 ((Nearest-IsShare used elapsed share h.2).1 h.4),
          ),
    )
