-- ===== src/Core/Telemetry/Laws.antt =====
-- The sums over a group of processes, its membership, and the processor share.
use mathlib.Core.List.{Permᴰ, Perm}
use mathlib.Core.Logic.{∥∥₁_elim}
use native.Mathlib.Nat.{ℕ_set, zero-add}
use mathlib.Core.Path.{ap₂}
use player_vox_over_crow.Common.{
  ℕ, zero, suc, ◌+◌, ◌<◌, ◌≡◌, refl, sym, ap, ◌∙◌, subst, true, some, List, [], ◌∷◌, any, arith,
  Bool-cases, Option-cases, inl, inr, get, ◌==◌, ==_iff,
}
use player_vox_over_crow.Common.Time.{u64_max, clamp_to, saturating_add}
use player_vox_over_crow.Core.Classifier.{
  ProcessInfo, ProcessResources, ProcessTable, max_ancestors,
}
use player_vox_over_crow.Core.Telemetry.{
  add_resources, aggregate_from, aggregate_resources, descends_loop, is_descendant_or_self,
}

unfoldable pub sum_ticks : List ProcessInfo → ℕ
sum_ticks [] = 0
sum_ticks (p ∷ ps) = p.resources.total_cpu_ticks + sum_ticks ps

unfoldable pub sum_bytes : List ProcessInfo → ℕ
sum_bytes [] = 0
sum_bytes (p ∷ ps) = p.resources.resident_bytes + sum_bytes ps

-- Sums that stop at the largest number.
abbrev pub clamped : ℕ → ℕ → ProcessResources
clamped ticks bytes = record {
  total_cpu_ticks = clamp_to u64_max ticks;
  resident_bytes = clamp_to u64_max bytes;
}

clamp_add : (cap total k : ℕ) → saturating_add cap (clamp_to cap total) k ≡ clamp_to cap (total + k)
unfolding saturating_add
clamp_add cap total k = ground arith

add-clamped :
    (ticks bytes : ℕ) (p : ProcessInfo)
    → add_resources (clamped ticks bytes) p
      ≡ clamped (ticks + p.resources.total_cpu_ticks) (bytes + p.resources.resident_bytes)
add-clamped ticks bytes p = λ i. record {
  total_cpu_ticks = clamp_add u64_max ticks p.resources.total_cpu_ticks i;
  resident_bytes = clamp_add u64_max bytes p.resources.resident_bytes i;
}

aggregate_from-clamped :
    (ticks bytes : ℕ) (ps : List ProcessInfo)
    → aggregate_from (clamped ticks bytes) ps
      ≡ clamped (ticks + sum_ticks ps) (bytes + sum_bytes ps)
unfolding aggregate_from sum_ticks sum_bytes
aggregate_from-clamped ticks bytes [] = ap₂ clamped (omega arith) (omega arith)
aggregate_from-clamped ticks bytes (p ∷ ps) = rw (add-clamped ticks bytes p) (
    aggregate_from-clamped (ticks + p.resources.total_cpu_ticks)
      (bytes + p.resources.resident_bytes) ps
    ∙ ap₂ clamped (omega arith) (omega arith))

aggregate-clamped :
    (ps : List ProcessInfo) → aggregate_resources ps ≡ clamped (sum_ticks ps) (sum_bytes ps)
unfolding aggregate_resources clamp_to
aggregate-clamped ps =
    aggregate_from-clamped 0 0 ps ∙ ap₂ clamped (zero-add (sum_ticks ps)) (zero-add (sum_bytes ps))

sum_ticks-perm : {ps qs : List ProcessInfo} → Permᴰ ps qs → sum_ticks ps ≡ sum_ticks qs
unfolding sum_ticks
sum_ticks-perm Permᴰ.nil = refl
sum_ticks-perm (Permᴰ.cons e h) =
    ap₂ (◌+◌) (ap (λ (p : ProcessInfo). p.resources.total_cpu_ticks) e) (sum_ticks-perm h)
sum_ticks-perm (Permᴰ.swap e f) = omega (
  arith,
  ap (λ (p : ProcessInfo). p.resources.total_cpu_ticks) e,
  ap (λ (p : ProcessInfo). p.resources.total_cpu_ticks) f,
)
sum_ticks-perm (Permᴰ.trans h k) = sum_ticks-perm h ∙ sum_ticks-perm k

sum_bytes-perm : {ps qs : List ProcessInfo} → Permᴰ ps qs → sum_bytes ps ≡ sum_bytes qs
unfolding sum_bytes
sum_bytes-perm Permᴰ.nil = refl
sum_bytes-perm (Permᴰ.cons e h) =
    ap₂ (◌+◌) (ap (λ (p : ProcessInfo). p.resources.resident_bytes) e) (sum_bytes-perm h)
sum_bytes-perm (Permᴰ.swap e f) = omega (
  arith,
  ap (λ (p : ProcessInfo). p.resources.resident_bytes) e,
  ap (λ (p : ProcessInfo). p.resources.resident_bytes) f,
)
sum_bytes-perm (Permᴰ.trans h k) = sum_bytes-perm h ∙ sum_bytes-perm k

-- The aggregate is the sum of each counter, cut off at `u64::MAX`, and the order in which the hash
-- map gives the processes does not matter.
pub aggregate_resources-sum :
    (ps qs : List ProcessInfo)
    → Perm ps qs
    → (aggregate_resources ps ≡ clamped (sum_ticks ps) (sum_bytes ps))
      × (aggregate_resources qs ≡ aggregate_resources ps)
aggregate_resources-sum ps qs h = (
  aggregate-clamped ps,
  aggregate-clamped qs
      ∙ ap₂ clamped (sym (∥∥₁_elim h (ℕ_set _ _) sum_ticks-perm))
          (sym (∥∥₁_elim h (ℕ_set _ _) sum_bytes-perm))
      ∙ sym (aggregate-clamped ps),
)

-- `Reaches table n p q`: the parent of the parent … of `p` is `q`, in `n` steps.
pub data Reaches (table : ProcessTable) : ℕ → ℕ → ℕ → Type 0 where
  self : {p : ℕ} → Reaches table 0 p p
  parent :
      {n p q : ℕ} (i : ProcessInfo)
      → get p table ≡ some i
      → Reaches table n i.parent_pid q
      → Reaches table (suc n) p q

descends_loop-Reaches :
    (fuel : ℕ) (seen : List ℕ) (pid active : ℕ) (table : ProcessTable)
    → descends_loop fuel seen pid active table ≡ true
    → (n : ℕ) × (n < fuel) × Reaches table n pid active
unfolding descends_loop
descends_loop-Reaches zero seen pid active table h = cc
descends_loop-Reaches (suc fuel) seen pid active table h =
    elim (Bool-cases (any (λ k. k == pid) seen)) [
      | inl e ↦ absurd (ground (arith, rw (e, descends_loop) at h))
      | inr e ↦ elim (Bool-cases (pid == active)) [
        | inl f ↦
            (0, omega arith, subst (λ q. Reaches table 0 pid q) ((==_iff pid active).0 f) self)
        | inr f ↦ elim (Option-cases (get pid table)) [
          | inl g ↦ absurd (ground (arith, rw (e, f, g, descends_loop) at h))
          | inr (i, g) ↦
              let (n, k, r) =
                descends_loop-Reaches fuel (pid ∷ seen) i.parent_pid active table
                  (rw (e, f, g, descends_loop) at h) in
              (suc n, omega arith, parent i g r)
        ]
      ]
    ]

-- A process that counts as a descendant reaches the active one through fewer than 64 parents.
pub is_descendant_or_self-Reaches :
    (pid active : ℕ) (table : ProcessTable)
    → is_descendant_or_self pid active table ≡ true
    → (n : ℕ) × (n < max_ancestors) × Reaches table n pid active
unfolding is_descendant_or_self
is_descendant_or_self-Reaches pid active table h =
    descends_loop-Reaches max_ancestors [] pid active table h
