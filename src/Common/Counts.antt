-- ===== src/Common/Counts.antt =====
-- How many elements of a list satisfy a predicate, and that all do, as relations that no test of the
-- code enters.
use Prim.Native.Nat.{ℕ, suc}
use mathlib.Core.Path.{◌≡◌, refl}
use mathlib.Core.Logic.{◌↔◌, inl, inr}
use mathlib.Core.Bool.{Bool, true, ◌&&◌}
use mathlib.Core.List.{List, [], ◌∷◌}
use native.Mathlib.Omega.{arith}
use player_vox_over_crow.Common.Tests.{Bool-cases, &&_true}
use player_vox_over_crow.Common.Lists.{length, keep, all}

pub data Counts {A : Type 0} (P : A → Type 0) : List A → ℕ → Type 0 where
  nothing : Counts P [] 0
  hit : {x : A} {xs : List A} {n : ℕ} → P x → Counts P xs n → Counts P (x ∷ xs) (suc n)
  miss : {x : A} {xs : List A} {n : ℕ} → (P x → ⊥) → Counts P xs n → Counts P (x ∷ xs) n

-- A test that answers true of what satisfies a predicate and of nothing else.
abbrev pub Reflects : {A : Type 0} → (A → Bool) → (A → Type 0) → Type 0
Reflects {A} p P = (x : A) → (p x ≡ true → P x) × (P x → p x ≡ true)

module _ {A : Type 0} (P : A → Type 0) where
  pub Counts-keep : (p : A → Bool) → Reflects p P → (xs : List A) → Counts P xs (length (keep p xs))
  Counts-keep p e [] = nothing
  Counts-keep p e (x ∷ xs) = elim (Bool-cases (p x)) [
    | inl t ↦ rw t (hit ((e x).0 t) (Counts-keep p e xs))
    | inr f ↦ rw f (miss (λ h. let t = (e x).1 h in cc) (Counts-keep p e xs))
  ]

  -- What is kept by one test and then by another.
  pub Counts-keep-keep :
      (p q : A → Bool)
      → Reflects (λ x. p x && q x) P
      → (xs : List A) → Counts P xs (length (keep q (keep p xs)))
  Counts-keep-keep p q e [] = nothing
  Counts-keep-keep p q e (x ∷ xs) = elim (Bool-cases (p x)) [
    | inl t ↦ elim (Bool-cases (q x)) [
      | inl u ↦ rw (t, u) (hit ((e x).0 (ground (arith, t, u))) (Counts-keep-keep p q e xs))
      | inr u ↦
          rw (t, u)
            (miss (λ h. let k = (e x).1 h in let l = rw (t, u) at k in cc)
              (Counts-keep-keep p q e xs))
    ]
    | inr f ↦
        rw f (miss (λ h. let k = (e x).1 h in let l = rw f at k in cc) (Counts-keep-keep p q e xs))
  ]

-- Every element of a list satisfies a predicate.
abbrev pub Every : {A : Type 0} → (A → Type 0) → List A → Type 0
Every P [] = Unit {0}
Every P (x ∷ xs) = P x × Every P xs

pub all-Every :
    {A : Type 0} (P : A → Type 0) (p : A → Bool)
    → ((x : A) → (p x ≡ true) ↔ P x)
    → (xs : List A) → (all p xs ≡ true) ↔ Every P xs
all-Every P p e [] = (λ h. tt, λ h. refl)
all-Every P p e (x ∷ xs) = (
  λ h.
      let (first, rest) = &&_true (p x) (all p xs) h in
      ((e x).0 first, (all-Every P p e xs).0 rest),
  λ h. let first = (e x).1 h.0 in let rest = (all-Every P p e xs).1 h.1 in rw (first, rest) refl,
)
