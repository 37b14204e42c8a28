-- ===== src/Common/Lists.antt =====
-- Lists measured by native numbers, searches in them, and association lists for `HashMap`.
use Prim.Native.Nat.{ℕ, suc, ◌+◌}
use mathlib.Core.Path.{◌≡◌, refl, ap, ap₂, sym}
use mathlib.Core.Logic.{inl, inr}
use mathlib.Core.Bool.{Bool, true, false, ◌&&◌, ◌||◌}
use mathlib.Core.List.{List, [], ◌∷◌, ◌++◌, Memᴰ, map}
use mathlib.Core.Option.{Option, none, some}
use native.Mathlib.Omega.{arith}
use player_vox_over_crow.Common.Tests.{Decides, Bool-cases, if◌then◌else◌, &&_true, ◌==◌}

module _ {ℓ} {A : Type ℓ} where
  abbrev pub length : List A → ℕ
  length [] = 0
  length (x ∷ xs) = suc (length xs)

  abbrev pub any : (A → Bool) → List A → Bool
  any p [] = false
  any p (x ∷ xs) = p x || any p xs

  abbrev pub all : (A → Bool) → List A → Bool
  all p [] = true
  all p (x ∷ xs) = p x && all p xs

  abbrev pub keep : (A → Bool) → List A → List A
  keep p [] = []
  keep p (x ∷ xs) = if p x then x ∷ keep p xs else keep p xs

  abbrev pub list_eq : (A → A → Bool) → List A → List A → Bool
  list_eq eq [] [] = true
  list_eq eq (x ∷ xs) (y ∷ ys) = eq x y && list_eq eq xs ys
  list_eq eq _ _ = false

  pub length-append : (xs ys : List A) → length (xs ++ ys) ≡ length xs + length ys
  length-append [] ys = omega arith
  length-append (x ∷ xs) ys = omega (arith, length-append xs ys)

  pub any-append : (p : A → Bool) (xs ys : List A) → any p (xs ++ ys) ≡ (any p xs || any p ys)
  any-append p [] ys = refl
  any-append p (x ∷ xs) ys = ground (arith, any-append p xs ys)

  pub list_eq_refl :
      (eq : A → A → Bool) → ((a : A) → eq a a ≡ true) → (xs : List A) → list_eq eq xs xs ≡ true
  list_eq_refl eq r [] = refl
  list_eq_refl eq r (x ∷ xs) = ground (arith, r x, list_eq_refl eq r xs)

  pub list_eq_iff : (eq : A → A → Bool) → Decides eq → Decides (list_eq eq)
  list_eq_iff eq d [] [] = (λ _. refl, λ _. refl)
  list_eq_iff eq d [] (y ∷ ys) = (λ h. cc, λ h. cc)
  list_eq_iff eq d (x ∷ xs) [] = (λ h. cc, λ h. cc)
  list_eq_iff eq d (x ∷ xs) (y ∷ ys) = (
    λ h. let (p, q) = &&_true _ _ h in ap₂ (◌∷◌) ((d x y).0 p) ((list_eq_iff eq d xs ys).0 q),
    λ h. ground (arith, d x y, list_eq_iff eq d xs ys),
  )

-- What a search finds, and that it finds what is there.
module _ {ℓ} {A : Type ℓ} where
  pub any-witness :
      (p : A → Bool) (xs : List A) → any p xs ≡ true → (x : A) × Memᴰ x xs × (p x ≡ true)
  any-witness p [] h = cc
  any-witness p (x ∷ xs) h = elim (Bool-cases (p x)) [
    | inl e ↦ (x, Memᴰ.head refl, e)
    | inr e ↦ let (y, m, q) = any-witness p xs (ground arith) in (y, Memᴰ.tail m, q)
  ]

  pub any-mem : (p : A → Bool) (xs : List A) (x : A) → Memᴰ x xs → p x ≡ true → any p xs ≡ true
  any-mem p [] x m h = elim m [ ]
  any-mem p (y ∷ xs) x (Memᴰ.head e) h = let q = ap p e in ground arith
  any-mem p (y ∷ xs) x (Memᴰ.tail m) h = let q = any-mem p xs x m h in ground arith

  pub mem-map {κ} :
      {B : Type κ} (f : A → B) (xs : List A) (b : B)
      → Memᴰ b (map f xs)
      → (x : A) × Memᴰ x xs × (f x ≡ b)
  mem-map f [] b m = elim m [ ]
  mem-map f (x ∷ xs) b (Memᴰ.head e) = (x, Memᴰ.head refl, sym e)
  mem-map f (x ∷ xs) b (Memᴰ.tail m) = let (y, k, e) = mem-map f xs b m in (y, Memᴰ.tail k, e)

  pub mem-map_of_mem {κ} :
      {B : Type κ} (f : A → B) (xs : List A) (x : A) → Memᴰ x xs → Memᴰ (f x) (map f xs)
  mem-map_of_mem f [] x m = elim m [ ]
  mem-map_of_mem f (y ∷ xs) x (Memᴰ.head e) = Memᴰ.head (ap f e)
  mem-map_of_mem f (y ∷ xs) x (Memᴰ.tail m) = Memᴰ.tail (mem-map_of_mem f xs x m)

-- A map keyed by numbers. The first entry of a key counts.
module _ {ℓ} {V : Type ℓ} where
  abbrev pub get : ℕ → List (ℕ × V) → Option V
  get k [] = none
  get k ((j, v) ∷ m) = if j == k then some v else get k m

  abbrev pub values : List (ℕ × V) → List V
  values [] = []
  values ((j, v) ∷ m) = v ∷ values m

  abbrev pub keys : List (ℕ × V) → List ℕ
  keys [] = []
  keys ((j, v) ∷ m) = j ∷ keys m
