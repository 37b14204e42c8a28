-- ===== src/Common/Options.antt =====
-- `Option` chains, and Rust's searches over iterators.
use Prim.Native.Nat.{◌≤◌}
use native.Mathlib.Omega.{arith}
use mathlib.Core.Path.{◌≡◌, refl, ap, sym, ◌∙◌}
use mathlib.Core.Logic.{inl, inr}
use mathlib.Core.Bool.{Bool, true, false, ◌&&◌}
use mathlib.Core.Option.{Option, none, some}
use mathlib.Core.List.{List, [], ◌∷◌, ◌++◌, Memᴰ}
use player_vox_over_crow.Common.Tests.{Bool-cases, Option-cases, if◌then◌else◌}
use player_vox_over_crow.Common.Lists.{length, keep, all}

infixl 5 ◌>>=◌ ◌>>◌
abbrev pub ◌>>=◌ {ℓ κ} : {A : Type ℓ} {B : Type κ} → Option A → (A → Option B) → Option B
none >>= f = none
some a >>= f = f a

abbrev pub ◌>>◌ {ℓ} : {B : Type ℓ} → Option (Unit {0}) → Option B → Option B
m >> k = m >>= λ _. k

abbrev pub guard : Bool → Option (Unit {0})
guard true = some tt
guard false = none

module _ {ℓ} {A : Type ℓ} where
  -- `bool::then_some`.
  abbrev pub then_some : Bool → A → Option A
  then_some true a = some a
  then_some false a = none

  -- `Option::filter`.
  abbrev pub filter_option : (A → Bool) → Option A → Option A
  filter_option p none = none
  filter_option p (some a) = if p a then some a else none

  -- `Iterator::find`.
  abbrev pub find : (A → Bool) → List A → Option A
  find p [] = none
  find p (x ∷ xs) = if p x then some x else find p xs

  abbrev pub is_empty : List A → Bool
  is_empty [] = true
  is_empty (x ∷ xs) = false

  -- The last element and what is before it.
  abbrev pub last : List A → Option A
  last [] = none
  last (x ∷ []) = some x
  last (x ∷ y ∷ xs) = last (y ∷ xs)

  pub find-mem :
      (p : A → Bool) (xs : List A) (x : A) → find p xs ≡ some x → Memᴰ x xs × (p x ≡ true)
  find-mem p [] x h = cc
  find-mem p (y ∷ ys) x h = elim (Bool-cases (p y)) [
    | inl e ↦
        let same : some y ≡ some x = rw e at h in
        let equal : y ≡ x = cc in (Memᴰ.head (sym equal), ap p (sym equal) ∙ e)
    | inr e ↦ let (m, q) = find-mem p ys x (rw e at h) in (Memᴰ.tail m, q)
  ]

module _ {ℓ κ} {A : Type ℓ} {B : Type κ} where
  abbrev pub filter_map : (A → Option B) → List A → List B
  filter_map f [] = []
  filter_map f (x ∷ xs) = elim (f x) [ none ↦ filter_map f xs | some y ↦ y ∷ filter_map f xs ]

  -- `Iterator::find_map`.
  abbrev pub find_map : (A → Option B) → List A → Option B
  find_map f [] = none
  find_map f (x ∷ xs) = elim (f x) [ none ↦ find_map f xs | some y ↦ some y ]

  pub find_map-eq-some :
      (f : A → Option B) (xs : List A) (y : B)
      → find_map f xs ≡ some y
      → (x : A) × Memᴰ x xs × (f x ≡ some y)
  find_map-eq-some f [] y h = cc
  find_map-eq-some f (x ∷ xs) y h = elim (Option-cases (f x)) [
    | inl e ↦ let (z, m, k) = find_map-eq-some f xs y (rw (e, find_map) at h) in (z, Memᴰ.tail m, k)
    | inr (v, e) ↦
        let same : some v ≡ some y = rw (e, find_map) at h in (x, Memᴰ.head refl, e ∙ same)
  ]

  abbrev pub flat_map : (A → List B) → List A → List B
  flat_map f [] = []
  flat_map f (x ∷ xs) = f x ++ flat_map f xs

-- `Option::map`.
abbrev pub map_option {ℓ κ} : {A : Type ℓ} {B : Type κ} → (A → B) → Option A → Option B
map_option f none = none
map_option f (some a) = some (f a)

-- An option chain that gives a value.
pub >>=-eq-some {ℓ κ} :
    {A : Type ℓ} {B : Type κ} (m : Option A) (f : A → Option B) {b : B}
    → (m >>= f) ≡ some b
    → (a : A) × (m ≡ some a) × (f a ≡ some b)
>>=-eq-some none f h = cc
>>=-eq-some (some a) f h = (a, refl, h)

pub guard-eq-some {ℓ} :
    {B : Type ℓ} (b : Bool) (k : Option B) {v : B}
    → (guard b >> k) ≡ some v
    → (b ≡ true) × (k ≡ some v)
guard-eq-some true k h = (refl, h)
guard-eq-some false k h = cc

pub filter_option-eq-some {ℓ} :
    {A : Type ℓ} (p : A → Bool) (o : Option A) {a : A}
    → filter_option p o ≡ some a
    → (o ≡ some a) × (p a ≡ true)
filter_option-eq-some p none h = cc
filter_option-eq-some p (some b) {a} h = elim (Bool-cases (p b)) [
  | inl e ↦
      let same : some b ≡ some a = rw e at h in
      let equal : b ≡ a = cc in (same, ap p (sym equal) ∙ e)
  | inr e ↦ let none_left : none ≡ some a = rw e at h in cc
]

pub is_empty-append {ℓ} :
    {A : Type ℓ} (xs ys : List A) → is_empty (xs ++ ys) ≡ (is_empty xs && is_empty ys)
is_empty-append [] ys = refl
is_empty-append (x ∷ xs) ys = refl

pub is_empty-flat_map {ℓ κ} :
    {A : Type ℓ} {B : Type κ} (f : A → List B) (p : A → Bool)
    → ((a : A) → is_empty (f a) ≡ p a)
    → (xs : List A) → is_empty (flat_map f xs) ≡ all p xs
is_empty-flat_map f p e [] = refl
is_empty-flat_map f p e (x ∷ xs) =
    rw (is_empty-append (f x) (flat_map f xs), e x, is_empty-flat_map f p e xs)

-- What is kept, and whether anything is there, in numbers.
pub length-keep-le {ℓ} : {A : Type ℓ} (p : A → Bool) (xs : List A) → length (keep p xs) ≤ length xs
length-keep-le p [] = omega arith
length-keep-le p (x ∷ xs) = ground (arith, length-keep-le p xs)

pub length_empty {ℓ} : {A : Type ℓ} (xs : List A) → is_empty xs ≡ true → length xs ≡ 0
length_empty [] h = refl
length_empty (x ∷ xs) h = cc

pub length_nonempty {ℓ} : {A : Type ℓ} (xs : List A) → is_empty xs ≡ false → 1 ≤ length xs
length_nonempty [] h = cc
length_nonempty (x ∷ xs) h = omega arith
