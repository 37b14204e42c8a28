-- ===== src/Hyprland/Shortcut/Parsing/Masks.antt =====
-- The mask and the names that the loop over the modifiers collects.
use player_vox_over_crow.Common.{
  ℕ, suc, ◌+◌, ◌≤◌, ◌<◌, ◌≡◌, ◌⊎◌, inl, inr, refl, sym, Bool, true, false, Option, some, List, [],
  ◌∷◌, ◌++◌, Bool-cases, Option-cases, arith,
}
use player_vox_over_crow.Common.Text.{Text, chars, text_eq}
use player_vox_over_crow.Config.Accelerator.{not_above}
use player_vox_over_crow.Hyprland.Shortcut.{modifier, modifiers, set_bit}
use player_vox_over_crow.Hyprland.Shortcut.Binding.{modifier_names, unsupported_bits}

abbrev bit_of : Bool → ℕ → ℕ
bit_of true bit = bit
bit_of false bit = 0

abbrev name_of : Bool → Text → List Text
name_of true name = name ∷ []
name_of false name = []

-- The mask and the names of a choice of modifiers.
abbrev mask_of : Bool → Bool → Bool → Bool → ℕ
mask_of a b c d = bit_of a 64 + bit_of b 4 + bit_of c 8 + bit_of d 1

abbrev names_of : Bool → Bool → Bool → Bool → List Text
names_of a b c d =
    name_of a (chars "SUPER")
    ++ (name_of b (chars "CTRL") ++ (name_of c (chars "ALT") ++ name_of d (chars "SHIFT")))

-- One more than the highest rank of a choice, 0 when it is empty.
abbrev level : Bool → Bool → Bool → Bool → ℕ
level a b c true = 4
level a b true false = 3
level a true false false = 2
level true false false false = 1
level false false false false = 0

modifier_names-mask :
    (a b c d : Bool)
    → (modifier_names (mask_of a b c d) ≡ names_of a b c d)
      × (unsupported_bits (mask_of a b c d) ≡ 0)
unfolding modifier_names unsupported_bits
modifier_names-mask true true true true = (refl, refl)
modifier_names-mask true true true false = (refl, refl)
modifier_names-mask true true false true = (refl, refl)
modifier_names-mask true true false false = (refl, refl)
modifier_names-mask true false true true = (refl, refl)
modifier_names-mask true false true false = (refl, refl)
modifier_names-mask true false false true = (refl, refl)
modifier_names-mask true false false false = (refl, refl)
modifier_names-mask false true true true = (refl, refl)
modifier_names-mask false true true false = (refl, refl)
modifier_names-mask false true false true = (refl, refl)
modifier_names-mask false true false false = (refl, refl)
modifier_names-mask false false true true = (refl, refl)
modifier_names-mask false false true false = (refl, refl)
modifier_names-mask false false false true = (refl, refl)
modifier_names-mask false false false false = (refl, refl)

mask_of-positive : (a b c d : Bool) → 0 < level a b c d → 0 < mask_of a b c d
mask_of-positive a b c d h = ground (arith, h)

-- What the loop has collected when it is past the ranks below `n`.
abbrev pub Chosen : ℕ → ℕ → List Text → Type 0
Chosen n mask names =
    (a : Bool) × (b : Bool) × (c : Bool) × (d : Bool) × (n ≡ level a b c d)
    × (mask ≡ mask_of a b c d)
    × (names ≡ names_of a b c d)

add_meta : Chosen 1 (set_bit 0 64) (chars "SUPER" ∷ [])
add_meta = (true, false, false, false, refl, refl, refl)

add_ctrl :
    (a : Bool)
    → Chosen 2
        (set_bit (mask_of a false false false) 4)
        (names_of a false false false ++ (chars "CTRL" ∷ []))
add_ctrl true = (true, true, false, false, refl, refl, refl)
add_ctrl false = (false, true, false, false, refl, refl, refl)

add_alt :
    (a b : Bool)
    → Chosen 3
        (set_bit (mask_of a b false false) 8)
        (names_of a b false false ++ (chars "ALT" ∷ []))
add_alt true true = (true, true, true, false, refl, refl, refl)
add_alt true false = (true, false, true, false, refl, refl, refl)
add_alt false true = (false, true, true, false, refl, refl, refl)
add_alt false false = (false, false, true, false, refl, refl, refl)

add_shift :
    (a b c : Bool)
    → Chosen 4 (set_bit (mask_of a b c false) 1) (names_of a b c false ++ (chars "SHIFT" ∷ []))
add_shift true true true = (true, true, true, true, refl, refl, refl)
add_shift true true false = (true, true, false, true, refl, refl, refl)
add_shift true false true = (true, false, true, true, refl, refl, refl)
add_shift true false false = (true, false, false, true, refl, refl, refl)
add_shift false true true = (false, true, true, true, refl, refl, refl)
add_shift false true false = (false, true, false, true, refl, refl, refl)
add_shift false false true = (false, false, true, true, refl, refl, refl)
add_shift false false false = (false, false, false, true, refl, refl, refl)

-- A modifier above those of a choice.
abbrev Adds : ℕ → ℕ → List Text → ℕ × Text × ℕ → Type 0
Adds n mask names m = Chosen (suc m.0) (set_bit mask m.2) (names ++ (m.1 ∷ []))

above-meta :
    (a b c d : Bool)
    → level a b c d ≤ 0
    → Adds (level a b c d) (mask_of a b c d) (names_of a b c d) (0, chars "SUPER", 64)
above-meta a b c true le = absurd (omega (arith, le))
above-meta a b true false le = absurd (omega (arith, le))
above-meta a true false false le = absurd (omega (arith, le))
above-meta true false false false le = absurd (omega (arith, le))
above-meta false false false false le = add_meta

above-ctrl :
    (a b c d : Bool)
    → level a b c d ≤ 1
    → Adds (level a b c d) (mask_of a b c d) (names_of a b c d) (1, chars "CTRL", 4)
above-ctrl a b c true le = absurd (omega (arith, le))
above-ctrl a b true false le = absurd (omega (arith, le))
above-ctrl a true false false le = absurd (omega (arith, le))
above-ctrl a false false false le = add_ctrl a

above-alt :
    (a b c d : Bool)
    → level a b c d ≤ 2
    → Adds (level a b c d) (mask_of a b c d) (names_of a b c d) (2, chars "ALT", 8)
above-alt a b c true le = absurd (omega (arith, le))
above-alt a b true false le = absurd (omega (arith, le))
above-alt a b false false le = add_alt a b

above-shift :
    (a b c d : Bool)
    → level a b c d ≤ 3
    → Adds (level a b c d) (mask_of a b c d) (names_of a b c d) (3, chars "SHIFT", 1)
above-shift a b c true le = absurd (omega (arith, le))
above-shift a b c false le = add_shift a b c

abbrev Row : ℕ × Text × ℕ → Type 0
Row m =
    (m ≡ (0, chars "SUPER", 64))
    ⊎ (m ≡ (1, chars "CTRL", 4))
    ⊎ (m ≡ (2, chars "ALT", 8))
    ⊎ (m ≡ (3, chars "SHIFT", 1))

some-injective {ℓ} : {A : Type ℓ} (a b : A) → some a ≡ some b → b ≡ a
some-injective a b h = cc

modifier-Row : (part : Text) (m : ℕ × Text × ℕ) → modifier part ≡ some m → Row m
unfolding modifier
modifier-Row part m h = elim (Bool-cases (text_eq part (chars "Meta"))) [
  | inl a ↦ inl (some-injective _ m (rw (modifier, a) at h))
  | inr a ↦ elim (Bool-cases (text_eq part (chars "Ctrl"))) [
    | inl b ↦ inr (inl (some-injective _ m (rw (modifier, a, b) at h)))
    | inr b ↦ elim (Bool-cases (text_eq part (chars "Alt"))) [
      | inl c ↦ inr (inr (inl (some-injective _ m (rw (modifier, a, b, c) at h))))
      | inr c ↦ elim (Bool-cases (text_eq part (chars "Shift"))) [
        | inl d ↦ inr (inr (inr (some-injective _ m (rw (modifier, a, b, c, d) at h))))
        | inr d ↦ let k = rw (modifier, a, b, c, d) at h in cc
      ]
    ]
  ]
]

Chosen-add :
    (a b c d : Bool) (m : ℕ × Text × ℕ)
    → Row m
    → level a b c d ≤ m.0
    → Adds (level a b c d) (mask_of a b c d) (names_of a b c d) m
Chosen-add a b c d m (inl e) le = rw e (above-meta a b c d (rw e at le))
Chosen-add a b c d m (inr (inl e)) le = rw e (above-ctrl a b c d (rw e at le))
Chosen-add a b c d m (inr (inr (inl e))) le = rw e (above-alt a b c d (rw e at le))
Chosen-add a b c d m (inr (inr (inr e))) le = rw e (above-shift a b c d (rw e at le))

-- The bound that the last rank sets.
abbrev pub Bound : Option ℕ → ℕ → Type 0
Bound previous n = (r : ℕ) → (not_above previous r ≡ false) → n ≤ r

modifiers-step :
    (n mask : ℕ) (names : List Text) (m : ℕ × Text × ℕ)
    → Chosen n mask names
    → Row m
    → n ≤ m.0
    → Adds n mask names m
modifiers-step n mask names m (a, b, c, d, e, f, g) row le =
    rw (f, g) (Chosen-add a b c d m row (rw e at le))

-- The loop adds to a choice what it finds, and finds at least one modifier if there is a part.
pub modifiers-Chosen :
    (parts : List Text) (previous : Option ℕ) (n mask : ℕ) (names : List Text) (out : ℕ × List Text)
    → Bound previous n
    → Chosen n mask names
    → modifiers parts previous mask names ≡ some out
    → (k : ℕ) × Chosen k out.0 out.1 × (n ≤ k) × ((parts ≡ []) ⊎ (0 < k))
unfolding modifiers
modifiers-Chosen [] previous n mask names out bound chosen h =
    let same : out ≡ (mask, names) = some-injective _ _ h in
    (n, rw same chosen, omega arith, inl refl)
modifiers-Chosen (part ∷ rest) previous n mask names out bound chosen h =
    elim (Option-cases (modifier part)) [
      | inl e ↦ let k = rw (modifiers, e) at h in cc
      | inr (m, e) ↦ elim (Bool-cases (not_above previous m.0)) [
        | inl low ↦ let k = rw (modifiers, e, low) at h in cc
        | inr high ↦
            let next =
              modifiers-step n mask names m chosen (modifier-Row part m e) (bound m.0 high) in
            let (k, last, le, _) =
              modifiers-Chosen rest (some m.0) (suc m.0) (set_bit mask m.2) (names ++ (m.1 ∷ []))
                out (λ r above. ground (arith, above)) next (rw (modifiers, e, high) at h) in
            let lower = bound m.0 high in
            (k, last, omega (arith, le, lower), inr (omega (arith, le)))
      ]
    ]

-- A mask that was collected from at least one modifier is not 0, has no bit but the four, and its
-- names are those that were collected.
pub Chosen-mask :
    (n mask : ℕ) (names : List Text)
    → Chosen n mask names
    → 0 < n
    → (names ≡ modifier_names mask) × (unsupported_bits mask ≡ 0) × (0 < mask)
Chosen-mask n mask names (a, b, c, d, e, f, g) le =
    let (same, none_else) = modifier_names-mask a b c d in
    (rw (f, g) (sym same), rw f none_else, rw f (mask_of-positive a b c d (rw e at le)))
