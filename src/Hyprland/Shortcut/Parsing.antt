-- ===== src/Hyprland/Shortcut/Parsing.antt =====
-- The shortcuts that the bridge parses are those that the settings accept.
pub mod Masks
use player_vox_over_crow.Common.{
  ℕ, suc, ◌+◌, ◌≤◌, ◌<◌, ◌≡◌, ◌↔◌, ◌⊎◌, inl, inr, refl, sym, ap, ◌∙◌, Bool, true, false, not, ◌&&◌,
  Option, none, some, List, [], ◌∷◌, length, ltb, is_some, Bool-cases, Option-cases, arith,
  if◌then◌else◌, ◌++◌, &&_true,
}
use player_vox_over_crow.Common.Options.{map_option, ◌>>=◌, ◌>>◌, guard, last, then_some}
use player_vox_over_crow.Common.Result.{is_ok}
use player_vox_over_crow.Common.Text.{Text, chars, text_eq, split}
use player_vox_over_crow.Config.Accelerator.{
  rank, is_key, not_above, accelerator_is_valid, is_ascii_alphanumeric,
}
use player_vox_over_crow.Config.Accelerator.Grammar as Grammar
use player_vox_over_crow.Config.Accelerator.Grammar.{
  Shape, key, accelerator_is_valid-Shape, modifier-inverse, no-modifier,
}
use player_vox_over_crow.Hyprland.Shortcut.{
  modifier, modifiers, key_character, init, parse_parts, parse, set_bit, or_invalid, ShortcutSpec,
}

-- The bridge and the settings rank the modifiers alike.
modifier-rank : (part : Text) → rank part ≡ map_option (λ (m : ℕ × Text × ℕ). m.0) (modifier part)
unfolding modifier rank
modifier-rank part = elim (Bool-cases (text_eq part (chars "Meta"))) [
  | inl a ↦ rw (modifier, rank, a)
  | inr a ↦ elim (Bool-cases (text_eq part (chars "Ctrl"))) [
    | inl b ↦ rw (modifier, rank, a, b)
    | inr b ↦ elim (Bool-cases (text_eq part (chars "Alt"))) [
      | inl c ↦ rw (modifier, rank, a, b, c)
      | inr c ↦ elim (Bool-cases (text_eq part (chars "Shift"))) [
        | inl d ↦ rw (modifier, rank, a, b, c, d)
        | inr d ↦ rw (modifier, rank, a, b, c, d)
      ]
    ]
  ]
]

key_character-is_key : (part : Text) → is_some (key_character part) ≡ is_key part
key_character-is_key [] = refl
key_character-is_key (c ∷ []) = elim (Bool-cases (is_ascii_alphanumeric c)) [
  | inl e ↦ rw e
  | inr e ↦ rw e
]
key_character-is_key (c ∷ d ∷ s) = refl

-- A key at the end and modifiers before it.
abbrev is_ready : List Text → Option ℕ → ℕ → List Text → Bool
is_ready parts previous mask rendered =
    is_some (last parts >>= key_character)
    && is_some (modifiers (init parts) previous mask rendered)

is_ready-modifiers :
    (parts : List Text) (previous : Option ℕ) (mask : ℕ) (rendered : List Text)
    → is_ready parts previous mask rendered ≡ true
    → is_some (modifiers (init parts) previous mask rendered) ≡ true
is_ready-modifiers parts previous mask rendered h = (&&_true _ _ h).1

-- One modifier before the rest, from the bound `n` on.
is_ready-step :
    (n mask : ℕ) (previous : Option ℕ) (rendered : List Text) (part next : Text) (rest : List Text)
    → ((r : ℕ) → (not_above previous r ≡ false) ↔ (n ≤ r))
    → ((r m : ℕ) (names : List Text)
        → (is_ready (next ∷ rest) (some r) m names ≡ true) ↔ Shape (suc r) (next ∷ rest))
    → (is_ready (part ∷ next ∷ rest) previous mask rendered ≡ true) ↔ Shape n (part ∷ next ∷ rest)
unfolding modifiers
is_ready-step n mask previous rendered part next rest above after =
    let ranks = modifier-rank part in
    let ready = is_ready-modifiers (part ∷ next ∷ rest) previous mask rendered in
    elim (Option-cases (modifier part)) [
      | inl e ↦
          let f : rank part ≡ none = rw e at ranks in
          (
            λ h. let k = rw (modifiers, e) at (ready h) in cc,
            λ shape. absurd (no-modifier n part next rest f shape),
          )
      | inr (m, e) ↦
          let f : rank part ≡ some m.0 = rw e at ranks in
          let (onto, back) = after m.0 (set_bit mask m.2) (rendered ++ (m.1 ∷ [])) in
          elim (Bool-cases (not_above previous m.0)) [
            | inl low ↦ (
              λ h. let k = rw (modifiers, e, low) at (ready h) in cc,
              λ shape.
                  let le = (modifier-inverse n m.0 part next rest f shape).0 in
                  let high = (above m.0).1 le in cc,
            )
            | inr high ↦ (
              λ h.
                  Grammar.modifier m.0 f ((above m.0).0 high) (onto (rw (modifiers, e, high) at h)),
              λ shape.
                  rw (modifiers, e, high) (back (modifier-inverse n m.0 part next rest f shape).1),
            )
          ]
    ]

is_ready-Shape :
    (q mask : ℕ) (rendered : List Text) (part : Text) (rest : List Text)
    → (is_ready (part ∷ rest) (some q) mask rendered ≡ true) ↔ Shape (suc q) (part ∷ rest)
unfolding modifiers
is_ready-Shape q mask rendered part [] = (
  λ h. key (omega arith) (sym (key_character-is_key part) ∙ (&&_true _ _ h).0),
  λ shape. elim shape [ key lt e ↦ let k = key_character-is_key part ∙ e in ground (arith, k) ],
)
is_ready-Shape q mask rendered part (next ∷ rest) =
    is_ready-step (suc q) mask (some q) rendered part next rest (λ r. ground arith)
      (λ r m names. is_ready-Shape r m names next rest)

parse_parts-is_ready :
    (parts : List Text) (action description : Text)
    → is_some (parse_parts parts action description)
      ≡ (not (ltb (length parts) 2) && is_ready parts none 0 [])
unfolding parse_parts
parse_parts-is_ready parts action description = ground arith

not_short : (n : ℕ) → ltb (suc (suc n)) 2 ≡ false
not_short n = ground arith

parse_parts-Shape :
    (parts : List Text) (action description : Text)
    → (is_some (parse_parts parts action description) ≡ true) ↔ Shape 0 parts
parse_parts-Shape [] action description =
    rw (parse_parts-is_ready [] action description) (λ h. cc, λ shape. elim shape [ ])
parse_parts-Shape (part ∷ []) action description =
    rw (parse_parts-is_ready (part ∷ []) action description)
      (λ h. cc, λ shape. elim shape [ key lt e ↦ absurd (omega (arith, lt)) ])
parse_parts-Shape (part ∷ next ∷ rest) action description =
    rw (parse_parts-is_ready (part ∷ next ∷ rest) action description, not_short (length rest))
      (is_ready-step 0 0 none [] part next rest (λ r. ground arith)
        (λ r m names. is_ready-Shape r m names next rest))

or_invalid-ok : (o : Option ShortcutSpec) → is_ok (or_invalid o) ≡ is_some o
or_invalid-ok none = refl
or_invalid-ok (some spec) = refl

-- Two tests that hold under one condition.
same_test : {S : Type 0} (a b : Bool) → ((a ≡ true) ↔ S) → ((b ≡ true) ↔ S) → a ≡ b
same_test true b h k = sym (k.1 (h.0 refl))
same_test false true h k = h.1 (k.0 refl)
same_test false false h k = refl

-- The bridge parses a shortcut exactly when the settings accept it, for each action.
pub parse-valid :
    (accelerator action description : Text)
    → is_ok (parse accelerator action description) ≡ accelerator_is_valid accelerator
unfolding parse
parse-valid accelerator action description =
    or_invalid-ok _
    ∙ same_test _ _ (parse_parts-Shape (split b'+' accelerator) action description)
        (accelerator_is_valid-Shape accelerator)
