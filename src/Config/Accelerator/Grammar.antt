-- ===== src/Config/Accelerator/Grammar.antt =====
-- The grammar of a shortcut, without the search for repeated modifiers that the code makes.
use mathlib.Core.List.{Memᴰ}
use player_vox_over_crow.Common.{
  ℕ, suc, ◌+◌, ◌≤◌, ◌<◌, ◌≡◌, refl, sym, ap, ◌∙◌, subst, ◌↔◌, ◌⊎◌, inl, inr, true, false, Option,
  none, some, List, [], ◌∷◌, any, any-witness, ltb, arith, Bool-cases, Option-cases, &&_true,
}
use player_vox_over_crow.Common.Text.{Text, text_eq, text_eq_iff, split}
use player_vox_over_crow.Config.Accelerator.{
  rank, is_key, not_above, accelerator_parts, accelerator_is_valid,
}

-- `Shape n parts`: modifiers of rank `n` or more, each of a higher rank than the one before, and a
-- key. At `n = 0` no modifier has come yet, and a key alone is not enough.
pub data Shape : ℕ → List Text → Type 0 where
  key : {n : ℕ} {part : Text} → 0 < n → is_key part ≡ true → Shape n (part ∷ [])
  modifier :
      {n : ℕ} {part next : Text} {rest : List Text} (r : ℕ)
      → rank part ≡ some r
      → n ≤ r
      → Shape (suc r) (next ∷ rest)
      → Shape n (part ∷ next ∷ rest)

-- What the loop knows: the bound above the ranks so far.
abbrev Bounded : List Text → ℕ → Option ℕ → ℕ → Type 0
Bounded seen count previous n =
    ((t : Text) → Memᴰ t seen → (r : ℕ) × (rank t ≡ some r) × (r < n))
    × (((previous ≡ none) × (n ≡ 0) × (count ≡ 0))
        ⊎ ((q : ℕ) × (previous ≡ some q) × (n ≡ suc q) × (0 < count)))

-- A part of a rank above the bound was not seen.
not_seen :
    (seen : List Text) (n r : ℕ) (part : Text)
    → ((t : Text) → Memᴰ t seen → (s : ℕ) × (rank t ≡ some s) × (s < n))
    → rank part ≡ some r
    → n ≤ r
    → any (text_eq part) seen ≡ false
not_seen seen n r part below e le = elim (Bool-cases (any (text_eq part) seen)) [
  | inr f ↦ f
  | inl f ↦
      let (t, m, g) = any-witness (text_eq part) seen f in
      let (s, k, lt) = below t m in
      let same = (text_eq_iff part t).0 g in
      let equal : some r ≡ some s = sym e ∙ ap rank same ∙ k in
      absurd (ground (arith, equal, lt, le))
]

Bounded-next :
    (seen : List Text) (count n r : ℕ) (previous : Option ℕ) (part : Text)
    → Bounded seen count previous n
    → rank part ≡ some r
    → n ≤ r
    → Bounded (part ∷ seen) (count + 1) (some r) (suc r)
Bounded-next seen count n r previous part (below, _) e le = (
  λ t m. elim m [
    | Memᴰ.head q ↦ (r, ap rank q ∙ e, omega arith)
    | Memᴰ.tail k ↦ let (s, f, lt) = below t k in (s, f, omega arith)
  ],
  inr (r, refl, refl, omega arith),
)

above-bound :
    (seen : List Text) (count n r : ℕ) (previous : Option ℕ)
    → Bounded seen count previous n
    → (not_above previous r ≡ false) ↔ (n ≤ r)
above-bound seen count n r previous (_, inl (p, e, _)) = ground (arith, p, e)
above-bound seen count n r previous (_, inr (q, p, e, _)) = ground (arith, p, e)

some-used :
    (seen : List Text) (count n : ℕ) (previous : Option ℕ)
    → Bounded seen count previous n
    → (ltb 0 count ≡ true) ↔ (0 < n)
some-used seen count n previous (_, inl (_, e, f)) = ground (arith, e, f)
some-used seen count n previous (_, inr (q, _, e, f)) = ground (arith, e, f)

pub modifier-inverse :
    (n r : ℕ) (part next : Text) (rest : List Text)
    → rank part ≡ some r
    → Shape n (part ∷ next ∷ rest)
    → (n ≤ r) × Shape (suc r) (next ∷ rest)
modifier-inverse n r part next rest e (modifier s f le shape) =
    let same : some s ≡ some r = sym f ∙ e in
    let equal : s ≡ r = cc in
    (omega (arith, equal, le), subst (λ k. Shape (suc k) (next ∷ rest)) equal shape)

pub no-modifier :
    (n : ℕ) (part next : Text) (rest : List Text)
    → rank part ≡ none
    → Shape n (part ∷ next ∷ rest)
    → ⊥
no-modifier n part next rest e (modifier s f le shape) = cc

accelerator_parts-Shape :
    (seen : List Text) (count n : ℕ) (previous : Option ℕ) (parts : List Text)
    → Bounded seen count previous n
    → (accelerator_parts seen count previous parts ≡ true) ↔ Shape n parts
unfolding accelerator_parts
accelerator_parts-Shape seen count n previous [] b = (λ h. cc, λ h. elim h [ ])
accelerator_parts-Shape seen count n previous (part ∷ []) b = (
  λ h. let (p, q) = &&_true _ _ h in key ((some-used seen count n previous b).0 p) q,
  λ shape. elim shape [ key lt q ↦ rw ((some-used seen count n previous b).1 lt, q) refl ],
)
accelerator_parts-Shape seen count n previous (part ∷ next ∷ rest) b =
    elim (Option-cases (rank part)) [
      | inl e ↦ rw e (λ h. cc, λ shape. absurd (no-modifier n part next rest e shape))
      | inr (r, e) ↦ elim (Bool-cases (not_above previous r)) [
        | inl f ↦
            rw (e, f)
              (
                λ h. cc,
                λ shape.
                    let le =
                      (above-bound seen count n r previous b).1
                        (modifier-inverse n r part next rest e shape).0 in
                    absurd (ground (arith, le, f)),
              )
        | inr f ↦
            let le = (above-bound seen count n r previous b).0 f in
            let fresh = not_seen seen n r part b.0 e le in
            let (onto, back) =
              accelerator_parts-Shape (part ∷ seen) (count + 1) (suc r) (some r) (next ∷ rest)
                (Bounded-next seen count n r previous part b e le) in
            rw (e, f, fresh)
              (
                λ h. modifier r e le (onto h),
                λ shape. back (modifier-inverse n r part next rest e shape).1,
              )
      ]
    ]

-- A shortcut is accepted exactly when, split at `+`, it is one or more modifiers in ascending rank
-- (Meta, Ctrl, Alt, Shift) and one ASCII letter or digit. The ranks alone exclude repeated
-- modifiers.
pub accelerator_is_valid-Shape :
    (s : Text) → (accelerator_is_valid s ≡ true) ↔ Shape 0 (split b'+' s)
unfolding accelerator_is_valid
accelerator_is_valid-Shape s =
    accelerator_parts-Shape [] 0 0 none (split b'+' s) (λ t m. elim m [ ], inl (refl, refl, refl))
