-- ===== src/Hyprland/Bindings/Fields.antt =====
-- The fields of a binding stay within the limits.
use player_vox_over_crow.Common.{
  ℕ, ◌+◌, ◌*◌, ◌-◌, ◌≤◌, ◌==◌, ◌≡◌, refl, subst, leb, Bool, true, ◌&&◌, Option, none, some, [], ◌∷◌,
  inl, inr, is_some, Bool-cases, Option-cases, arith,
}
use player_vox_over_crow.Common.Result.{Result, ok, err}
use player_vox_over_crow.Common.Text.{Text, chars, text_eq, parse_u32, parse_digits, is_digit}
use player_vox_over_crow.Common.Time.{u32_max}
use player_vox_over_crow.Hyprland.Shortcut.{HyprBinding}
use player_vox_over_crow.Hyprland.Bindings.{
  TextBinding, BindingError, finish, set_text_field, set_modmask, set_field, is_acceptable, map_ok,
}

abbrev pub when_set {ℓ} : {A : Type ℓ} → (A → Bool) → Option A → Bool
when_set p none = true
when_set p (some a) = p a

-- A mask of 32 bits and texts of at most 16,384 bytes without a zero byte.
abbrev pub binding_in_bounds : HyprBinding → Bool
binding_in_bounds b =
    leb b.modmask u32_max
    && (is_acceptable b.key
        && (is_acceptable b.description && (is_acceptable b.dispatcher && is_acceptable b.arg)))

abbrev pub text_in_bounds : TextBinding → Bool
text_in_bounds t =
    when_set (λ n. leb n u32_max) t.modmask
    && (when_set is_acceptable t.key
        && (when_set is_acceptable t.description
            && (when_set is_acceptable t.dispatcher && when_set is_acceptable t.arg)))

parse_digits-le : (acc n : ℕ) (s : Text) → acc ≤ u32_max → parse_digits acc s ≡ some n → n ≤ u32_max
unfolding parse_digits
parse_digits-le acc n [] le h = ground (arith, le, h)
parse_digits-le acc n (c ∷ s) le h =
    elim (Bool-cases (is_digit c && leb (acc * 10 + (c - b'0')) u32_max)) [
      | inl e ↦
          parse_digits-le (acc * 10 + (c - b'0')) n s (ground (arith, e))
            (rw (parse_digits, e) at h)
      | inr e ↦ let k = rw (parse_digits, e) at h in cc
    ]

parse_u32-le : (s : Text) (n : ℕ) → parse_u32 s ≡ some n → n ≤ u32_max
unfolding parse_u32
parse_u32-le [] n h = cc
parse_u32-le (c ∷ []) n h = elim (Bool-cases (c == b'+')) [
  | inl e ↦ let k = rw (parse_u32, e) at h in cc
  | inr e ↦ parse_digits-le 0 n (c ∷ []) (omega arith) (rw (parse_u32, e) at h)
]
parse_u32-le (c ∷ d ∷ s) n h = elim (Bool-cases (c == b'+')) [
  | inl e ↦ parse_digits-le 0 n (d ∷ s) (omega arith) (rw (parse_u32, e) at h)
  | inr e ↦ parse_digits-le 0 n (c ∷ d ∷ s) (omega arith) (rw (parse_u32, e) at h)
]

pub finish-bounds :
    (t : TextBinding) (b : HyprBinding)
    → text_in_bounds t ≡ true
    → finish t ≡ ok b
    → binding_in_bounds b ≡ true
unfolding finish
finish-bounds t b bounds h = ground arith

pub map_ok-eq {ℓ κ} :
    {A : Type ℓ} {B : Type κ} (f : A → B) (r : Result BindingError A) (b : B)
    → map_ok f r ≡ ok b
    → (a : A) × (r ≡ ok a) × (b ≡ f a)
map_ok-eq f (ok a) b h = (a, refl, cc)
map_ok-eq f (err e) b h = cc

set_text_field-fine :
    (f g : Option Text) (value : Text)
    → is_acceptable value ≡ true
    → set_text_field f value ≡ ok g
    → when_set is_acceptable g ≡ true
unfolding set_text_field
set_text_field-fine none g value fine h =
    let same : some value ≡ g = cc in subst (λ o. when_set is_acceptable o ≡ true) same fine
set_text_field-fine (some _) g value fine h = cc

set_modmask-bounds :
    (t u : TextBinding) (value : Text)
    → text_in_bounds t ≡ true
    → set_modmask t value ≡ ok u
    → text_in_bounds u ≡ true
unfolding set_modmask
set_modmask-bounds t u value bounds h = elim (Bool-cases (is_some t.modmask)) [
  | inl e ↦ let k = rw (set_modmask, e) at h in cc
  | inr e ↦ elim (Option-cases (parse_u32 value)) [
    | inl f ↦ let k = rw (set_modmask, e, f) at h in cc
    | inr (n, f) ↦
        let made : ok (record t { modmask = some n }) ≡ ok u = rw (set_modmask, e, f) at h in
        let same : u ≡ record t { modmask = some n } = cc in
        let le = parse_u32-le value n f in rw same (ground (arith, bounds, le))
  ]
]

pub set_field-bounds :
    (t u : TextBinding) (name value : Text)
    → text_in_bounds t ≡ true
    → is_acceptable value ≡ true
    → set_field t name value ≡ ok u
    → text_in_bounds u ≡ true
unfolding set_field
set_field-bounds t u name value bounds fine h = elim (Bool-cases (text_eq name (chars "modmask"))) [
  | inl a ↦ set_modmask-bounds t u value bounds (rw (set_field, a) at h)
  | inr a ↦ elim (Bool-cases (text_eq name (chars "key"))) [
    | inl b ↦
        let (g, made, same) =
          map_ok-eq (λ f. record t { key = f }) _ u (rw (set_field, a, b) at h) in
        let k = set_text_field-fine t.key g value fine made in rw same (ground (arith, bounds, k))
    | inr b ↦ elim (Bool-cases (text_eq name (chars "description"))) [
      | inl c ↦
          let (g, made, same) =
            map_ok-eq (λ f. record t { description = f }) _ u (rw (set_field, a, b, c) at h) in
          let k = set_text_field-fine t.description g value fine made in
          rw same (ground (arith, bounds, k))
      | inr c ↦ elim (Bool-cases (text_eq name (chars "dispatcher"))) [
        | inl d ↦
            let (g, made, same) =
              map_ok-eq (λ f. record t { dispatcher = f }) _ u (rw (set_field, a, b, c, d) at h) in
            let k = set_text_field-fine t.dispatcher g value fine made in
            rw same (ground (arith, bounds, k))
        | inr d ↦ elim (Bool-cases (text_eq name (chars "arg"))) [
          | inl e ↦
              let (g, made, same) =
                map_ok-eq (λ f. record t { arg = f }) _ u (rw (set_field, a, b, c, d, e) at h) in
              let k = set_text_field-fine t.arg g value fine made in
              rw same (ground (arith, bounds, k))
          | inr e ↦
              let same : ok t ≡ ok u = rw (set_field, a, b, c, d, e) at h in
              let equal : t ≡ u = cc in subst (λ v. text_in_bounds v ≡ true) equal bounds
        ]
      ]
    ]
  ]
]
