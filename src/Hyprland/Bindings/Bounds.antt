-- ===== src/Hyprland/Bindings/Bounds.antt =====
-- What is read is within the limits.
use player_vox_over_crow.Common.{
  ◌≤◌, ◌==◌, ◌≡◌, sym, refl, subst, leb, Bool, true, ◌&&◌, Option, none, some, List, [], ◌∷◌, ◌++◌,
  all, length, length-append, inl, inr, Bool-cases, Option-cases, arith,
}
use player_vox_over_crow.Common.Result.{ok, Result-cases}
use player_vox_over_crow.Common.Text.{Text}
use player_vox_over_crow.Hyprland.Shortcut.{HyprBinding}
use player_vox_over_crow.Hyprland.Bindings.{
  TextBinding, State, finish, read_field, field_line, finish_text_binding, read_line, read_lines,
  parse_bindings_text, is_acceptable, max_bindings, without_space, split_once, lines, empty_binding,
  is_header,
}
use player_vox_over_crow.Hyprland.Bindings.Fields.{
  when_set, binding_in_bounds, text_in_bounds, finish-bounds, map_ok-eq, set_field-bounds,
}

-- At most 4,096 bindings, each within the limits of its fields.
abbrev pub Bounded : List HyprBinding → Type 0
Bounded bindings = (all binding_in_bounds bindings ≡ true) × (length bindings ≤ max_bindings)

abbrev Kept : State → Type 0
Kept (current, bindings) = (when_set text_in_bounds current ≡ true) × Bounded bindings

all-append {ℓ} :
    {A : Type ℓ} (p : A → Bool) (xs ys : List A) → all p (xs ++ ys) ≡ (all p xs && all p ys)
all-append p [] ys = refl
all-append p (x ∷ xs) ys = ground (arith, all-append p xs ys)

finish_text_binding-Bounded :
    (current : Option TextBinding) (bindings out : List HyprBinding)
    → Kept (current, bindings)
    → finish_text_binding current bindings ≡ ok out
    → Bounded out
unfolding finish_text_binding
finish_text_binding-Bounded none bindings out (_, bounded) h =
    let same : bindings ≡ out = cc in subst Bounded same bounded
finish_text_binding-Bounded (some t) bindings out (fine, (each, le)) h =
    elim (Bool-cases (leb max_bindings (length bindings))) [
      | inl full ↦ let k = rw (finish_text_binding, full) at h in cc
      | inr room ↦ elim (Result-cases (finish t)) [
        | inl (e, f) ↦ let k = rw (finish_text_binding, room, f) at h in cc
        | inr (b, f) ↦
            let made : ok (bindings ++ (b ∷ [])) ≡ ok out =
              rw (finish_text_binding, room, f) at h in
            let same : bindings ++ (b ∷ []) ≡ out = cc in
            let one = finish-bounds t b fine f in
            let all_of = all-append binding_in_bounds bindings (b ∷ []) in
            let size = length-append bindings (b ∷ []) in
            subst Bounded same (ground (arith, all_of, each, one), ground (arith, size, room))
      ]
    ]

field_line-bounds :
    (current : Option TextBinding) (line : Text) (u : TextBinding)
    → when_set text_in_bounds current ≡ true
    → field_line current line ≡ ok u
    → text_in_bounds u ≡ true
unfolding field_line read_field
field_line-bounds none line u fine h = cc
field_line-bounds (some t) line u fine h = elim (Option-cases (split_once b':' line)) [
  | inl e ↦ let k = rw (field_line, e) at h in cc
  | inr (p, e) ↦ elim (Bool-cases (is_acceptable (without_space p.1))) [
    | inl f ↦ set_field-bounds t u p.0 (without_space p.1) fine f (rw (field_line, e, f) at h)
    | inr f ↦ let k = rw (field_line, e, f) at h in cc
  ]
]

read_line-Kept :
    (state next : State) (line : Text) → Kept state → read_line state line ≡ ok next → Kept next
unfolding read_line
read_line-Kept (current, bindings) next [] kept h =
    let (bs, made, same) = map_ok-eq _ _ next h in
    subst Kept (sym same) (refl, finish_text_binding-Bounded current bindings bs kept made)
read_line-Kept (current, bindings) next (c ∷ line) kept h = elim (Bool-cases (c == b'\t')) [
  | inl tab ↦
      let (t, made, same) = map_ok-eq _ _ next (rw (read_line, tab) at h) in
      subst Kept (sym same) (field_line-bounds current line t kept.0 made, kept.1)
  | inr other ↦ elim (Result-cases (finish_text_binding current bindings)) [
    | inl (e, f) ↦ let k = rw (read_line, other, f) at h in cc
    | inr (bs, f) ↦ elim (Bool-cases (is_header (c ∷ line))) [
      | inl header ↦
          let made : ok (some empty_binding, bs) ≡ ok next =
            rw (read_line, other, f, header) at h in
          let same : (some empty_binding, bs) ≡ next = cc in
          subst Kept same (refl, finish_text_binding-Bounded current bindings bs kept f)
      | inr bad ↦ let k = rw (read_line, other, f, bad) at h in cc
    ]
  ]
]

read_lines-Bounded :
    (state : State) (rest : List Text) (out : List HyprBinding)
    → Kept state
    → read_lines state rest ≡ ok out
    → Bounded out
unfolding read_lines
read_lines-Bounded (current, bindings) [] out kept h =
    finish_text_binding-Bounded current bindings out kept h
read_lines-Bounded state (line ∷ rest) out kept h = elim (Result-cases (read_line state line)) [
  | inl (e, f) ↦ let k = rw (read_lines, f) at h in cc
  | inr (next, f) ↦
      read_lines-Bounded next rest out (read_line-Kept state next line kept f)
        (rw (read_lines, f) at h)
]

-- Of every text, what is read is at most 4,096 bindings, each with a mask of 32 bits and texts of at
-- most 16,384 bytes without a zero byte.
pub parse_bindings_text-Bounded :
    (response : Text) (out : List HyprBinding) → parse_bindings_text response ≡ ok out → Bounded out
unfolding parse_bindings_text
parse_bindings_text-Bounded response out h =
    read_lines-Bounded (none, []) (lines response) out (refl, (refl, omega arith)) h
