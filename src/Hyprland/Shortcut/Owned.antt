-- ===== src/Hyprland/Shortcut/Owned.antt =====
-- A binding that the bridge owns gives its shortcut back.
use player_vox_over_crow.Common.{
  ℕ, ◌==◌, ==_iff, ◌<◌, ◌≡◌, inl, inr, refl, sym, ap, ◌∙◌, true, false, ◌&&◌, ◌||◌, Option, none,
  some, List, [], ◌∷◌, length, ltb, &&_true, Bool-cases, Option-cases, arith,
}
use player_vox_over_crow.Common.Options.{last, then_some, find_map}
use player_vox_over_crow.Common.Result.{ok}
use player_vox_over_crow.Common.Text.{Text, chars, text_eq, text_eq_iff, split}
use player_vox_over_crow.Config.Accelerator.{is_ascii_alphanumeric}
use player_vox_over_crow.Config.Settings.{ShortcutSettings}
use player_vox_over_crow.Hyprland.Shortcut.{
  ShortcutSpec, HyprBinding, modifiers, key_character, init, to_ascii_upper, spec_of, parse_parts,
  parse, from_settings, portal_shortcut_name, legacy_portal_shortcut_name, bind_description,
}
use player_vox_over_crow.Hyprland.Shortcut.Binding.{
  modifier_names, unsupported_bits, known_binding_identity, from_owned_binding, owns_action, owns,
  identity_in, overlay_identity, stopwatch_identities,
}
use player_vox_over_crow.Hyprland.Shortcut.Parsing.Masks.{Chosen-mask, modifiers-Chosen}

-- What a shortcut is made of.
abbrev Made : Text → Text → ShortcutSpec → Type 0
Made action description spec =
    (c : ℕ) × (out : ℕ × List Text) × (is_ascii_alphanumeric c ≡ true)
    × (out.1 ≡ modifier_names out.0)
    × (unsupported_bits out.0 ≡ 0)
    × (0 < out.0)
    × (spec ≡ spec_of action description c out)

key_character-some :
    (key : Text) (c : ℕ) → key_character key ≡ some c → is_ascii_alphanumeric c ≡ true
key_character-some [] c h = cc
key_character-some (d ∷ []) c h = ground arith
key_character-some (d ∷ e ∷ s) c h = cc

init-nonempty {ℓ} : {A : Type ℓ} (xs : List A) → ltb (length xs) 2 ≡ false → (init xs ≡ []) → ⊥
init-nonempty [] h e = cc
init-nonempty (x ∷ []) h e = cc
init-nonempty (x ∷ y ∷ xs) h e = cc

parse_parts-Made :
    (parts : List Text) (action description : Text) (spec : ShortcutSpec)
    → parse_parts parts action description ≡ some spec
    → Made action description spec
unfolding parse_parts
parse_parts-Made parts action description spec h = elim (Bool-cases (ltb (length parts) 2)) [
  | inl short ↦ let k = rw (parse_parts, short) at h in cc
  | inr long ↦ elim (Option-cases (last parts)) [
    | inl e ↦ let k = rw (parse_parts, long, e) at h in cc
    | inr (key, e) ↦ elim (Option-cases (key_character key)) [
      | inl f ↦ let k = rw (parse_parts, long, e, f) at h in cc
      | inr (c, f) ↦ elim (Option-cases (modifiers (init parts) none 0 [])) [
        | inl g ↦ let k = rw (parse_parts, long, e, f, g) at h in cc
        | inr (out, g) ↦
            let made : some (spec_of action description c out) ≡ some spec =
              rw (parse_parts, long, e, f, g) at h in
            let same : spec ≡ spec_of action description c out = cc in
            let (k, chosen, _, some_part) =
              modifiers-Chosen (init parts) none 0 0 [] out (λ r low. omega arith)
                (false, false, false, false, refl, refl, refl) g in
            let used : 0 < k = elim some_part [
              | inl nothing ↦ absurd (init-nonempty parts long nothing)
              | inr lt ↦ lt
            ] in
            let (names, supported, positive) = Chosen-mask k out.0 out.1 chosen used in
            (c, out, key_character-some key c f, names, supported, positive, same)
      ]
    ]
  ]
]

to_ascii_upper-again : (c : ℕ) → to_ascii_upper (to_ascii_upper c) ≡ to_ascii_upper c
to_ascii_upper-again c = ground arith

to_ascii_upper-alphanumeric :
    (c : ℕ) → is_ascii_alphanumeric c ≡ true → is_ascii_alphanumeric (to_ascii_upper c) ≡ true
to_ascii_upper-alphanumeric c h = ground (arith, h)

owns_action-fields :
    (spec : ShortcutSpec) (b : HyprBinding) (action : Text)
    → owns_action spec b action ≡ true
    → (b.modmask ≡ spec.modmask)
      × (b.key ≡ spec.key)
      × (text_eq b.description spec.description ≡ true)
      × (text_eq b.dispatcher (chars "global") ≡ true)
      × (text_eq b.arg action ≡ true)
unfolding owns_action
owns_action-fields spec b action h =
    let (matching, rest) = &&_true _ _ h in
    let (mask, key) = &&_true (b.modmask == spec.modmask) (text_eq b.key spec.key) matching in
    let (description, rest2) = &&_true _ _ rest in
    let (dispatcher, arg) = &&_true _ _ rest2 in
    (
      (==_iff b.modmask spec.modmask).0 mask,
      (text_eq_iff b.key spec.key).0 key,
      description,
      dispatcher,
      arg,
    )

-- What is owned for the overlay's shortcut.
owns-overlay :
    (spec : ShortcutSpec) (b : HyprBinding)
    → spec.portal_action ≡ portal_shortcut_name
    → owns spec b ≡ true
    → (b.modmask ≡ spec.modmask)
      × (b.key ≡ spec.key)
      × (text_eq b.description spec.description ≡ true)
      × (text_eq b.dispatcher (chars "global") ≡ true)
      × ((text_eq b.arg portal_shortcut_name || text_eq b.arg legacy_portal_shortcut_name) ≡ true)
unfolding owns
owns-overlay spec b e h = elim (Bool-cases (owns_action spec b spec.portal_action)) [
  | inl own ↦
      let (mask, key, description, dispatcher, arg) =
        owns_action-fields spec b spec.portal_action own in
      let arg1 : text_eq b.arg portal_shortcut_name ≡ true = rw e at arg in
      (mask, key, description, dispatcher, ground (arith, arg1))
  | inr other ↦
      let legacy : owns_action spec b legacy_portal_shortcut_name ≡ true =
        rw (owns, other, e) at h in
      let (mask, key, description, dispatcher, arg) =
        owns_action-fields spec b legacy_portal_shortcut_name legacy in
      (mask, key, description, dispatcher, ground (arith, arg))
]

find_map_first {ℓ κ} :
    {A : Type ℓ} {B : Type κ} (f : A → Option B) {x : A} (xs : List A) (y : B)
    → f x ≡ some y
    → find_map f (x ∷ xs) ≡ some y
find_map_first f xs y h = rw (find_map, h)

known_overlay :
    (b : HyprBinding)
    → (text_eq b.arg portal_shortcut_name || text_eq b.arg legacy_portal_shortcut_name) ≡ true
    → text_eq b.description bind_description ≡ true
    → known_binding_identity b ≡ some (portal_shortcut_name, bind_description)
unfolding known_binding_identity
known_overlay b arg description =
    let row : ((text_eq b.arg portal_shortcut_name || text_eq b.arg legacy_portal_shortcut_name)
          && text_eq b.description bind_description)
        ≡ true =
      ground (arith, arg, description) in
    find_map_first (identity_in b) {x = overlay_identity} stopwatch_identities _
      (ap (λ t. then_some t (portal_shortcut_name, bind_description)) row)

from_owned_binding_of :
    (b : HyprBinding) (action description : Text) (c : ℕ)
    → text_eq b.dispatcher (chars "global") ≡ true
    → known_binding_identity b ≡ some (action, description)
    → key_character b.key ≡ some c
    → (b.modmask == 0) ≡ false
    → (unsupported_bits b.modmask == 0) ≡ true
    → from_owned_binding b
      ≡ some (spec_of action description c (b.modmask, modifier_names b.modmask))
unfolding from_owned_binding
from_owned_binding_of b action description c dispatcher known key used supported =
    rw (from_owned_binding, dispatcher, known, key, used, supported)

from_owned_binding-Made :
    (spec : ShortcutSpec) (b : HyprBinding)
    → Made portal_shortcut_name bind_description spec
    → owns spec b ≡ true
    → from_owned_binding b ≡ some spec
unfolding from_owned_binding
from_owned_binding-Made spec b (c, out, alnum, names, supported, positive, same) h =
    let (mask, key, description, dispatcher, arg) =
      owns-overlay spec b (ap (λ s. s.portal_action) same) h in
    let known = known_overlay b arg (rw same at description) in
    let mask1 : b.modmask ≡ out.0 = mask ∙ ap (λ s. s.modmask) same in
    let key1 : b.key ≡ to_ascii_upper c ∷ [] = key ∙ ap (λ s. s.key) same in
    let alnum1 = to_ascii_upper-alphanumeric c alnum in
    let found : key_character b.key ≡ some (to_ascii_upper c) =
      ap key_character key1 ∙ ap (λ t. then_some t (to_ascii_upper c)) alnum1 in
    let used : (b.modmask == 0) ≡ false = rw mask1 (ground (arith, positive)) in
    let nothing_else : (unsupported_bits b.modmask == 0) ≡ true = rw (mask1, supported) refl in
    from_owned_binding_of b portal_shortcut_name bind_description (to_ascii_upper c) dispatcher
      known found used nothing_else
    ∙ ap some (rw (mask1, to_ascii_upper-again c, ← names) (sym same))

-- A binding that the overlay's shortcut owns gives that shortcut back when the bridge cleans up: the
-- same keys, mask, action and description, also for the action's older name.
pub from_owned_binding-from_settings :
    (settings : ShortcutSettings) (spec : ShortcutSpec) (b : HyprBinding)
    → from_settings settings ≡ ok (some spec)
    → owns spec b ≡ true
    → from_owned_binding b ≡ some spec
unfolding from_settings parse
from_owned_binding-from_settings settings spec b h own = elim (Bool-cases settings.enabled) [
  | inl on ↦
      elim (Option-cases
        (parse_parts (split b'+' settings.accelerator) portal_shortcut_name bind_description)) [
          | inl e ↦ let k = rw (from_settings, parse, on, e) at h in cc
          | inr (found, e) ↦
              let k : ok (some found) ≡ ok (some spec) = rw (from_settings, parse, on, e) at h in
              let same : found ≡ spec = cc in
              from_owned_binding-Made spec b
                (parse_parts-Made (split b'+' settings.accelerator) _ _ spec (e ∙ ap some same)) own
        ]
  | inr off ↦ let k = rw (from_settings, off) at h in cc
]
