-- ===== src/Hyprland/Shortcut/Binding.antt =====
-- crates/overcrow-hyprland/src/shortcut.rs: the requests for a binding, and whose a binding is.
use player_vox_over_crow.Common.{
  ℕ, ◌+◌, ◌-◌, ◌==◌, Bool, false, not, ◌&&◌, ◌||◌, Option, none, some, List, [], ◌∷◌, ◌++◌, any,
  if◌then◌else◌,
}
use player_vox_over_crow.Common.Options.{
  ◌>>=◌, ◌>>◌, guard, then_some, filter_option, find_map, filter_map,
}
use player_vox_over_crow.Common.Print.{join}
use player_vox_over_crow.Common.Text.{Text, chars, text_eq}
use player_vox_over_crow.Hyprland.Shortcut.{
  ShortcutBackend, lua, compatibility, ShortcutSpec, GlobalShortcut, HyprBinding, has_bit,
  meta_mask, ctrl_mask, alt_mask, shift_mask, key_character, spec_of, portal_shortcut_name,
  legacy_portal_shortcut_name, bind_description, toggle_manual_stopwatch_portal_action,
  legacy_toggle_manual_stopwatch_portal_action, toggle_manual_stopwatch_bind_description,
  reset_manual_stopwatch_portal_action, legacy_reset_manual_stopwatch_portal_action,
  reset_manual_stopwatch_bind_description,
}

-- The names of the bits of a mask, in the order of the table.
unfoldable pub modifier_names : ℕ → List Text
modifier_names mask =
    filter_map (λ (b : ℕ × Text). then_some (has_bit mask b.0) b.1)
      ((meta_mask, chars "SUPER")
        ∷ (ctrl_mask, chars "CTRL")
        ∷ (alt_mask, chars "ALT")
        ∷ (shift_mask, chars "SHIFT")
        ∷ [])

abbrev pub bit_if : ℕ → ℕ → ℕ
bit_if mask bit = if has_bit mask bit then bit else 0

-- `mask & !supported_mask`.
unfoldable pub unsupported_bits : ℕ → ℕ
unsupported_bits mask =
    mask
    - (bit_if mask meta_mask
        + bit_if mask ctrl_mask
        + bit_if mask alt_mask
        + bit_if mask shift_mask)

-- The rows of `known_binding_identity`: the action, its older name and the description.
abbrev pub overlay_identity : Text × Text × Text
overlay_identity = (portal_shortcut_name, legacy_portal_shortcut_name, bind_description)

abbrev pub stopwatch_identities : List (Text × Text × Text)
stopwatch_identities =
    (
      toggle_manual_stopwatch_portal_action, legacy_toggle_manual_stopwatch_portal_action,
      toggle_manual_stopwatch_bind_description,
    )
    ∷ (
      reset_manual_stopwatch_portal_action, legacy_reset_manual_stopwatch_portal_action,
      reset_manual_stopwatch_bind_description,
    )
    ∷ []

abbrev pub identity_in : HyprBinding → Text × Text × Text → Option (Text × Text)
identity_in b (action, legacy_action, description) =
    then_some
      ((text_eq b.arg action || text_eq b.arg legacy_action) && text_eq b.description description)
      (action, description)

unfoldable pub known_binding_identity : HyprBinding → Option (Text × Text)
known_binding_identity b = find_map (identity_in b) (overlay_identity ∷ stopwatch_identities)

unfoldable pub legacy_portal_action : Text → Option Text
legacy_portal_action action =
    if text_eq action portal_shortcut_name
    then some legacy_portal_shortcut_name
    else if text_eq action toggle_manual_stopwatch_portal_action
    then some legacy_toggle_manual_stopwatch_portal_action
    else if text_eq action reset_manual_stopwatch_portal_action
    then some legacy_reset_manual_stopwatch_portal_action
    else none

unfoldable pub from_owned_binding : HyprBinding → Option ShortcutSpec
unfolding known_binding_identity modifier_names unsupported_bits
from_owned_binding b = do
  guard (text_eq b.dispatcher (chars "global"))
  (action, description) ← known_binding_identity b
  c ← key_character b.key
  guard (not (b.modmask == 0 || not (unsupported_bits b.modmask == 0)))
  some (spec_of action description c (b.modmask, modifier_names b.modmask))

unfoldable pub matches_accelerator : ShortcutSpec → HyprBinding → Bool
matches_accelerator spec b = b.modmask == spec.modmask && text_eq b.key spec.key

unfoldable pub owns_action : ShortcutSpec → HyprBinding → Text → Bool
unfolding matches_accelerator
owns_action spec b action =
    matches_accelerator spec b
    && (text_eq b.description spec.description
        && (text_eq b.dispatcher (chars "global") && text_eq b.arg action))

abbrev pub owns_legacy : ShortcutSpec → HyprBinding → Option Text → Bool
owns_legacy spec b none = false
owns_legacy spec b (some action) = owns_action spec b action

unfoldable pub owns : ShortcutSpec → HyprBinding → Bool
unfolding owns_action legacy_portal_action
owns spec b =
    owns_action spec b spec.portal_action
    || owns_legacy spec b (legacy_portal_action spec.portal_action)

abbrev pub is_advertised : List GlobalShortcut → Text → Bool
is_advertised globals action = any (λ (g : GlobalShortcut). text_eq g.name action) globals

unfoldable pub advertised_portal_action : ShortcutSpec → List GlobalShortcut → Option Text
unfolding legacy_portal_action
advertised_portal_action spec globals =
    if is_advertised globals spec.portal_action
    then some spec.portal_action
    else filter_option (is_advertised globals) (legacy_portal_action spec.portal_action)

unfoldable pub compatibility_modifiers : ShortcutSpec → Text
unfolding modifier_names
compatibility_modifiers spec = join (chars " ") (modifier_names spec.modmask)

unfoldable pub bind_request_for_action : ShortcutSpec → ShortcutBackend → Text → Text
unfolding compatibility_modifiers
bind_request_for_action spec lua action =
    chars "eval hl.bind(\""
    ++ (spec.keys
        ++ (chars "\", hl.dsp.global(\""
            ++ (action
                ++ (chars "\"), { description = \"" ++ (spec.description ++ chars "\" })")))))
bind_request_for_action spec compatibility action =
    chars "keyword bindd "
    ++ (compatibility_modifiers spec
        ++ (chars ", "
            ++ (spec.key ++ (chars ", " ++ (spec.description ++ (chars ", global, " ++ action))))))

unfoldable pub unbind_request : ShortcutSpec → ShortcutBackend → Text
unfolding compatibility_modifiers
unbind_request spec lua = chars "eval hl.unbind(\"" ++ (spec.keys ++ chars "\")")
unbind_request spec compatibility =
    chars "keyword unbind " ++ (compatibility_modifiers spec ++ (chars ", " ++ spec.key))
