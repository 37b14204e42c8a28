-- ===== src/Hyprland/Shortcut.antt =====
-- crates/overcrow-hyprland/src/shortcut.rs: the shortcuts that the bridge binds in the compositor,
-- and the bindings that it recognises as its own.
pub mod Parsing
pub mod Binding
pub mod Reconciler
pub mod Owned
pub mod Ownership
use player_vox_over_crow.Common.{
  ℕ, zero, ◌+◌, ◌-◌, ◌/◌, ◌%◌, ◌==◌, leb, ltb, Bool, true, false, not, ◌&&◌, ◌||◌, Option, none,
  some, List, [], ◌∷◌, ◌++◌, length, if◌then◌else◌,
}
use player_vox_over_crow.Common.Options.{◌>>=◌, ◌>>◌, guard, then_some, last}
use player_vox_over_crow.Common.Print.{join}
use player_vox_over_crow.Common.Result.{Result, ok, err}
use player_vox_over_crow.Common.Text.{Text, chars, text_eq, split}
use player_vox_over_crow.Config.Accelerator.{is_ascii_alphanumeric, not_above}
use player_vox_over_crow.Config.Settings.{ShortcutSettings}

abbrev pub portal_shortcut_name : Text
portal_shortcut_name = chars "com.playervox.OverCrow:toggle-overlay"

abbrev pub legacy_portal_shortcut_name : Text
legacy_portal_shortcut_name = chars ":toggle-overlay"

abbrev pub bind_description : Text
bind_description = chars "OverCrow overlay"

abbrev pub toggle_manual_stopwatch_portal_action : Text
toggle_manual_stopwatch_portal_action = chars "com.playervox.OverCrow:toggle-manual-stopwatch"

abbrev pub legacy_toggle_manual_stopwatch_portal_action : Text
legacy_toggle_manual_stopwatch_portal_action = chars ":toggle-manual-stopwatch"

abbrev pub toggle_manual_stopwatch_bind_description : Text
toggle_manual_stopwatch_bind_description = chars "OverCrow manual stopwatch start or pause"

abbrev pub reset_manual_stopwatch_portal_action : Text
reset_manual_stopwatch_portal_action = chars "com.playervox.OverCrow:reset-manual-stopwatch"

abbrev pub legacy_reset_manual_stopwatch_portal_action : Text
legacy_reset_manual_stopwatch_portal_action = chars ":reset-manual-stopwatch"

abbrev pub reset_manual_stopwatch_bind_description : Text
reset_manual_stopwatch_bind_description = chars "OverCrow manual stopwatch reset"

abbrev pub meta_mask : ℕ
meta_mask = 64

abbrev pub ctrl_mask : ℕ
ctrl_mask = 4

abbrev pub alt_mask : ℕ
alt_mask = 8

abbrev pub shift_mask : ℕ
shift_mask = 1

pub data ShortcutBackend : Type 0 where
  lua compatibility : ShortcutBackend

-- The one error, "unsupported shortcut accelerator".
pub data ShortcutError : Type 0 where
  invalid_accelerator : ShortcutError

pub record ShortcutSpec : Type 0 where
  pub keys : Text
  pub key : Text
  pub modmask : ℕ  -- u32
  pub portal_action : Text
  pub description : Text

pub record GlobalShortcut : Type 0 where
  pub name : Text
  pub description : Text

pub record HyprBinding : Type 0 where
  pub modmask : ℕ  -- u32
  pub key : Text
  pub description : Text
  pub dispatcher : Text
  pub arg : Text

-- `mask & bit != 0` and `mask | bit`, for a power of two.
abbrev pub has_bit : ℕ → ℕ → Bool
has_bit mask bit = (mask / bit) % 2 == 1

abbrev pub set_bit : ℕ → ℕ → ℕ
set_bit mask bit = if has_bit mask bit then mask else mask + bit

-- The rank, the name and the bit of a modifier.
unfoldable pub modifier : Text → Option (ℕ × Text × ℕ)
modifier part =
    if text_eq part (chars "Meta")
    then some (0, chars "SUPER", meta_mask)
    else if text_eq part (chars "Ctrl")
    then some (1, chars "CTRL", ctrl_mask)
    else if text_eq part (chars "Alt")
    then some (2, chars "ALT", alt_mask)
    else if text_eq part (chars "Shift")
    then some (3, chars "SHIFT", shift_mask)
    else none

-- The one character of a key, when it is an ASCII letter or digit.
abbrev pub key_character : Text → Option ℕ
key_character [] = none
key_character (c ∷ []) = then_some (is_ascii_alphanumeric c) c
key_character (c ∷ d ∷ s) = none

abbrev pub to_ascii_upper : ℕ → ℕ
to_ascii_upper c = if leb b'a' c && leb c b'z' then c - 32 else c

abbrev pub init {ℓ} : {A : Type ℓ} → List A → List A
init [] = []
init (x ∷ []) = []
init (x ∷ y ∷ xs) = x ∷ init (y ∷ xs)

-- The loop over the modifiers, with the last rank, the mask and the names so far.
unfoldable pub modifiers : List Text → Option ℕ → ℕ → List Text → Option (ℕ × List Text)
unfolding modifier
modifiers [] previous mask rendered = some (mask, rendered)
modifiers (part ∷ rest) previous mask rendered = do
  (rank, name, bit) ← modifier part
  guard (not (not_above previous rank))
  modifiers rest (some rank) (set_bit mask bit) (rendered ++ (name ∷ []))

abbrev pub spec_of : Text → Text → ℕ → ℕ × List Text → ShortcutSpec
spec_of action description c (mask, rendered) = record {
  keys = join (chars " + ") (rendered ++ ((to_ascii_upper c ∷ []) ∷ []));
  key = to_ascii_upper c ∷ [];
  modmask = mask;
  portal_action = action;
  description = description;
}

unfoldable pub parse_parts : List Text → Text → Text → Option ShortcutSpec
unfolding modifiers
parse_parts parts action description = do
  guard (not (ltb (length parts) 2))
  key ← last parts
  c ← key_character key
  rendered ← modifiers (init parts) none 0 []
  some (spec_of action description c rendered)

abbrev pub or_invalid : Option ShortcutSpec → Result ShortcutError ShortcutSpec
or_invalid none = err invalid_accelerator
or_invalid (some spec) = ok spec

unfoldable pub parse : Text → Text → Text → Result ShortcutError ShortcutSpec
unfolding parse_parts split
parse accelerator action description =
    or_invalid (parse_parts (split b'+' accelerator) action description)

unfoldable pub from_settings : ShortcutSettings → Result ShortcutError (Option ShortcutSpec)
unfolding parse
from_settings settings =
    if not settings.enabled
    then ok none
    else elim (parse settings.accelerator portal_shortcut_name bind_description) [
      | ok spec ↦ ok (some spec)
      | err e ↦ err e
    ]

-- The two of `manual_stopwatch`, of which `?` gives the first error.
unfoldable pub manual_stopwatch : Result ShortcutError (List ShortcutSpec)
unfolding parse
manual_stopwatch =
    elim (parse (chars "Meta+Alt+P") toggle_manual_stopwatch_portal_action
      toggle_manual_stopwatch_bind_description) [
        | err e ↦ err e
        | ok toggle ↦
            elim (parse (chars "Meta+Alt+R") reset_manual_stopwatch_portal_action
              reset_manual_stopwatch_bind_description) [
                | err e ↦ err e
                | ok reset ↦ ok (toggle ∷ reset ∷ [])
              ]
      ]
