-- ===== src/Hyprland/Bindings.antt =====
-- crates/overcrow-hyprland/src/ipc.rs: the compositor's list of bindings, which it prints as text, and
-- which of its two ways to bind it takes.
mod Fields
pub mod Bounds
use player_vox_over_crow.Common.{
  ℕ, zero, suc, ◌+◌, ◌-◌, ◌/◌, ◌%◌, ◌==◌, leb, ltb, Bool, true, false, not, ◌&&◌, ◌||◌, Option,
  none, some, List, [], ◌∷◌, ◌++◌, any, all, length, is_some, if◌then◌else◌,
}
use player_vox_over_crow.Common.Options.{is_empty, map_option, flat_map}
use player_vox_over_crow.Common.Result.{Result, ok, err}
use player_vox_over_crow.Common.Text.{
  Text, chars, text_eq, byte_len, trim, split, starts_with, parse_u32,
}
use player_vox_over_crow.Config.Accelerator.{is_ascii_alphanumeric}
use player_vox_over_crow.Hyprland.Shortcut.{ShortcutBackend, lua, compatibility, HyprBinding}
use player_vox_over_crow.Hyprland.Events.{pop_return}

abbrev pub max_bindings : ℕ
max_bindings = 4096

abbrev pub max_binding_field_bytes : ℕ
max_binding_field_bytes = 16384

abbrev pub max_backend_response_chars : ℕ
max_backend_response_chars = 192

-- Hexadecimal digits, with as much fuel as the number is large.
unfoldable pub hex_digits : ℕ → ℕ → Text → Text
hex_digits zero n acc = acc
hex_digits (suc fuel) n acc =
    let digit = if ltb (n % 16) 10 then b'0' + n % 16 else b'a' + (n % 16 - 10) in
    let rest = hex_digits fuel (n / 16) (digit ∷ acc) in if ltb n 16 then digit ∷ acc else rest

-- `char::escape_default`.
unfoldable pub escape_default : ℕ → Text
unfolding hex_digits
escape_default c =
    if c == b'\t'
    then chars "\\t"
    else if c == b'\r'
    then chars "\\r"
    else if c == b'\n'
    then chars "\\n"
    else if c == b'\'' || (c == b'"' || c == b'\\')
    then b'\\' ∷ c ∷ []
    else if leb 32 c && leb c 126
    then c ∷ []
    else chars "\\u{" ++ hex_digits (c + 1) c (chars "}")

abbrev pub take {ℓ} : {A : Type ℓ} → ℕ → List A → List A
take zero xs = []
take (suc n) [] = []
take (suc n) (x ∷ xs) = x ∷ take n xs

-- `UnsupportedShortcutBackend`, with the answer that it quotes.
pub record UnsupportedShortcutBackend : Type 0 where
  pub response : Text

unfoldable pub new_unsupported : Text → UnsupportedShortcutBackend
unfolding escape_default
new_unsupported response = record {
  response = take max_backend_response_chars (flat_map escape_default (trim response));
}

unfoldable pub detect_shortcut_backend : Text → Result UnsupportedShortcutBackend ShortcutBackend
unfolding new_unsupported
detect_shortcut_backend response =
    if text_eq (trim response) (chars "ok")
    then ok lua
    else if text_eq (trim response) (chars "eval is only supported with the lua config manager")
    then ok compatibility
    else err (new_unsupported (trim response))

pub record TextBinding : Type 0 where
  pub modmask : Option ℕ  -- u32
  pub key : Option Text
  pub description : Option Text
  pub dispatcher : Option Text
  pub arg : Option Text

abbrev pub empty_binding : TextBinding
empty_binding = record {
  modmask = none;
  key = none;
  description = none;
  dispatcher = none;
  arg = none;
}

pub data BindingError : Type 0 where
  no_modmask no_key no_description no_dispatcher no_argument : BindingError
  invalid_header field_before_header no_separator invalid_field : BindingError
  duplicate_field modmask_not_u32 too_many_bindings : BindingError

abbrev pub or_missing {ℓ κ} :
    {A : Type ℓ} {B : Type κ}
    → Option A
    → BindingError
    → (A → Result BindingError B)
    → Result BindingError B
or_missing none e f = err e
or_missing (some a) e f = f a

unfoldable pub finish : TextBinding → Result BindingError HyprBinding
finish t = or_missing t.modmask no_modmask λ modmask. or_missing t.key no_key λ key.
    or_missing t.description no_description λ description.
      or_missing t.dispatcher no_dispatcher λ dispatcher. or_missing t.arg no_argument λ arg.
        ok (record {
          modmask = modmask;
          key = key;
          description = description;
          dispatcher = dispatcher;
          arg = arg;
        })

unfoldable pub set_text_field : Option Text → Text → Result BindingError (Option Text)
set_text_field (some _) value = err duplicate_field
set_text_field none value = ok (some value)

abbrev pub push :
    List HyprBinding → Result BindingError HyprBinding → Result BindingError (List HyprBinding)
push bindings (err e) = err e
push bindings (ok b) = ok (bindings ++ (b ∷ []))

unfoldable pub finish_text_binding :
    Option TextBinding → List HyprBinding → Result BindingError (List HyprBinding)
unfolding finish
finish_text_binding none bindings = ok bindings
finish_text_binding (some current) bindings =
    if leb max_bindings (length bindings)
    then err too_many_bindings
    else push bindings (finish current)

-- `split_once(c)`.
abbrev pub split_once : ℕ → Text → Option (Text × Text)
split_once c [] = none
split_once c (d ∷ s) =
    let rest = split_once c s in
    if d == c then some ([], s) else map_option (λ (p : Text × Text). (d ∷ p.0, p.1)) rest

-- `value.strip_prefix(' ').unwrap_or(value)`.
abbrev pub without_space : Text → Text
without_space [] = []
without_space (c ∷ s) = if c == b' ' then s else c ∷ s

-- `str::lines`: a line that is ended by a newline loses one carriage return before it.
abbrev pub ended_lines : List Text → List Text
ended_lines [] = []
ended_lines (s ∷ []) = if is_empty s then [] else s ∷ []
ended_lines (s ∷ t ∷ rest) = pop_return s ∷ ended_lines (t ∷ rest)

unfoldable pub lines : Text → List Text
lines s = ended_lines (split b'\n' s)

abbrev pub map_ok {ℓ κ} :
    {A : Type ℓ} {B : Type κ} → (A → B) → Result BindingError A → Result BindingError B
map_ok f (err e) = err e
map_ok f (ok a) = ok (f a)

unfoldable pub set_modmask : TextBinding → Text → Result BindingError TextBinding
set_modmask t value =
    if is_some t.modmask
    then err duplicate_field
    else or_missing (parse_u32 value) modmask_not_u32 λ n. ok (record t { modmask = some n })

-- The `match name`.
unfoldable pub set_field : TextBinding → Text → Text → Result BindingError TextBinding
unfolding set_modmask set_text_field
set_field t name value =
    if text_eq name (chars "modmask")
    then set_modmask t value
    else if text_eq name (chars "key")
    then map_ok (λ f. record t { key = f }) (set_text_field t.key value)
    else if text_eq name (chars "description")
    then map_ok (λ f. record t { description = f }) (set_text_field t.description value)
    else if text_eq name (chars "dispatcher")
    then map_ok (λ f. record t { dispatcher = f }) (set_text_field t.dispatcher value)
    else if text_eq name (chars "arg")
    then map_ok (λ f. record t { arg = f }) (set_text_field t.arg value)
    else ok t

abbrev pub is_acceptable : Text → Bool
is_acceptable value = not (ltb max_binding_field_bytes (byte_len value) || any (λ c. c == 0) value)

-- A field's value, once it is split from its name.
unfoldable pub read_field : TextBinding → Text × Text → Result BindingError TextBinding
unfolding set_field
read_field t (name, value) =
    if not (is_acceptable (without_space value))
    then err invalid_field
    else set_field t name (without_space value)

-- A line that starts with a tab.
unfoldable pub field_line : Option TextBinding → Text → Result BindingError TextBinding
unfolding read_field
field_line none line = err field_before_header
field_line (some t) line = or_missing (split_once b':' line) no_separator (read_field t)

unfoldable pub is_header : Text → Bool
is_header line = starts_with line (chars "bind") && all is_ascii_alphanumeric line

abbrev pub State : Type 0
State = Option TextBinding × List HyprBinding

-- The body of the loop over the lines.
unfoldable pub read_line : State → Text → Result BindingError State
unfolding finish_text_binding is_header field_line
read_line (current, bindings) [] = map_ok (λ bs. (none, bs)) (finish_text_binding current bindings)
read_line (current, bindings) (c ∷ line) =
    if c == b'\t'
    then map_ok (λ t. (some t, bindings)) (field_line current line)
    else elim (finish_text_binding current bindings) [
      | err e ↦ err e
      | ok bs ↦
          if not (is_header (c ∷ line)) then err invalid_header else ok (some empty_binding, bs)
    ]

unfoldable pub read_lines : State → List Text → Result BindingError (List HyprBinding)
unfolding read_line finish_text_binding
read_lines (current, bindings) [] = finish_text_binding current bindings
read_lines state (line ∷ rest) = elim (read_line state line) [
  | err e ↦ err e
  | ok next ↦ read_lines next rest
]

unfoldable pub parse_bindings_text : Text → Result BindingError (List HyprBinding)
unfolding read_lines lines
parse_bindings_text response = read_lines (none, []) (lines response)
