-- ===== src/Core/Session/Desktop.antt =====
-- crates/overcrow-core/src/session.rs: `DesktopSession::detect` on the three environment variables.
pub mod Detect
use player_vox_over_crow.Common.{
  ℕ, zero, suc, Bool, true, false, not, ◌&&◌, Option, none, some, List, [], ◌∷◌, any, map, length,
  leb, ltb, if◌then◌else◌,
}
use player_vox_over_crow.Common.Text.{Text, chars, trim, byte_len, split, eq_ignore_ascii_case}

pub data DesktopSession : Type 0 where
  x11 hyprland plasma_wayland gnome_wayland unsupported : DesktopSession

pub data DesktopKind : Type 0 where
  hyprland_kind plasma_kind gnome_kind : DesktopKind

pub data DesktopMetadata : Type 0 where
  absent : DesktopMetadata
  known : DesktopKind → DesktopMetadata
  invalid : DesktopMetadata

abbrev pub max_desktop_metadata_bytes : ℕ
max_desktop_metadata_bytes = 128

abbrev pub max_desktop_tokens : ℕ
max_desktop_tokens = 8

abbrev pub kind_eq : DesktopKind → DesktopKind → Bool
kind_eq hyprland_kind hyprland_kind = true
kind_eq plasma_kind plasma_kind = true
kind_eq gnome_kind gnome_kind = true
kind_eq _ _ = false

unfoldable pub bounded_token : Option Text → ℕ → Option Text
bounded_token none max_bytes = none
bounded_token (some raw) max_bytes =
    let value = trim raw in
    if ltb 0 (length value) && leb (byte_len value) max_bytes then some value else none

abbrev pub plasma_names : List Text
plasma_names = map chars (
    "kde" ∷ "plasma" ∷ "plasmawayland" ∷ "plasma-wayland" ∷ "plasma6" ∷ "kde-plasma"
    ∷ "kde-plasma-wayland" ∷ [])

abbrev pub gnome_names : List Text
gnome_names =
    map chars ("gnome" ∷ "gnome-wayland" ∷ "ubuntu" ∷ "ubuntu-gnome" ∷ "ubuntu-wayland" ∷ [])

unfoldable pub desktop_kind : Text → Option DesktopKind
desktop_kind token =
    if eq_ignore_ascii_case token (chars "hyprland")
    then some hyprland_kind
    else if any (eq_ignore_ascii_case token) plasma_names
    then some plasma_kind
    else if any (eq_ignore_ascii_case token) gnome_names
    then some gnome_kind
    else none

abbrev pub known_or_invalid : Option DesktopKind → DesktopMetadata
known_or_invalid none = invalid
known_or_invalid (some kind) = known kind

-- `detected.is_some_and(|current| current != kind)`.
abbrev pub contradicts : Option DesktopKind → DesktopKind → Bool
contradicts none kind = false
contradicts (some current) kind = not (kind_eq current kind)

-- The loop over the tokens, from what was detected so far.
unfoldable pub detect_tokens : Option DesktopKind → List Text → DesktopMetadata
detect_tokens detected [] = known_or_invalid detected
detect_tokens detected (token ∷ tokens) = elim (desktop_kind (trim token)) [
  | none ↦ invalid
  | some kind ↦
      let rest = detect_tokens (some kind) tokens in
      if contradicts detected kind then invalid else rest
]

-- `take(MAX_DESKTOP_TOKENS + 1)` is there to stop counting early.
unfoldable pub parse_desktop_metadata : Option Text → Bool → DesktopMetadata
unfolding detect_tokens
parse_desktop_metadata none split_tokens = absent
parse_desktop_metadata (some raw) split_tokens =
    let value = trim raw in
    let tokens = split b':' value in
    if leb (length value) 0
    then absent
    else if ltb max_desktop_metadata_bytes (byte_len value)
    then invalid
    else if not split_tokens
    then known_or_invalid (desktop_kind value)
    else if ltb max_desktop_tokens (length tokens)
    then invalid
    else detect_tokens none tokens

-- The two sources of a Wayland desktop: `XDG_CURRENT_DESKTOP`, then `DESKTOP_SESSION`.
abbrev pub combine : DesktopMetadata → DesktopMetadata → Option DesktopKind
combine (known current) (known session) = if kind_eq current session then some current else none
combine (known kind) absent = some kind
combine (known kind) invalid = some kind
combine absent (known kind) = some kind
combine absent absent = none
combine absent invalid = none
combine invalid _ = none

abbrev pub session_of : Option DesktopKind → DesktopSession
session_of none = unsupported
session_of (some hyprland_kind) = hyprland
session_of (some plasma_kind) = plasma_wayland
session_of (some gnome_kind) = gnome_wayland

abbrev pub session_type_of : Option Text → Option DesktopKind → DesktopSession
session_type_of none desktop = unsupported
session_type_of (some session_type) desktop =
    if eq_ignore_ascii_case session_type (chars "x11")
    then x11
    else if not (eq_ignore_ascii_case session_type (chars "wayland"))
    then unsupported
    else session_of desktop

unfoldable pub detect : Option Text → Option Text → Option Text → DesktopSession
detect session_type current_desktop desktop_session =
    session_type_of (bounded_token session_type 32) (
      combine (parse_desktop_metadata current_desktop true)
        (parse_desktop_metadata desktop_session false))
