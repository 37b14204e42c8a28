-- ===== src/Hyprland/Events.antt =====
-- crates/overcrow-hyprland/src/bridge.rs: the lines of the compositor's event socket, and the events
-- after which the windows are looked at again.
pub mod Reading
use player_vox_over_crow.Common.{
  ℕ, ◌+◌, ◌-◌, ◌*◌, ◌==◌, ltb, leb, Bool, true, false, not, ◌&&◌, ◌||◌, Option, none, some, List,
  [], ◌∷◌, ◌++◌, any, length, if◌then◌else◌,
}
use player_vox_over_crow.Common.Options.{is_empty, last, map_option}
use player_vox_over_crow.Common.Result.{Result, ok, err}
use player_vox_over_crow.Common.Text.{Text, chars, text_eq}

abbrev pub Bytes : Type 0
Bytes = List ℕ

abbrev pub max_event_line_bytes : ℕ
max_event_line_bytes = 65536

-- What a reader gives when its buffer is filled: its bytes, none at the end, or an error.
pub data Fill : Type 0 where
  buffer : Bytes → Fill
  failed : Fill

pub data EventError : Type 0 where
  read_failed partial_line line_too_long not_utf8 : EventError

-- `String::from_utf8`: no overlong form, no surrogate, nothing above U+10FFFF.
abbrev pub is_continuation : ℕ → Bool
is_continuation b = leb 128 b && leb b 191

abbrev pub cons_char : ℕ → Option Text → Option Text
cons_char c none = none
cons_char c (some s) = some (c ∷ s)

abbrev pub char2 : ℕ → ℕ → ℕ
char2 a b = (a - 192) * 64 + (b - 128)

abbrev pub char3 : ℕ → ℕ → ℕ → ℕ
char3 a b c = (a - 224) * 4096 + (b - 128) * 64 + (c - 128)

abbrev pub char4 : ℕ → ℕ → ℕ → ℕ → ℕ
char4 a b c d = (a - 240) * 262144 + (b - 128) * 4096 + (c - 128) * 64 + (d - 128)

abbrev pub is_char3 : ℕ → ℕ → ℕ → Bool
is_char3 a b c =
    leb 224 a
    && (leb a 239
        && (is_continuation b
            && (is_continuation c
                && (leb 2048 (char3 a b c)
                    && not (leb 55296 (char3 a b c) && leb (char3 a b c) 57343)))))

abbrev pub is_char4 : ℕ → ℕ → ℕ → ℕ → Bool
is_char4 a b c d =
    leb 240 a
    && (leb a 244
        && (is_continuation b
            && (is_continuation c
                && (is_continuation d
                    && (leb 65536 (char4 a b c d) && leb (char4 a b c d) 1114111)))))

unfoldable pub from_utf8 : Bytes → Option Text
from_utf8 [] = some []
from_utf8 (a ∷ []) = if ltb a 128 then some (a ∷ []) else none
from_utf8 (a ∷ b ∷ []) =
    let after1 = from_utf8 (b ∷ []) in
    if ltb a 128
    then cons_char a after1
    else if leb 194 a && (leb a 223 && is_continuation b)
    then some (char2 a b ∷ [])
    else none
from_utf8 (a ∷ b ∷ c ∷ []) =
    let after1 = from_utf8 (b ∷ c ∷ []) in
    let after2 = from_utf8 (c ∷ []) in
    if ltb a 128
    then cons_char a after1
    else if leb 194 a && (leb a 223 && is_continuation b)
    then cons_char (char2 a b) after2
    else if is_char3 a b c
    then some (char3 a b c ∷ [])
    else none
from_utf8 (a ∷ b ∷ c ∷ d ∷ s) =
    let after1 = from_utf8 (b ∷ c ∷ d ∷ s) in
    let after2 = from_utf8 (c ∷ d ∷ s) in
    let after3 = from_utf8 (d ∷ s) in
    let after4 = from_utf8 s in
    if ltb a 128
    then cons_char a after1
    else if leb 194 a && (leb a 223 && is_continuation b)
    then cons_char (char2 a b) after2
    else if is_char3 a b c
    then cons_char (char3 a b c) after3
    else if is_char4 a b c d
    then cons_char (char4 a b c d) after4
    else none

-- The first newline, the bytes before it and those after.
unfoldable pub split_newline : Bytes → Option (Bytes × Bytes)
split_newline [] = none
split_newline (b ∷ s) =
    let rest = split_newline s in
    if b == b'\n' then some ([], s) else map_option (λ (p : Bytes × Bytes). (b ∷ p.0, p.1)) rest

-- `if line.last() == Some(&b'\r') { line.pop(); }`.
abbrev pub pop_return : Bytes → Bytes
pop_return [] = []
pop_return (b ∷ []) = if b == b'\r' then [] else b ∷ []
pop_return (b ∷ c ∷ s) = b ∷ pop_return (c ∷ s)

abbrev pub decoded : Option Text → Result EventError (Option Text)
decoded none = err not_utf8
decoded (some s) = ok (some s)

unfoldable pub finish_line : Bytes → Result EventError (Option Text)
unfolding from_utf8
finish_line line = decoded (from_utf8 (pop_return line))

unfoldable pub end_of_events : Bytes → Result EventError (Option Text)
end_of_events line = if is_empty line then ok none else err partial_line

-- What is left of a buffer of which a part was consumed.
abbrev pub unread : Bytes → List Fill → List Fill
unread [] fills = fills
unread (b ∷ s) fills = buffer (b ∷ s) ∷ fills

-- The body of the loop for a buffer, with its first newline and what is read when it has none.
abbrev pub read_buffer :
    Bytes
    → Bytes
    → List Fill
    → Option (Bytes × Bytes)
    → Result EventError (Option Text) × List Fill
    → Result EventError (Option Text) × List Fill
read_buffer line available fills none rest =
    if ltb max_event_line_bytes (length line + length available)
    then (err line_too_long, buffer available ∷ fills)
    else rest
read_buffer line available fills (some (data_bytes, after)) rest =
    if ltb max_event_line_bytes (length line + length data_bytes)
    then (err line_too_long, buffer available ∷ fills)
    else (finish_line (line ++ data_bytes), unread after fills)

-- The loop, with the line so far and the fills of the reader that are to come.
unfoldable pub read_from : Bytes → List Fill → Result EventError (Option Text) × List Fill
unfolding split_newline finish_line end_of_events
read_from line [] = (end_of_events line, [])
read_from line (failed ∷ fills) = (err read_failed, fills)
read_from line (buffer [] ∷ fills) = (end_of_events line, fills)
read_from line (buffer (b ∷ s) ∷ fills) =
    read_buffer line (b ∷ s) fills (split_newline (b ∷ s)) (read_from (line ++ (b ∷ s)) fills)

unfoldable pub read_event_line : List Fill → Result EventError (Option Text) × List Fill
unfolding read_from
read_event_line fills = read_from [] fills

-- `line.split_once(">>")`.
unfoldable pub event_name : Text → Option Text
event_name [] = none
event_name (c ∷ []) = none
event_name (c ∷ d ∷ s) =
    let rest = event_name (d ∷ s) in
    if c == b'>' && d == b'>' then some [] else map_option (λ (t : Text). c ∷ t) rest

abbrev pub reconciliation_events : List Text
reconciliation_events =
    chars "workspace"
    ∷ chars "workspacev2"
    ∷ chars "focusedmon"
    ∷ chars "focusedmonv2"
    ∷ chars "activewindow"
    ∷ chars "activewindowv2"
    ∷ chars "fullscreen"
    ∷ chars "monitorremoved"
    ∷ chars "monitorremovedv2"
    ∷ chars "monitoradded"
    ∷ chars "monitoraddedv2"
    ∷ chars "openwindow"
    ∷ chars "closewindow"
    ∷ chars "kill"
    ∷ chars "movewindow"
    ∷ chars "movewindowv2"
    ∷ chars "changefloatingmode"
    ∷ chars "windowtitle"
    ∷ chars "windowtitlev2"
    ∷ chars "configreloaded"
    ∷ chars "pin"
    ∷ chars "minimized"
    ∷ []

abbrev pub is_one_of : List Text → Option Text → Bool
is_one_of names none = false
is_one_of names (some name) = any (text_eq name) names

unfoldable pub is_reconciliation_event : Text → Bool
unfolding event_name
is_reconciliation_event line = is_one_of reconciliation_events (event_name line)
