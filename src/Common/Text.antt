-- ===== src/Common/Text.antt =====
-- Rust strings as lists of code points, with the operations of the standard library that the
-- program uses on them, and paths with the equality of `PathBuf`.
use Prim.Native.Nat.{ℕ, ◌+◌, ◌*◌, ◌-◌}
use Prim.Native.Char.{code}
use Prim.Native.String.{String}
use mathlib.Core.Path.{◌≡◌, refl}
use mathlib.Core.Logic.{◌↔◌}
use mathlib.Core.Bool.{Bool, true, false, ◌&&◌, ◌||◌}
use mathlib.Core.Option.{Option, none, some}
use mathlib.Core.List.{List, [], ◌∷◌, map, reverse}
use native.Mathlib.Omega.{arith}
use player_vox_over_crow.Common.Tests.{
  ltb, leb, ◌==◌, ==_iff, if◌then◌else◌, Decides, bool_eq, bool_eq_iff, &&_true,
}
use player_vox_over_crow.Common.Lists.{list_eq, list_eq_iff}
use player_vox_over_crow.Common.Time.{u32_max}

abbrev pub Text : Type 0
Text = List ℕ

-- The code points of a literal.
abbrev pub chars : String → Text
chars String.[] = []
chars (String.◌∷◌ c s) = code c ∷ chars s

abbrev pub text_eq : Text → Text → Bool
text_eq = list_eq (λ a b. a == b)

pub text_eq_iff : Decides text_eq
text_eq_iff = list_eq_iff (λ a b. a == b) ==_iff

-- `char::len_utf8`, and `str::len`.
abbrev pub len_utf8 : ℕ → ℕ
len_utf8 c = if ltb c 128 then 1 else if ltb c 2048 then 2 else if ltb c 65536 then 3 else 4

unfoldable pub byte_len : Text → ℕ
byte_len [] = 0
byte_len (c ∷ s) = len_utf8 c + byte_len s

-- `char::is_whitespace`: the Unicode property White_Space.
abbrev pub is_whitespace : ℕ → Bool
is_whitespace c =
    leb 9 c && leb c 13
    || c == 32
    || c == 133
    || c == 160
    || c == 5760
    || leb 8192 c && leb c 8202
    || c == 8232
    || c == 8233
    || c == 8239
    || c == 8287
    || c == 12288

unfoldable pub trim_start : Text → Text
trim_start [] = []
trim_start (c ∷ s) = if is_whitespace c then trim_start s else c ∷ s

unfoldable pub trim : Text → Text
unfolding trim_start
trim s = reverse (trim_start (reverse (trim_start s)))

abbrev pub to_ascii_lower : ℕ → ℕ
to_ascii_lower c = if leb b'A' c && leb c b'Z' then c + 32 else c

abbrev pub to_ascii_lowercase : Text → Text
to_ascii_lowercase = map to_ascii_lower

unfoldable pub eq_ignore_ascii_case : Text → Text → Bool
eq_ignore_ascii_case a b = text_eq (to_ascii_lowercase a) (to_ascii_lowercase b)

unfoldable pub starts_with : Text → Text → Bool
starts_with s [] = true
starts_with [] (p ∷ ps) = false
starts_with (c ∷ s) (p ∷ ps) = c == p && starts_with s ps

unfoldable pub contains : Text → Text → Bool
unfolding starts_with
contains [] p = starts_with [] p
contains (c ∷ s) p = starts_with (c ∷ s) p || contains s p

unfoldable pub ends_with : Text → Text → Bool
unfolding starts_with
ends_with s p = starts_with (reverse s) (reverse p)

-- `str::split(char)`: at least one piece, and one more for each separator.
abbrev pub cons_first : ℕ → List Text → List Text
cons_first c [] = (c ∷ []) ∷ []
cons_first c (s ∷ rest) = (c ∷ s) ∷ rest

unfoldable pub split : ℕ → Text → List Text
split sep [] = [] ∷ []
split sep (c ∷ s) = let rest = split sep s in if c == sep then [] ∷ rest else cons_first c rest

-- `str::parse::<u32>`: an optional `+`, then decimal digits only, at least one, within the type.
abbrev pub is_digit : ℕ → Bool
is_digit c = leb b'0' c && leb c b'9'

unfoldable pub parse_digits : ℕ → Text → Option ℕ
parse_digits acc [] = some acc
parse_digits acc (c ∷ s) =
    let next = acc * 10 + (c - b'0') in
    let rest = parse_digits next s in if is_digit c && leb next u32_max then rest else none

abbrev pub nonempty_digits : Text → Option ℕ
nonempty_digits [] = none
nonempty_digits (c ∷ s) = parse_digits 0 (c ∷ s)

unfoldable pub parse_u32 : Text → Option ℕ
unfolding parse_digits
parse_u32 [] = none
parse_u32 (c ∷ s) = if c == b'+' then nonempty_digits s else parse_digits 0 (c ∷ s)

-- A path is the text that it was made from. `PathBuf` compares by components: a root, then the
-- names between the separators, empty ones and `.` left out but for a leading `.`.
pub record FilePath : Type 0 where
  pub raw : Text

abbrev pub is_skipped : Text → Bool
is_skipped s = text_eq s [] || text_eq s (b'.' ∷ [])

abbrev pub drop_skipped : List Text → List Text
drop_skipped [] = []
drop_skipped (s ∷ rest) = if is_skipped s then drop_skipped rest else s ∷ drop_skipped rest

abbrev pub drop_after_first : List Text → List Text
drop_after_first [] = []
drop_after_first (s ∷ rest) =
    if text_eq s (b'.' ∷ []) then s ∷ drop_skipped rest else drop_skipped (s ∷ rest)

abbrev pub has_root : Text → Bool
has_root [] = false
has_root (c ∷ s) = c == b'/'

unfoldable pub components : FilePath → List Text
unfolding split
components p = drop_after_first (split b'/' p.raw)

unfoldable pub is_absolute : FilePath → Bool
is_absolute p = has_root p.raw

unfoldable pub path_eq : FilePath → FilePath → Bool
unfolding components is_absolute
path_eq a b =
    bool_eq (is_absolute a) (is_absolute b) && list_eq text_eq (components a) (components b)

abbrev pub SamePath : FilePath → FilePath → Type 0
SamePath a b = (is_absolute a ≡ is_absolute b) × (components a ≡ components b)

pub path_eq_iff : (a b : FilePath) → (path_eq a b ≡ true) ↔ SamePath a b
unfolding path_eq
path_eq_iff a b = (
  λ h.
      let (p, q) = &&_true _ _ h in
      ((bool_eq_iff _ _).0 p, (list_eq_iff text_eq text_eq_iff _ _).0 q),
  λ h. ground (
    arith,
    bool_eq_iff (is_absolute a) (is_absolute b),
    list_eq_iff text_eq text_eq_iff (components a) (components b),
    h,
  ),
)

pub path_eq_refl : (a : FilePath) → path_eq a a ≡ true
path_eq_refl a = (path_eq_iff a a).1 (refl, refl)

-- Equal paths have the same equals.
pub path_eq_congr : (a b c : FilePath) → path_eq a b ≡ true → path_eq c a ≡ path_eq c b
unfolding path_eq
path_eq_congr a b c h = let (p, q) = (path_eq_iff a b).0 h in ground (arith, p, q)
