-- ===== src/Hyprland/Events/Reading.antt =====
-- A line is the bytes up to the first newline, however the reader divides them.
use mathlib.Core.List.{append_assoc, append-nil}
use player_vox_over_crow.Common.{
  ◌+◌, ◌≤◌, ◌==◌, ◌≡◌, refl, sym, ap, ltb, Bool, true, false, not, Option, none, some, List, [],
  ◌∷◌, ◌++◌, all, map, length, length-append, inl, inr, Bool-cases, Option-cases, arith,
  if◌then◌else◌,
}
use player_vox_over_crow.Common.Options.{is_empty, map_option}
use player_vox_over_crow.Common.Result.{Result, err}
use player_vox_over_crow.Common.Text.{Text}
use player_vox_over_crow.Hyprland.Events.{
  Bytes, Fill, buffer, EventError, line_too_long, max_event_line_bytes, split_newline, finish_line,
  end_of_events, read_buffer, read_from, read_event_line,
}

abbrev pub concat : List Bytes → Bytes
concat [] = []
concat (s ∷ rest) = s ++ concat rest

-- The line that the bytes hold after those that were read, by their first newline.
abbrev line_at : Bytes → Bytes → Option (Bytes × Bytes) → Result EventError (Option Text)
line_at line bytes none =
    if ltb max_event_line_bytes (length line + length bytes)
    then err line_too_long
    else end_of_events (line ++ bytes)
line_at line bytes (some (data_bytes, after)) =
    if ltb max_event_line_bytes (length line + length data_bytes)
    then err line_too_long
    else finish_line (line ++ data_bytes)

unfoldable pub line_in : Bytes → Bytes → Result EventError (Option Text)
line_in line bytes = line_at line bytes (split_newline bytes)

map_option-twice {ℓ} :
    {A : Type ℓ} (f g : A → A) (o : Option A)
    → map_option f (map_option g o) ≡ map_option (λ a. f (g a)) o
map_option-twice f g none = refl
map_option-twice f g (some a) = refl

split_newline-append_none :
    (a b : Bytes)
    → split_newline a ≡ none
    → split_newline (a ++ b) ≡ map_option (λ (p : Bytes × Bytes). (a ++ p.0, p.1)) (split_newline b)
unfolding split_newline
split_newline-append_none [] b h = elim (Option-cases (split_newline b)) [
  | inl e ↦ rw e
  | inr (p, e) ↦ rw e
]
split_newline-append_none (c ∷ a) b h = elim (Bool-cases (c == b'\n')) [
  | inl e ↦ let k = rw (split_newline, e) at h in cc
  | inr e ↦ elim (Option-cases (split_newline a)) [
    | inl f ↦
        rw (split_newline, e, split_newline-append_none a b f)
          (map_option-twice _ _ (split_newline b))
    | inr (p, f) ↦ let k = rw (split_newline, e, f) at h in cc
  ]
]

split_newline-append_some :
    (a b d r : Bytes) → split_newline a ≡ some (d, r) → split_newline (a ++ b) ≡ some (d, r ++ b)
unfolding split_newline
split_newline-append_some [] b d r h = cc
split_newline-append_some (c ∷ a) b d r h = elim (Bool-cases (c == b'\n')) [
  | inl e ↦
      let k : some ([], a) ≡ some (d, r) = rw (split_newline, e) at h in
      let first : [] ≡ d = cc in
      let second : a ≡ r = cc in rw (split_newline, e, ← first, ← second) refl
  | inr e ↦ elim (Option-cases (split_newline a)) [
    | inl f ↦ let k = rw (split_newline, e, f) at h in cc
    | inr (p, f) ↦
        let k : some (c ∷ p.0, p.1) ≡ some (d, r) = rw (split_newline, e, f) at h in
        let first : (c ∷ p.0) ≡ d = cc in
        let second : p.1 ≡ r = cc in
        rw (split_newline, e, split_newline-append_some a b p.0 p.1 f, ← first, ← second) refl
  ]
]

-- No chunk is empty: a reader gives an empty buffer only at its end.
abbrev pub all_filled : List Bytes → Bool
all_filled chunks = all (λ chunk. not (is_empty chunk)) chunks

-- Bytes without a newline join the line.
line_in-append :
    (line chunk tail : Bytes)
    → split_newline chunk ≡ none
    → line_in line (chunk ++ tail) ≡ line_in (line ++ chunk) tail
unfolding line_in
line_in-append line chunk tail h = elim (Option-cases (split_newline tail)) [
  | inl e ↦
      rw
        (
          line_in,
          split_newline-append_none chunk tail h,
          e,
          length-append chunk tail,
          length-append line chunk,
          append_assoc line chunk tail,
        )
        (ap
          (λ n.
            if ltb max_event_line_bytes n
            then err line_too_long
            else end_of_events (line ++ (chunk ++ tail)))
          (omega arith))
  | inr (p, e) ↦
      rw
        (
          line_in,
          split_newline-append_none chunk tail h,
          e,
          length-append chunk p.0,
          length-append line chunk,
          append_assoc line chunk p.0,
        )
        (ap
          (λ n.
            if ltb max_event_line_bytes n
            then err line_too_long
            else finish_line (line ++ (chunk ++ p.0)))
          (omega arith))
]

line_in_too_long :
    (line bytes : Bytes)
    → ltb max_event_line_bytes (length line) ≡ true
    → line_in line bytes ≡ err line_too_long
unfolding line_in
line_in_too_long line bytes h = elim (Option-cases (split_newline bytes)) [
  | inl e ↦
      let k : ltb max_event_line_bytes (length line + length bytes) ≡ true = ground (arith, h) in
      rw (line_in, e, k)
  | inr (p, e) ↦
      let k : ltb max_event_line_bytes (length line + length p.0) ≡ true = ground (arith, h) in
      rw (line_in, e, k)
]

read_buffer-line_in :
    (line chunk tail : Bytes) (fills : List Fill) (o : Option (Bytes × Bytes))
    (rest : Result EventError (Option Text) × List Fill)
    → split_newline chunk ≡ o
    → (length (line ++ chunk) ≤ max_event_line_bytes → rest.0 ≡ line_in (line ++ chunk) tail)
    → (read_buffer line chunk fills o rest).0 ≡ line_in line (chunk ++ tail)
unfolding line_in
read_buffer-line_in line chunk tail fills none rest e h =
    elim (Bool-cases (ltb max_event_line_bytes (length line + length chunk))) [
      | inl long ↦
          rw (long, line_in-append line chunk tail e)
            (sym (line_in_too_long (line ++ chunk) tail (rw (length-append line chunk) long)))
      | inr short ↦
          rw (short, line_in-append line chunk tail e)
            (h (rw (length-append line chunk) (ground (arith, short))))
    ]
read_buffer-line_in line chunk tail fills (some (d, r)) rest e h =
    elim (Bool-cases (ltb max_event_line_bytes (length line + length d))) [
      | inl long ↦ rw (line_in, split_newline-append_some chunk tail d r e, long)
      | inr short ↦ rw (line_in, split_newline-append_some chunk tail d r e, short)
    ]

read_from-line_in :
    (line : Bytes) (chunks : List Bytes)
    → length line ≤ max_event_line_bytes
    → all_filled chunks ≡ true
    → (read_from line (map buffer chunks)).0 ≡ line_in line (concat chunks)
unfolding read_from line_in
read_from-line_in line [] le h =
    let short : ltb max_event_line_bytes (length line + 0) ≡ false = ground (arith, le) in
    rw (short, append-nil line) refl
read_from-line_in line ([] ∷ chunks) le h = cc
read_from-line_in line ((b ∷ s) ∷ chunks) le h =
    read_buffer-line_in line (b ∷ s) (concat chunks) _ _ _ refl
      (λ short. read_from-line_in (line ++ (b ∷ s)) chunks short (ground (arith, h)))

-- However the reader divides the bytes into buffers, the line is the bytes before the first newline,
-- without a carriage return at their end and decoded. Without a newline there is no line at the end
-- of no bytes, and an error after some; more than 65,536 bytes before the newline are an error too.
pub read_event_line-line_in :
    (chunks : List Bytes)
    → all_filled chunks ≡ true
    → (read_event_line (map buffer chunks)).0 ≡ line_in [] (concat chunks)
unfolding read_event_line
read_event_line-line_in chunks h = read_from-line_in [] chunks (omega arith) h
