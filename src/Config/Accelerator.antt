-- ===== src/Config/Accelerator.antt =====
-- crates/overcrow-config/src/model.rs, `accelerator_is_valid`: a shortcut is modifiers in a fixed
-- order, joined by `+`, and one ASCII letter or digit.
pub mod Grammar
use player_vox_over_crow.Common.{
  ℕ, zero, suc, ◌+◌, Bool, true, false, not, ◌&&◌, ◌||◌, Option, none, some, List, [], ◌∷◌, any,
  ltb, leb, if◌then◌else◌,
}
use player_vox_over_crow.Common.Text.{Text, chars, text_eq, split}

abbrev pub is_ascii_alphanumeric : ℕ → Bool
is_ascii_alphanumeric c =
    leb b'0' c && leb c b'9' || leb b'A' c && leb c b'Z' || leb b'a' c && leb c b'z'

-- The `match part` of the loop.
unfoldable pub rank : Text → Option ℕ
rank part =
    if text_eq part (chars "Meta")
    then some 0
    else if text_eq part (chars "Ctrl")
    then some 1
    else if text_eq part (chars "Alt")
    then some 2
    else if text_eq part (chars "Shift")
    then some 3
    else none

abbrev pub is_key : Text → Bool
is_key [] = false
is_key (c ∷ []) = is_ascii_alphanumeric c
is_key (c ∷ d ∷ s) = false

abbrev pub not_above : Option ℕ → ℕ → Bool
not_above none r = false
not_above (some previous) r = leb r previous

abbrev pub with_rank {ℓ} : {A : Type ℓ} → Option ℕ → A → (ℕ → A) → A
with_rank none none_case some_case = none_case
with_rank (some r) none_case some_case = some_case r

-- The loop over the parts, with the modifiers seen, their number and the last rank.
unfoldable pub accelerator_parts : List Text → ℕ → Option ℕ → List Text → Bool
accelerator_parts seen count previous [] = false
accelerator_parts seen count previous (part ∷ []) = ltb 0 count && is_key part
accelerator_parts seen count previous (part ∷ next ∷ rest) = with_rank (rank part) false λ r.
    not (not_above previous r || any (text_eq part) seen)
    && accelerator_parts (part ∷ seen) (count + 1) (some r) (next ∷ rest)

unfoldable pub accelerator_is_valid : Text → Bool
unfolding split accelerator_parts rank
accelerator_is_valid s = accelerator_parts [] 0 none (split b'+' s)
