-- ===== src/Common/Print.antt =====
-- `Display` of integers, and `join`.
use Prim.Native.Nat.{ℕ, zero, suc, ◌+◌, ◌/◌, ◌%◌}
use mathlib.Core.List.{List, [], ◌∷◌, ◌++◌}
use player_vox_over_crow.Common.Tests.{ltb, if◌then◌else◌}
use player_vox_over_crow.Common.Text.{Text}
use player_vox_over_crow.Common.Int.{ℤ, pos, negsuc}

-- Decimal digits, with as much fuel as the number is large.
unfoldable pub digits : ℕ → ℕ → Text → Text
digits zero n acc = acc
digits (suc fuel) n acc =
    let rest = digits fuel (n / 10) ((b'0' + n % 10) ∷ acc) in
    if ltb n 10 then (b'0' + n) ∷ acc else rest

unfoldable pub print_ℕ : ℕ → Text
unfolding digits
print_ℕ n = digits (n + 1) n []

unfoldable pub print_ℤ : ℤ → Text
unfolding print_ℕ
print_ℤ (pos n) = print_ℕ n
print_ℤ (negsuc n) = b'-' ∷ print_ℕ (n + 1)

abbrev pub join : Text → List Text → Text
join sep [] = []
join sep (s ∷ []) = s
join sep (s ∷ t ∷ rest) = s ++ (sep ++ join sep (t ∷ rest))
