-- ===== src/Common/Float.antt =====
-- IEEE floats as far as the program compares them. A finite float is an integer multiple of the
-- smallest subnormal (2^-1074 for `f64`, 2^-149 for `f32`), so the orders below are exact; -0.0 and
-- 0.0, which compare equal, are one value. The sign of a finite value comes with its magnitude.
use Prim.Native.Nat.{ℕ}
use mathlib.Core.Path.{◌≡◌}
use mathlib.Core.Bool.{Bool, true, false}
use native.Mathlib.Omega.{arith}
use player_vox_over_crow.Common.Tests.{ltb, leb, ◌==◌}

pub data Float : Type 0 where
  nan : Float
  infinity : Bool → Float
  above : ℕ → Float
  below : ℕ → Float

-- `above n` is n units, and `below n` is -(n + 1) units.
abbrev pub is_finite : Float → Bool
is_finite nan = false
is_finite (infinity _) = false
is_finite (above _) = true
is_finite (below _) = true

-- `x == y`; NaN equals nothing.
abbrev pub float_eq : Float → Float → Bool
float_eq (infinity true) (infinity true) = true
float_eq (infinity false) (infinity false) = true
float_eq (above m) (above n) = m == n
float_eq (below m) (below n) = m == n
float_eq _ _ = false

-- `x <= y`; false where one is NaN. `infinity true` is positive.
abbrev pub float_le : Float → Float → Bool
float_le nan _ = false
float_le (infinity true) (infinity true) = true
float_le (infinity true) _ = false
float_le (infinity false) nan = false
float_le (infinity false) _ = true
float_le (above m) (infinity true) = true
float_le (above m) (above n) = leb m n
float_le (above m) _ = false
float_le (below m) (infinity true) = true
float_le (below m) (above n) = true
float_le (below m) (below n) = leb n m
float_le (below m) _ = false

-- `x > 0.0`.
abbrev pub is_positive : Float → Bool
is_positive (infinity b) = b
is_positive (above n) = ltb 0 n
is_positive _ = false

pub float_eq_refl : (x : Float) → is_finite x ≡ true → float_eq x x ≡ true
float_eq_refl nan h = cc
float_eq_refl (infinity b) h = cc
float_eq_refl (above n) h = ground arith
float_eq_refl (below n) h = ground arith
