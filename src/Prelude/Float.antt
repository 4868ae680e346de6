-- ===== src/Prelude/Float.antt =====
-- Python's `float`. A finite double is a whole multiple of 2 ^ -1074, so its value is kept exactly
-- as that multiple; infinity is the multiple 2 ^ 2098, which is above every finite one.
use Prim.Native.Nat.{ℕ, ◌*◌, ◌^◌, ◌-◌}
use mathlib.Core.Bool.{Bool, true, false}
use dropsort.Prelude.Tests.{ltb, leb}

-- `units n` is n * 2 ^ -1074, and `below n` is -(n + 1) * 2 ^ -1074.
pub data Float : Type 0 where
  nan : Float
  units : ℕ → Float
  below : ℕ → Float

-- m * 2 ^ -k, for k up to 1074: the value of a double with the mantissa m.
abbrev pub scaled : ℕ → ℕ → Float
scaled m k = units (m * 2 ^ (1074 - k))

-- `a < b`, false as soon as one side is not a number.
abbrev pub float_lt : Float → Float → Bool
float_lt (units a) (units b) = ltb a b
float_lt (below a) (units b) = true
float_lt (below a) (below b) = ltb b a
float_lt _ _ = false

-- `a >= b`
abbrev pub float_ge : Float → Float → Bool
float_ge (units a) (units b) = leb b a
float_ge (units a) (below b) = true
float_ge (below a) (below b) = leb a b
float_ge _ _ = false
