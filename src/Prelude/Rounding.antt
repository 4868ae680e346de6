-- ===== src/Prelude/Rounding.antt =====
-- The difference of two doubles: the exact one, rounded to 53 significant bits, ties to even.
use Prim.Native.Nat.{ℕ, zero, suc, ◌+◌, ◌-◌, ◌*◌, ◌/◌, ◌%◌, ◌^◌}
use mathlib.Core.Bool.{Bool, ◌||◌}
use dropsort.Prelude.Tests.{ltb, leb, if◌then◌else◌}
use dropsort.Prelude.Float.{Float, nan, units, below}

-- The number of bits, for a number of at most as many bits as there is fuel.
bit_length : ℕ → ℕ → ℕ
bit_length zero n = 0
bit_length (suc fuel) n = let rest = bit_length fuel (n / 2) in if ltb 0 n then suc rest else 0

-- `a / b` to the nearest whole number, and to the even one of two that are as near.
abbrev pub half_even : ℕ → ℕ → ℕ
half_even a b =
    let q = a / b in
    let r = 2 * (a % b) in if ltb r b then q else (if ltb b r then q + 1 else q + q % 2)

-- A double has at most 2098 bits in units of 2 ^ -1074, and so has a difference of two that are not
-- negative.
unfoldable pub round_double : ℕ → ℕ
unfolding bit_length
round_double n = let step = 2 ^ (bit_length 2200 n - 53) in half_even n step * step

abbrev distance : ℕ → ℕ → ℕ
distance a b = if leb b a then a - b else b - a

abbrev infinite : ℕ → Bool
infinite n = leb (2 ^ 2098) n

abbrev clamped : ℕ → Float
clamped n = if infinite n then units (2 ^ 2098) else units n

abbrev sum : ℕ → ℕ → Float
sum a b = if infinite a || infinite b then units (2 ^ 2098) else clamped (round_double (a + b))

-- `abs(a - b)`; the difference of two infinities of one sign is not a number.
unfoldable pub float_distance : Float → Float → Float
float_distance (units a) (units b) =
    if infinite a
    then (if infinite b then nan else units a)
    else (if infinite b then units b else units (round_double (distance a b)))
float_distance (below a) (below b) =
    if infinite (suc a)
    then (if infinite (suc b) then nan else units (suc a))
    else (if infinite (suc b) then units (suc b) else units (round_double (distance a b)))
float_distance (units a) (below b) = sum a (suc b)
float_distance (below a) (units b) = sum (suc a) b
float_distance _ _ = nan
