-- ===== src/Prelude/Text.antt =====
-- Text: native strings, their code points where the program walks them, f-strings as the
-- concatenation of their parts, and the canonical text of a UUID.
use Prim.Native.Nat.{ℕ, zero, suc, ◌+◌, ◌/◌, ◌%◌, ◌^◌}
use Prim.Native.Char.{code}
use Prim.Native.String.{String, slice, ◌++◌ as append}
use mathlib.Core.List.{List, [], ◌∷◌}

abbrev pub codes : String → List ℕ
codes String.[] = []
codes (String.◌∷◌ c s) = code c ∷ codes s

-- An f-string: the parts in order.
abbrev pub format : List String → String
format [] = ""
format (s ∷ parts) = append s (format parts)

unfoldable pub hex_digit : ℕ → String
hex_digit d = slice "0123456789abcdef" d (d + 1)

-- The last `k` hexadecimal digits of a number.
unfoldable pub hex : ℕ → ℕ → String
unfolding hex_digit
hex zero n = ""
hex (suc k) n = append (hex k (n / 16)) (hex_digit (n % 16))

-- `str(u)` of a `uuid.UUID` with the 128-bit value `u`.
unfoldable pub uuid_str : ℕ → String
unfolding hex
uuid_str u = format (
    hex 8 (u / 2 ^ 96)
    ∷ "-"
    ∷ hex 4 (u / 2 ^ 80)
    ∷ "-"
    ∷ hex 4 (u / 2 ^ 64)
    ∷ "-"
    ∷ hex 4 (u / 2 ^ 48)
    ∷ "-"
    ∷ hex 12 u
    ∷ [])

-- `s[:n]`, in characters.
unfoldable pub prefix : ℕ → String → String
prefix zero s = ""
prefix (suc n) String.[] = ""
prefix (suc n) (String.◌∷◌ c s) = String.◌∷◌ c (prefix n s)
