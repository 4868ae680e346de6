-- ===== src/Prelude/Uuids.antt =====
-- `UUID(text)` of Python's uuid module, on code points: what it accepts, and that it reads back what
-- `str` prints.
pub mod Digits
pub mod Printed
use Prim.Native.Nat.{ℕ, zero, suc, ◌+◌, ◌-◌, ◌*◌}
use Prim.Native.String.{String}
use mathlib.Core.Bool.{Bool, true, false, not, ◌&&◌, ◌||◌}
use mathlib.Core.Option.{Option, none, some}
use mathlib.Core.List.{List, [], ◌∷◌, ◌++◌, reverse}
use dropsort.Prelude.Tests.{leb, ◌==◌, if◌then◌else◌}
use dropsort.Prelude.Lists.{length, select}
use dropsort.Prelude.Text.{codes}

-- Does a text start with another one?
abbrev pub begins : List ℕ → List ℕ → Bool
begins [] cs = true
begins (p ∷ ps) [] = false
begins (p ∷ ps) (c ∷ cs) = (p == c) && begins ps cs

-- `s.replace(pattern, "")`: after a match, its other characters are skipped.
abbrev pub erase : List ℕ → ℕ → List ℕ → List ℕ
erase pattern skip [] = []
erase pattern (suc skip) (c ∷ cs) = erase pattern skip cs
erase pattern zero (c ∷ cs) =
    let found = erase pattern (length pattern - 1) cs in
    let kept = c ∷ erase pattern zero cs in if begins pattern (c ∷ cs) then found else kept

-- `s.lstrip(…)` and `s.strip(…)`
abbrev pub strip_left : (ℕ → Bool) → List ℕ → List ℕ
strip_left p [] = []
strip_left p (c ∷ cs) = let rest = strip_left p cs in if p c then rest else c ∷ cs

abbrev pub strip : (ℕ → Bool) → List ℕ → List ℕ
strip p cs = reverse (strip_left p (reverse (strip_left p cs)))

abbrev pub is_brace : ℕ → Bool
is_brace c = c == b'{' || c == b'}'

-- The characters that Python's `str.isspace` accepts.
abbrev pub is_blank : ℕ → Bool
is_blank c =
    (leb 9 c && leb c 13)
    || (leb 28 c && leb c 32)
    || c == 133
    || c == 160
    || c == 5760
    || (leb 8192 c && leb c 8202)
    || (leb 8232 c && leb c 8233)
    || c == 8239
    || c == 8287
    || c == 12288

-- A hexadecimal digit, in either case. Decimal digits of other scripts, which `int` also accepts, are
-- refused here.
abbrev pub digit_value : ℕ → Option ℕ
digit_value c =
    if leb b'0' c && leb c b'9'
    then some (c - b'0')
    else if leb b'a' c && leb c b'f'
    then some (c - b'a' + 10)
    else if leb b'A' c && leb c b'F'
    then some (c - b'A' + 10)
    else none

-- Digits, with single underscores between them. The flag says that a digit stands before.
abbrev pub read_digits : Bool → ℕ → List ℕ → Option ℕ
read_digits after n [] = if after then some n else none
read_digits after n (c ∷ cs) = elim (digit_value c) [
  | some d ↦ read_digits true (n * 16 + d) cs
  | none ↦ let rest = read_digits false n cs in if after && c == b'_' then rest else none
]

-- An underscore may also stand after the prefix.
abbrev pub skip_underscore : List ℕ → List ℕ
skip_underscore [] = []
skip_underscore (c ∷ cs) = if c == b'_' then cs else c ∷ cs

abbrev pub skip_prefix : List ℕ → List ℕ
skip_prefix (z ∷ x ∷ cs) =
    if z == b'0' && (x == b'x' || x == b'X') then skip_underscore cs else z ∷ x ∷ cs
skip_prefix cs = cs

abbrev pub skip_sign : List ℕ → List ℕ
skip_sign [] = []
skip_sign (c ∷ cs) = if c == b'+' then cs else c ∷ cs

-- `int(s, 16)` for a text without a minus sign
abbrev pub int_16 : List ℕ → Option ℕ
int_16 cs = read_digits false 0 (skip_prefix (skip_sign (strip is_blank cs)))

abbrev pub urn : List ℕ
urn = b'u' ∷ b'r' ∷ b'n' ∷ b':' ∷ []

abbrev pub uuid : List ℕ
uuid = b'u' ∷ b'u' ∷ b'i' ∷ b'd' ∷ b':' ∷ []

-- What is left of a text when the decoration is gone.
abbrev pub undecorated : List ℕ → List ℕ
undecorated cs = select (λ c. not (c == b'-')) (strip is_brace (erase uuid 0 (erase urn 0 cs)))

abbrev pub uuid_of : List ℕ → Option ℕ
uuid_of digits = if length digits == 32 then int_16 digits else none

-- `UUID(text)`; none stands for `ValueError`. Thirty-two digits are always below 2 ^ 128.
unfoldable pub parse_uuid : String → Option ℕ
parse_uuid s = uuid_of (undecorated (codes s))
