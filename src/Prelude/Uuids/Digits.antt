-- ===== src/Prelude/Uuids/Digits.antt =====
-- Hexadecimal digits: the code points of a printed number, and the number that `int` reads from them.
use Prim.Native.Char.{code}
use Prim.Native.String.{String, ◌++◌ as append}
use text.Mathlib.TextLemmas.{nil-append, cons-append}
use native.Mathlib.Nat.{pow-suc, mul-add-mod_self_left, mod-eq_of_lt, mod-lt, div-add-mod}
use dropsort.Prelude.{
  ℕ, zero, suc, ◌+◌, ◌*◌, ◌/◌, ◌%◌, ◌^◌, ◌<◌, ◌≤◌, ◌≡◌, refl, sym, ap, ◌∙◌, Bool, true, false, ◌&&◌,
  ◌||◌, some, List, [], ◌∷◌, ◌++◌, length, codes, hex, hex_digit, arith, if◌then◌else◌, ◌==◌, leb,
  All, append_assoc, All-append, length-append,
}
use dropsort.Prelude.Uuids.{digit_value, read_digits}

pub codes-append : (s t : String) → codes (append s t) ≡ codes s ++ codes t
codes-append String.[] t = ap codes (nil-append t)
codes-append (String.◌∷◌ c s) t =
    ap codes (cons-append c s t) ∙ ap (λ (cs : List ℕ). code c ∷ cs) (codes-append s t)

-- The code point of a digit.
abbrev digit_code : ℕ → ℕ
digit_code d = if leb d 9 then d + 48 else d + 87

-- A test of all numbers up to one.
tested_to : (ℕ → Bool) → ℕ → Bool
tested_to p zero = p zero
tested_to p (suc e) = tested_to p e && p (suc e)

tested_to-le : (p : ℕ → Bool) (e d : ℕ) → tested_to p e ≡ true → d ≤ e → p d ≡ true
unfolding tested_to
tested_to-le p zero d t le = let first : d ≡ zero = omega arith in rw first t
tested_to-le p (suc e) d t le = ground (arith, tested_to-le p e d)

abbrev is_single : ℕ → List ℕ → Bool
is_single c (d ∷ []) = c == d
is_single c _ = false

single : (c : ℕ) (cs : List ℕ) → is_single c cs ≡ true → cs ≡ c ∷ []
single c [] h = cc
single c (d ∷ []) h = ground arith
single c (d ∷ e ∷ cs) h = cc

digit_table : tested_to (λ d. is_single (digit_code d) (codes (hex_digit d))) 15 ≡ true
unfolding tested_to hex_digit
digit_table = refl

codes-hex_digit : (d : ℕ) → d < 16 → codes (hex_digit d) ≡ digit_code d ∷ []
codes-hex_digit d h = single _ _ (tested_to-le _ 15 d digit_table (omega arith))

mod_step : (n m : ℕ) → 0 < m → (n / 16 % m) * 16 + n % 16 ≡ n % (m * 16)
mod_step n m h =
    let q = n / 16 in
    let r = n % 16 in
    let small : q % m * 16 + r < m * 16 = omega (arith, mod-lt q h) in
    let whole : n ≡ m * 16 * (q / m) + (q % m * 16 + r) = grind (arith, div-add-mod q m) in
    sym (
      ap (λ (x : ℕ). x % (m * 16)) whole
      ∙ mul-add-mod_self_left (m * 16) (q / m) (q % m * 16 + r)
      ∙ mod-eq_of_lt small)

-- The code points of the last `k` digits.
pub digits : ℕ → ℕ → List ℕ
digits zero n = []
digits (suc k) n = digits k (n / 16) ++ digit_code (n % 16) ∷ []

pub codes-hex : (k n : ℕ) → codes (hex k n) ≡ digits k n
unfolding hex digits
codes-hex zero n = refl
codes-hex (suc k) n =
    codes-append (hex k (n / 16)) (hex_digit (n % 16))
    ∙ ap (λ (cs : List ℕ). codes (hex k (n / 16)) ++ cs) (codes-hex_digit (n % 16) (omega arith))
    ∙ ap (λ (cs : List ℕ). cs ++ digit_code (n % 16) ∷ []) (codes-hex k (n / 16))

-- What stands in the printed text: digits and dashes.
abbrev pub IsDigit : ℕ → Type 0
IsDigit c = (leb b'0' c && leb c b'9') || (leb b'a' c && leb c b'f') ≡ true

pub digits-IsDigit : (k n : ℕ) → All IsDigit (digits k n)
unfolding digits
digits-IsDigit zero n = tt
digits-IsDigit (suc k) n =
    All-append IsDigit (digits k (n / 16)) _ (digits-IsDigit k (n / 16)) (ground arith, tt)

pub length-digits : (k n : ℕ) → length (digits k n) ≡ k
unfolding digits
length-digits zero n = refl
length-digits (suc k) n =
    omega (
      arith,
      length-append (digits k (n / 16)) (digit_code (n % 16) ∷ []),
      length-digits k (n / 16),
    )

digit_value-digit_code : (d : ℕ) → d < 16 → digit_value (digit_code d) ≡ some d
digit_value-digit_code d h = ground arith

read_digit :
    (n acc : ℕ) (rest : List ℕ)
    → read_digits true acc (digit_code (n % 16) ∷ rest) ≡ read_digits true (acc * 16 + n % 16) rest
read_digit n acc rest = rw (digit_value-digit_code (n % 16) (omega arith), read_digits) refl

pow_pos : (k : ℕ) → 0 < 16 ^ k
pow_pos zero = omega arith
pow_pos (suc k) = omega (arith, pow_pos k, pow-suc 16 k)

place : (n acc m : ℕ) → 0 < m → (acc * m + n / 16 % m) * 16 + n % 16 ≡ acc * (m * 16) + n % (m * 16)
place n acc m h = grind (arith, mod_step n m h)

read_digits-digits :
    (k n acc : ℕ) (rest : List ℕ)
    → read_digits true acc (digits k n ++ rest) ≡ read_digits true (acc * 16 ^ k + n % 16 ^ k) rest
unfolding digits
read_digits-digits zero n acc rest = ap (λ (x : ℕ). read_digits true x rest) (omega arith)
read_digits-digits (suc k) n acc rest =
    ap (read_digits true acc) (append_assoc (digits k (n / 16)) (digit_code (n % 16) ∷ []) rest)
    ∙ read_digits-digits k (n / 16) acc (digit_code (n % 16) ∷ rest)
    ∙ read_digit n (acc * 16 ^ k + n / 16 % 16 ^ k) rest
    ∙ ap (λ (x : ℕ). read_digits true x rest) (rw (pow-suc 16 k) (place n acc (16 ^ k) (pow_pos k)))

-- The five groups of digits of a UUID, and the number that they make.
unfoldable pub groups : ℕ → List ℕ
groups u =
    digits 8 (u / 2 ^ 96)
    ++ (digits 4 (u / 2 ^ 80)
        ++ (digits 4 (u / 2 ^ 64) ++ (digits 4 (u / 2 ^ 48) ++ (digits 12 u ++ []))))

pub grouped : (u : ℕ) → u < 2 ^ 128 → read_digits true 0 (groups u) ≡ some u
unfolding groups
grouped u h =
    read_digits-digits 8 (u / 2 ^ 96) 0 _
    ∙ read_digits-digits 4 (u / 2 ^ 80) _ _
    ∙ read_digits-digits 4 (u / 2 ^ 64) _ _
    ∙ read_digits-digits 4 (u / 2 ^ 48) _ _
    ∙ read_digits-digits 12 u _ []
    ∙ ap some (omega arith)
