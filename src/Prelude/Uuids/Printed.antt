-- ===== src/Prelude/Uuids/Printed.antt =====
-- The canonical text of a UUID is read back.
use text.Mathlib.TextLemmas.{length-cons}
use Prim.Native.String.{count, String, ◌++◌ as append}
use mathlib.Core.List.{reverse, reverse-reverse, reverse-cons}
use mathlib.Core.Path.{subst⁻¹}
use dropsort.Prelude.Paths.{contains}
use dropsort.Prelude.{
  suc, ◌≢◌, ℕ, ◌/◌, ◌^◌, ◌<◌, ◌≡◌, refl, sym, ap, ◌∙◌, Bool, true, false, not, ◌&&◌, ◌||◌, some,
  List, [], ◌∷◌, ◌++◌, length, select, codes, hex, uuid_str, arith, ◌==◌, leb, All, All-append,
  length-append,
}
use dropsort.Prelude.Uuids.{
  read_digits, erase, strip, strip_left, undecorated, uuid_of, parse_uuid, int_16, is_brace,
  is_blank, skip_sign, skip_prefix,
}
use dropsort.Prelude.Uuids.Digits.{
  codes-append, codes-hex, digits, IsDigit, digits-IsDigit, length-digits, groups, grouped,
}

abbrev IsPlain : ℕ → Type 0
IsPlain c = (leb b'0' c && leb c b'9') || ((leb b'a' c && leb c b'f') || c == b'-') ≡ true

-- The decoration that `UUID` takes away.
All-mono : (P Q : ℕ → Type 0) → ((c : ℕ) → P c → Q c) → (cs : List ℕ) → All P cs → All Q cs
All-mono P Q f [] h = tt
All-mono P Q f (c ∷ cs) h = (f c h.0, All-mono P Q f cs h.1)

erase-none : (rest cs : List ℕ) → All (λ c. c ≢ b'u') cs → erase (b'u' ∷ rest) 0 cs ≡ cs
erase-none rest [] h = refl
erase-none rest (c ∷ cs) h =
    let other : (b'u' == c) ≡ false = ground (arith, h.0) in
    rw other (ap (λ (l : List ℕ). c ∷ l) (erase-none rest cs h.1))

strip_left-none : (p : ℕ → Bool) (cs : List ℕ) → All (λ c. p c ≡ false) cs → strip_left p cs ≡ cs
strip_left-none p [] h = refl
strip_left-none p (c ∷ cs) h = rw (h.0) refl

All-reverse : (P : ℕ → Type 0) (cs : List ℕ) → All P cs → All P (reverse cs)
All-reverse P [] h = tt
All-reverse P (c ∷ cs) h =
    rw (reverse-cons c cs) (All-append P (reverse cs) (c ∷ []) (All-reverse P cs h.1) (h.0, tt))

strip-none : (p : ℕ → Bool) (cs : List ℕ) → All (λ c. p c ≡ false) cs → strip p cs ≡ cs
strip-none p cs h =
    ap (λ (l : List ℕ). reverse (strip_left p (reverse l))) (strip_left-none p cs h)
    ∙ ap reverse (strip_left-none p (reverse cs) (All-reverse _ cs h))
    ∙ reverse-reverse cs

select-append : (p : ℕ → Bool) (xs ys : List ℕ) → select p (xs ++ ys) ≡ select p xs ++ select p ys
select-append p [] ys = refl
select-append p (x ∷ xs) ys = ground (arith, select-append p xs ys)

select-All : (p : ℕ → Bool) (cs : List ℕ) → All (λ c. p c ≡ true) cs → select p cs ≡ cs
select-All p [] h = refl
select-All p (c ∷ cs) h = ground (arith, select-All p cs)

-- The printed text: the groups with dashes between.
dashed : ℕ → List ℕ
dashed u =
    digits 8 (u / 2 ^ 96)
    ++ (b'-'
        ∷ (digits 4 (u / 2 ^ 80)
            ++ (b'-'
                ∷ (digits 4 (u / 2 ^ 64)
                    ++ (b'-' ∷ (digits 4 (u / 2 ^ 48) ++ (b'-' ∷ (digits 12 u ++ []))))))))

codes_part :
    (k n : ℕ) (s : String) (cs : List ℕ)
    → codes s ≡ cs
    → codes (append (hex k n) (append "-" s)) ≡ digits k n ++ (b'-' ∷ cs)
codes_part k n s cs e =
    codes-append (hex k n) (append "-" s)
    ∙ rw (codes-hex k n) (
        ap (λ (l : List ℕ). digits k n ++ l) (codes-append "-" s ∙ ap (λ (l : List ℕ). b'-' ∷ l) e))

codes-uuid_str : (u : ℕ) → codes (uuid_str u) ≡ dashed u
unfolding uuid_str dashed
codes-uuid_str u = codes_part 8 (u / 2 ^ 96) _ _ (
    codes_part 4 (u / 2 ^ 80) _ _ (
      codes_part 4 (u / 2 ^ 64) _ _ (
        codes_part 4 (u / 2 ^ 48) _ _
          (codes-append (hex 12 u) "" ∙ ap (λ (l : List ℕ). l ++ []) (codes-hex 12 u)))))

part-IsPlain : (k n : ℕ) (cs : List ℕ) → All IsPlain cs → All IsPlain (digits k n ++ cs)
part-IsPlain k n cs h =
    All-append IsPlain (digits k n) cs
      (All-mono IsDigit IsPlain (λ c d. ground arith) (digits k n) (digits-IsDigit k n)) h

dashed-IsPlain : (u : ℕ) → All IsPlain (dashed u)
unfolding dashed
dashed-IsPlain u = part-IsPlain 8 (u / 2 ^ 96) _ (
  refl,
  part-IsPlain 4 (u / 2 ^ 80) _ (
    refl,
    part-IsPlain 4 (u / 2 ^ 64) _
        (refl, part-IsPlain 4 (u / 2 ^ 48) _ (refl, part-IsPlain 12 u [] tt)),
  ),
)

part-IsDigit : (k n : ℕ) (cs : List ℕ) → All IsDigit cs → All IsDigit (digits k n ++ cs)
part-IsDigit k n cs h = All-append IsDigit (digits k n) cs (digits-IsDigit k n) h

groups-IsDigit : (u : ℕ) → All IsDigit (groups u)
unfolding groups
groups-IsDigit u = part-IsDigit 8 (u / 2 ^ 96) _ (
    part-IsDigit 4 (u / 2 ^ 80) _
      (part-IsDigit 4 (u / 2 ^ 64) _ (part-IsDigit 4 (u / 2 ^ 48) _ (part-IsDigit 12 u [] tt))))

abbrev no_dash : ℕ → Bool
no_dash c = not (c == b'-')

part_selected :
    (k n : ℕ) (cs ds : List ℕ)
    → select no_dash cs ≡ ds
    → select no_dash (digits k n ++ cs) ≡ digits k n ++ ds
part_selected k n cs ds e =
    select-append no_dash (digits k n) cs
    ∙ rw
        (select-All no_dash (digits k n) (
          All-mono IsDigit (λ c. no_dash c ≡ true) (λ c d. ground arith) (digits k n)
            (digits-IsDigit k n)))
        (ap (λ (l : List ℕ). digits k n ++ l) e)

dashed-selected : (u : ℕ) → select no_dash (dashed u) ≡ groups u
unfolding dashed groups
dashed-selected u = part_selected 8 (u / 2 ^ 96) _ _ (
    part_selected 4 (u / 2 ^ 80) _ _ (
      part_selected 4 (u / 2 ^ 64) _ _
        (part_selected 4 (u / 2 ^ 48) _ _ (part_selected 12 u [] [] refl))))

undecorated-dashed : (u : ℕ) → undecorated (dashed u) ≡ groups u
undecorated-dashed u =
    let plain = dashed-IsPlain u in
    let no_u = All-mono IsPlain (λ c. c ≢ b'u') (λ c d e. ground arith) (dashed u) plain in
    let no_brace =
      All-mono IsPlain (λ c. is_brace c ≡ false) (λ c d. ground arith) (dashed u) plain in
    rw
      (
        erase-none _ (dashed u) no_u,
        erase-none _ (dashed u) no_u,
        strip-none is_brace (dashed u) no_brace,
      )
      (dashed-selected u)

length-groups : (u : ℕ) → length (groups u) ≡ 32
unfolding groups
length-groups u = omega (
  arith,
  length-append (digits 8 (u / 2 ^ 96)) _,
  length-append (digits 4 (u / 2 ^ 80)) _,
  length-append (digits 4 (u / 2 ^ 64)) _,
  length-append (digits 4 (u / 2 ^ 48)) _,
  length-append (digits 12 u) [],
  length-digits 8 (u / 2 ^ 96),
  length-digits 4 (u / 2 ^ 80),
  length-digits 4 (u / 2 ^ 64),
  length-digits 4 (u / 2 ^ 48),
  length-digits 12 u,
)

length-codes : (s : String) → length (codes s) ≡ count s
length-codes String.[] = refl
length-codes (String.◌∷◌ c s) = ap suc (length-codes s) ∙ sym (length-cons c s)

length-dashed : (u : ℕ) → length (dashed u) ≡ 36
unfolding dashed
length-dashed u = omega (
  arith,
  length-append (digits 8 (u / 2 ^ 96)) _,
  length-append (digits 4 (u / 2 ^ 80)) _,
  length-append (digits 4 (u / 2 ^ 64)) _,
  length-append (digits 4 (u / 2 ^ 48)) _,
  length-append (digits 12 u) [],
  length-digits 8 (u / 2 ^ 96),
  length-digits 4 (u / 2 ^ 80),
  length-digits 4 (u / 2 ^ 64),
  length-digits 4 (u / 2 ^ 48),
  length-digits 12 u,
)

pub count-uuid_str : (u : ℕ) → count (uuid_str u) ≡ 36
count-uuid_str u = sym (length-codes (uuid_str u)) ∙ ap length (codes-uuid_str u) ∙ length-dashed u

contains-plain : (s : String) → All IsPlain (codes s) → contains 0 s ≡ false
unfolding contains
contains-plain String.[] h = refl
contains-plain (String.◌∷◌ c s) h = ground (arith, h.0, contains-plain s h.1)

-- The text of a UUID has no NUL.
pub contains-uuid_str : (u : ℕ) → contains 0 (uuid_str u) ≡ false
contains-uuid_str u =
    contains-plain (uuid_str u) (subst⁻¹ (All IsPlain) (codes-uuid_str u) (dashed-IsPlain u))

-- Digits alone have no sign and no prefix.
skip_sign-none : (cs : List ℕ) → All IsDigit cs → skip_sign cs ≡ cs
skip_sign-none [] h = refl
skip_sign-none (c ∷ cs) h = ground (arith, h.0)

skip_prefix-none : (cs : List ℕ) → All IsDigit cs → skip_prefix cs ≡ cs
skip_prefix-none [] h = refl
skip_prefix-none (c ∷ []) h = refl
skip_prefix-none (c ∷ d ∷ cs) h = ground (arith, h.1)

first_digit :
    (n : ℕ) (cs : List ℕ)
    → 0 < length cs
    → All IsDigit cs
    → read_digits false n cs ≡ read_digits true n cs
first_digit n [] l h = absurd (omega arith)
first_digit n (c ∷ cs) l h = ground (arith, h.0)

int_16-digits : (cs : List ℕ) → 0 < length cs → All IsDigit cs → int_16 cs ≡ read_digits true 0 cs
int_16-digits cs l h =
    let no_blank = All-mono IsDigit (λ c. is_blank c ≡ false) (λ c d. ground arith) cs h in
    rw (strip-none is_blank cs no_blank, skip_sign-none cs h, skip_prefix-none cs h)
      (first_digit 0 cs l h)

-- Python reads a UUID back from the text that it prints for it.
pub parse_uuid-uuid_str : (u : ℕ) → u < 2 ^ 128 → parse_uuid (uuid_str u) ≡ some u
unfolding parse_uuid
parse_uuid-uuid_str u h =
    rw (codes-uuid_str u, undecorated-dashed u, length-groups u)
      (int_16-digits (groups u) (omega (arith, length-groups u)) (groups-IsDigit u) ∙ grouped u h)

-- Different UUIDs are printed differently.
pub uuid_str-inj : (u v : ℕ) → u < 2 ^ 128 → v < 2 ^ 128 → uuid_str u ≡ uuid_str v → u ≡ v
uuid_str-inj u v hu hv e =
    let same : some u ≡ some v =
      sym (parse_uuid-uuid_str u hu) ∙ (ap parse_uuid e ∙ parse_uuid-uuid_str v hv) in
    cc

-- Their code points tell them apart, and all are as many.
pub codes-uuid_str-inj :
    (u v : ℕ) → u < 2 ^ 128 → v < 2 ^ 128 → codes (uuid_str u) ≡ codes (uuid_str v) → u ≡ v
unfolding parse_uuid
codes-uuid_str-inj u v hu hv e =
    let read : parse_uuid (uuid_str u) ≡ parse_uuid (uuid_str v) =
      ap (λ (cs : List ℕ). uuid_of (undecorated cs)) e in
    let same : some u ≡ some v =
      sym (parse_uuid-uuid_str u hu) ∙ (read ∙ parse_uuid-uuid_str v hv) in
    cc

pub length-uuid_str : (u : ℕ) → length (codes (uuid_str u)) ≡ 36
length-uuid_str u = length-codes (uuid_str u) ∙ count-uuid_str u
