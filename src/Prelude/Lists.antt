-- ===== src/Prelude/Lists.antt =====
-- Lists by native numbers, Boolean searches, and a predicate on all items.
use Prim.Native.Nat.{ℕ, zero, suc, ◌+◌, ◌≤◌}
use mathlib.Core.Path.{◌≡◌, refl, sym, ap, ◌∙◌}
use mathlib.Core.Logic.{inl, inr}
use mathlib.Core.Bool.{Bool, true, false, ◌&&◌, ◌||◌}
use mathlib.Core.List.{List, [], ◌∷◌, ◌++◌, Memᴰ}
use mathlib.Core.Option.{Option, none, some}
use native.Mathlib.Omega.{arith}
use dropsort.Prelude.Tests.{if◌then◌else◌, Bool-cases}

module _ {ℓ} {A : Type ℓ} where
  abbrev pub length : List A → ℕ
  length [] = 0
  length (x ∷ xs) = suc (length xs)

  abbrev pub take : ℕ → List A → List A
  take zero xs = []
  take (suc n) [] = []
  take (suc n) (x ∷ xs) = x ∷ take n xs

  abbrev pub drop : ℕ → List A → List A
  drop zero xs = xs
  drop (suc n) [] = []
  drop (suc n) (x ∷ xs) = drop n xs

  abbrev pub get_elem? : List A → ℕ → Option A
  get_elem? [] i = none
  get_elem? (x ∷ xs) zero = some x
  get_elem? (x ∷ xs) (suc i) = get_elem? xs i

  abbrev pub any : (A → Bool) → List A → Bool
  any p [] = false
  any p (x ∷ xs) = p x || any p xs

  abbrev pub all : (A → Bool) → List A → Bool
  all p [] = true
  all p (x ∷ xs) = p x && all p xs

  -- The first item that passes the test.
  abbrev pub find? : (A → Bool) → List A → Option A
  find? p [] = none
  find? p (x ∷ xs) = if p x then some x else find? p xs

  abbrev pub select : (A → Bool) → List A → List A
  select p [] = []
  select p (x ∷ xs) = let rest = select p xs in if p x then x ∷ rest else rest

module _ {ℓ} {A : Type ℓ} where
  pub length-append : (xs ys : List A) → length (xs ++ ys) ≡ length xs + length ys
  length-append [] ys = omega arith
  length-append (x ∷ xs) ys = omega (arith, length-append xs ys)

  pub length-take-le : (n : ℕ) (xs : List A) → length (take n xs) ≤ n
  length-take-le (suc n) (x ∷ xs) = omega (arith, length-take-le n xs)
  length-take-le _ _ = omega arith

  pub find?-append :
      (p : A → Bool) (xs ys : List A)
      → find? p (xs ++ ys) ≡ (elim (find? p xs) [ none ↦ find? p ys | some x ↦ some x ])
  find?-append p [] ys = refl
  find?-append p (x ∷ xs) ys = ground (arith, find?-append p xs ys)

  pub any-append : (p : A → Bool) (xs ys : List A) → any p (xs ++ ys) ≡ (any p xs || any p ys)
  any-append p [] ys = refl
  any-append p (x ∷ xs) ys = ground (arith, any-append p xs ys)

module _ {ℓ κ} {A : Type ℓ} (P : A → Type κ) where
  abbrev pub All : List A → Type κ
  All [] = Unit
  All (x ∷ xs) = P x × All xs

  pub All-append : (xs ys : List A) → All xs → All ys → All (xs ++ ys)
  All-append [] ys hx hy = hy
  All-append (x ∷ xs) ys hx hy = (hx.0, All-append xs ys hx.1 hy)

module _ {ℓ} {A : Type ℓ} where
  pub all-append_one :
      (p : A → Bool) (xs : List A) (x : A)
      → all p xs ≡ true
      → p x ≡ true
      → all p (xs ++ x ∷ []) ≡ true
  all-append_one p [] x h k = ground (arith)
  all-append_one p (y ∷ xs) x h k = ground (arith, all-append_one p xs x)

  pub all_mono :
      (p q : A → Bool)
      → ((a : A) → p a ≡ true → q a ≡ true)
      → (xs : List A) → all p xs ≡ true
      → all q xs ≡ true
  all_mono p q f [] h = refl
  all_mono p q f (x ∷ xs) h = ground (arith, f x, all_mono p q f xs)

-- What a selection holds.
module _ {A : Type 0} (p : A → Bool) where
  pub Mem-select : (a : A) (xs : List A) → Memᴰ a xs → p a ≡ true → Memᴰ a (select p xs)
  Mem-select a [] m h = elim m [ ]
  Mem-select a (x ∷ xs) (Memᴰ.head e) h = rw (ap p (sym e) ∙ h) (Memᴰ.head e)
  Mem-select a (x ∷ xs) (Memᴰ.tail m) h = elim (Bool-cases (p x)) [
    | inl t ↦ rw t (Memᴰ.tail (Mem-select a xs m h))
    | inr f ↦ rw f (Mem-select a xs m h)
  ]

  head_or_tail :
      (a x : A) (xs : List A)
      → (Memᴰ a (select p xs) → Memᴰ a xs)
      → Memᴰ a (x ∷ select p xs)
      → Memᴰ a (x ∷ xs)
  head_or_tail a x xs f (Memᴰ.head e) = Memᴰ.head e
  head_or_tail a x xs f (Memᴰ.tail m) = Memᴰ.tail (f m)

  pub select-Mem : (a : A) (xs : List A) → Memᴰ a (select p xs) → Memᴰ a xs
  select-Mem a [] m = m
  select-Mem a (x ∷ xs) m = elim (Bool-cases (p x)) [
    | inl t ↦ head_or_tail a x xs (select-Mem a xs) (rw t at m)
    | inr f ↦ Memᴰ.tail (select-Mem a xs (rw f at m))
  ]

  -- The item that a search finds is there and passes.
  pub find?-Mem : (a : A) (xs : List A) → find? p xs ≡ some a → Memᴰ a xs × (p a ≡ true)
  find?-Mem a [] e = cc
  find?-Mem a (x ∷ xs) e = elim (Bool-cases (p x)) [
    | inl t ↦ let same : x ≡ a = ground arith in (Memᴰ.head (sym same), rw (sym same) t)
    | inr f ↦
        let rest : find? p xs ≡ some a = ground arith in
        let (m, t) = find?-Mem a xs rest in (Memᴰ.tail m, t)
  ]
