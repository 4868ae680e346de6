-- ===== src/Services/BatchService/Paging.antt =====
-- services/batch_service.py: reading the list of batches page by page.
use mathlib.Core.List.{Perm}
use dropsort.Prelude.{
  ℕ, zero, suc, ◌+◌, ◌*◌, ◌≤◌, ◌≡◌, refl, ap, sym, ◌∙◌, List, [], ◌∷◌, ◌++◌, map, take, drop,
  length, arith,
}
use dropsort.Domain.{BatchOut}
use dropsort.Db.{Batch}
use dropsort.Db.Order.{newest_first, page}
use dropsort.Db.Order.Sorted.{
  HasDistinctTimes, IsStrictlyNewestFirst, newest_first-Perm, newest_first-IsStrictlyNewestFirst,
  length-newest_first,
}
use dropsort.Exec.{ok, pure, ◌>>=◌}
use dropsort.Service.{World, Action, query}
use dropsort.Repositories.Batches.{counted}
use dropsort.Repositories.Batches
use dropsort.Services.BatchService.{list_batches}

-- A client that reads some pages of one limit, one after the other.
unfoldable pub read_pages : ℕ → ℕ → ℕ → Action (List BatchOut)
read_pages limit zero offset = pure []
read_pages limit (suc n) offset = do
  batches ← list_batches offset limit
  rest ← read_pages limit n (offset + limit)
  pure (batches ++ rest)

module _ {A : Type 0} where
  drop-nil : (n : ℕ) → ◌≡◌ {A = List A} (drop n []) []
  drop-nil zero = refl
  drop-nil (suc n) = refl

  take-nil : (n : ℕ) → ◌≡◌ {A = List A} (take n []) []
  take-nil zero = refl
  take-nil (suc n) = refl

  drop-drop : (m n : ℕ) (xs : List A) → drop n (drop m xs) ≡ drop (m + n) xs
  drop-drop zero n xs = ap (λ (k : ℕ). drop k xs) (omega arith)
  drop-drop (suc m) n [] = drop-nil n ∙ sym (drop-nil (suc m + n))
  drop-drop (suc m) n (x ∷ xs) =
      let e : suc (m + n) ≡ suc m + n = omega arith in
      drop-drop m n xs ∙ ap (λ (k : ℕ). drop k (x ∷ xs)) e

  take-drop : (m n : ℕ) (xs : List A) → take m xs ++ take n (drop m xs) ≡ take (m + n) xs
  take-drop zero n xs = ap (λ (k : ℕ). take k xs) (omega arith)
  take-drop (suc m) n [] = take-nil n ∙ sym (take-nil (suc m + n))
  take-drop (suc m) n (x ∷ xs) =
      let e : suc (m + n) ≡ suc m + n = omega arith in
      ap (λ (ys : List A). x ∷ ys) (take-drop m n xs) ∙ ap (λ (k : ℕ). take k (x ∷ xs)) e

  take-all : (n : ℕ) (xs : List A) → length xs ≤ n → take n xs ≡ xs
  take-all zero [] h = refl
  take-all zero (x ∷ xs) h = absurd (omega arith)
  take-all (suc n) [] h = refl
  take-all (suc n) (x ∷ xs) h = ap (λ (ys : List A). x ∷ ys) (take-all n xs (omega arith))

map-append : {A B : Type 0} (f : A → B) (xs ys : List A) → map f (xs ++ ys) ≡ map f xs ++ map f ys
map-append f [] ys = refl
map-append f (x ∷ xs) ys = ap (λ zs. f x ∷ zs) (map-append f xs ys)

-- A page and the pages after it.
page_joined :
    {A B : Type 0} (f : A → B) (limit n offset : ℕ) (xs : List A)
    → map f (page offset limit xs) ++ map f (take (n * limit) (drop (offset + limit) xs))
      ≡ map f (take (suc n * limit) (drop offset xs))
page_joined f limit n offset xs =
    let e : limit + n * limit ≡ suc n * limit = grind arith in
    sym (map-append f (page offset limit xs) (take (n * limit) (drop (offset + limit) xs)))
    ∙ ap (map f) (
        ap (λ ys. page offset limit xs ++ take (n * limit) ys) (sym (drop-drop offset limit xs))
        ∙ take-drop limit (n * limit) (drop offset xs)
        ∙ ap (λ (k : ℕ). take k (drop offset xs)) e)

module _ (limit : ℕ) (w : World) where
  rows : List Batch
  rows = newest_first (λ (b : Batch). b.created_at) w.db.batches

  -- Some pages from an offset are the rows from there.
  read_pages-rows :
      (n offset : ℕ)
      → read_pages limit n offset w
        ≡ (ok (map (counted w.db) (take (n * limit) (drop offset rows))), w)
  unfolding read_pages list_batches query Batches.list_paginated rows
  read_pages-rows zero offset =
      let none_left : zero ≡ zero * limit = omega arith in
      ap (λ (k : ℕ). (ok (map (counted w.db) (take k (drop offset rows))), w)) none_left
  read_pages-rows (suc n) offset =
      rw (read_pages-rows n (offset + limit))
        (ap (λ (bs : List BatchOut). (ok bs, w)) (page_joined (counted w.db) limit n offset rows))

  -- Where no two batches have one time, so that `ORDER BY created_at DESC` leaves no choice: reading
  -- pages of one limit one after the other, enough of them for the table, gives every batch with its
  -- number of predictions as often as it stands in the table, each older than the one before.
  pub read_pages-all :
      (n : ℕ)
      → length w.db.batches ≤ n * limit
      → HasDistinctTimes (λ (b : Batch). b.created_at) w.db.batches
      → (batches : List Batch) × (read_pages limit n 0 w ≡ (ok (map (counted w.db) batches), w))
        × Perm batches w.db.batches
        × IsStrictlyNewestFirst (λ (b : Batch). b.created_at) batches
  unfolding rows
  read_pages-all n enough distinct = (
    rows,
    read_pages-rows n 0
        ∙ ap (λ (bs : List Batch). (ok (map (counted w.db) bs), w))
            (take-all (n * limit) rows
              (rw (length-newest_first (λ (b : Batch). b.created_at) w.db.batches) enough)),
    newest_first-Perm (λ (b : Batch). b.created_at) w.db.batches,
    newest_first-IsStrictlyNewestFirst (λ (b : Batch). b.created_at) w.db.batches distinct,
  )
