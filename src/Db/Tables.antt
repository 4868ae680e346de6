-- ===== src/Db/Tables.antt =====
-- Rows by a numeric key: the row of a key, replacing it, and keys that stand once.
use dropsort.Prelude.{
  ℕ, ◌≡◌, ◌≢◌, refl, Bool, true, false, Option, none, some, List, [], ◌∷◌, ◌++◌, map, arith, ◌==◌,
  if◌then◌else◌, find?, any, any-append, all, find?-append, length, ap, suc,
}

module _ {R : Type 0} (key : R → ℕ) where
  -- `select(R).where(R.id == k)` at a primary key
  abbrev pub row : ℕ → List R → Option R
  row k = find? (λ r. key r == k)

  abbrev pub has : ℕ → List R → Bool
  has k = any (λ r. key r == k)

  -- `UPDATE … WHERE id = …`
  abbrev pub replace : R → List R → List R
  replace r = map (λ s. if key s == key r then r else s)

  -- No key stands twice.
  abbrev pub IsKeyed : List R → Type 0
  IsKeyed [] = Unit
  IsKeyed (r ∷ rs) = (has (key r) rs ≡ false) × IsKeyed rs

  pub has_of_row : (k : ℕ) (r : R) (rs : List R) → row k rs ≡ some r → has k rs ≡ true
  has_of_row k r [] h = cc
  has_of_row k r (s ∷ rs) h = ground (arith, has_of_row k r rs)

  pub row_of_has-false : (k : ℕ) (rs : List R) → has k rs ≡ false → row k rs ≡ none
  row_of_has-false k [] h = refl
  row_of_has-false k (r ∷ rs) h = ground (arith, row_of_has-false k rs)

  pub key-row : (k : ℕ) (r : R) (rs : List R) → row k rs ≡ some r → key r ≡ k
  key-row k r [] h = cc
  key-row k r (s ∷ rs) h = ground (arith, key-row k r rs)

  pub row-replace_self :
      (r old : R) (rs : List R) → row (key r) rs ≡ some old → row (key r) (replace r rs) ≡ some r
  row-replace_self r old [] h = cc
  row-replace_self r old (s ∷ rs) h = ground (arith, row-replace_self r old rs)

  pub row-replace_ne : (k : ℕ) (r : R) (rs : List R) → key r ≢ k → row k (replace r rs) ≡ row k rs
  row-replace_ne k r [] h = refl
  row-replace_ne k r (s ∷ rs) h = ground (arith, row-replace_ne k r rs h)

  pub has-replace : (k : ℕ) (r : R) (rs : List R) → has k (replace r rs) ≡ has k rs
  has-replace k r [] = refl
  has-replace k r (s ∷ rs) = ground (arith, has-replace k r rs)

  pub replace-IsKeyed : (r : R) (rs : List R) → IsKeyed rs → IsKeyed (replace r rs)
  replace-IsKeyed r [] h = tt
  replace-IsKeyed r (s ∷ rs) h =
      ground (arith, replace-IsKeyed r rs, has-replace (key r) r rs, has-replace (key s) r rs)

  pub append-IsKeyed :
      (r : R) (rs : List R) → IsKeyed rs → has (key r) rs ≡ false → IsKeyed (rs ++ r ∷ [])
  append-IsKeyed r [] h new = (refl, tt)
  append-IsKeyed r (s ∷ rs) h new =
      ground (arith, append-IsKeyed r rs, any-append (λ (t : R). key t == key s) rs (r ∷ []))

  pub row-append_new :
      (r : R) (rs : List R) → has (key r) rs ≡ false → row (key r) (rs ++ r ∷ []) ≡ some r
  row-append_new r rs new =
      rw (find?-append (λ (t : R). key t == key r) rs (r ∷ []))
        (ground (arith, row_of_has-false (key r) rs))

  pub row-append_ne : (k : ℕ) (r : R) (rs : List R) → key r ≢ k → row k (rs ++ r ∷ []) ≡ row k rs
  row-append_ne k r rs ne = rw (find?-append (λ (t : R). key t == k) rs (r ∷ [])) (ground arith)

  pub length-replace : (r : R) (rs : List R) → length (replace r rs) ≡ length rs
  length-replace r [] = refl
  length-replace r (s ∷ rs) = ap suc (length-replace r rs)

  pub all-replace :
      (p : R → Bool) (r : R) (rs : List R)
      → all p rs ≡ true
      → p r ≡ true
      → all p (replace r rs) ≡ true
  all-replace p r [] h k = refl
  all-replace p r (s ∷ rs) h k = ground (arith, all-replace p r rs)

  -- What holds of all rows holds of the row of a key.
  pub all_at_row :
      (p : R → Bool) (k : ℕ) (old : R) (rs : List R)
      → row k rs ≡ some old
      → all p rs ≡ true
      → p old ≡ true
  all_at_row p k old [] h a = cc
  all_at_row p k old (s ∷ rs) h a = ground (arith, all_at_row p k old rs)

  pub has-append : (k : ℕ) (r : R) (rs : List R) → has k rs ≡ true → has k (rs ++ r ∷ []) ≡ true
  has-append k r rs h = ground (arith, any-append (λ (t : R). key t == k) rs (r ∷ []))

  pub row-append_old :
      (k : ℕ) (old r : R) (rs : List R) → row k rs ≡ some old → row k (rs ++ r ∷ []) ≡ some old
  row-append_old k old r rs h = rw (find?-append (λ (t : R). key t == k) rs (r ∷ [])) (ground arith)

  has_of_find? : (p : R → Bool) (r : R) (rs : List R) → find? p rs ≡ some r → has (key r) rs ≡ true
  has_of_find? p r [] h = cc
  has_of_find? p r (s ∷ rs) h = ground (arith, has_of_find? p r rs)

  -- The row found by a test is the row of its own key.
  pub row-find? :
      (p : R → Bool) (r : R) (rs : List R)
      → IsKeyed rs
      → find? p rs ≡ some r
      → row (key r) rs ≡ some r
  row-find? p r [] keyed h = cc
  row-find? p r (s ∷ rs) keyed h = ground (arith, row-find? p r rs, has_of_find? p r rs)
