-- ===== src/Db/Distinct.antt =====
-- Rows of which no two agree, by a Boolean test on a column: an insert and an update keep it.
use dropsort.Prelude.{
  ℕ, ◌≡◌, refl, Bool, false, not, ◌&&◌, some, List, [], ◌∷◌, ◌++◌, arith, ◌==◌, any, any-append,
  Bool-cases, inl, inr, ap, fun_ext,
}
use dropsort.Db.Tables.{row, has, replace, IsKeyed}

module _ {R : Type 0} (key : R → ℕ) where
  pub replace-absent : (r : R) (rs : List R) → has key (key r) rs ≡ false → replace key r rs ≡ rs
  replace-absent r [] h = refl
  replace-absent r (s ∷ rs) h = ground (arith, replace-absent r rs)

  pub any-replace :
      (p : R → Bool) (r : R) (rs : List R)
      → any p rs ≡ false
      → p r ≡ false
      → any p (replace key r rs) ≡ false
  any-replace p r [] h k = refl
  any-replace p r (s ∷ rs) h k = ground (arith, any-replace p r rs)

  -- A test that fails everywhere fails at the row of a key.
  pub any_at_row :
      (p : R → Bool) (k : ℕ) (old : R) (rs : List R)
      → row key k rs ≡ some old
      → any p rs ≡ false
      → p old ≡ false
  any_at_row p k old [] h n = cc
  any_at_row p k old (s ∷ rs) h n = ground (arith, any_at_row p k old rs)

  -- No other row of the table agrees.
  pub any_of_others :
      (p : R → Bool) (k : ℕ) (rs : List R)
      → any (λ v. not (key v == k) && p v) rs ≡ false
      → has key k rs ≡ false
      → any p rs ≡ false
  any_of_others p k [] h n = refl
  any_of_others p k (s ∷ rs) h n = ground (arith, any_of_others p k rs)

module _ {R : Type 0} (same : R → R → Bool) where
  abbrev pub Distinct : List R → Type 0
  Distinct [] = Unit
  Distinct (r ∷ rs) = (any (same r) rs ≡ false) × Distinct rs

module _ {R : Type 0} (same : R → R → Bool) (symmetric : (a b : R) → same a b ≡ same b a) where
  pub append-Distinct :
      (r : R) (rs : List R)
      → Distinct same rs
      → any (same r) rs ≡ false
      → Distinct same (rs ++ r ∷ [])
  append-Distinct r [] h new = (refl, tt)
  append-Distinct r (s ∷ rs) h new =
      ground (arith, append-Distinct r rs, any-append (same s) rs (r ∷ []), symmetric s r)

  module _ (key : R → ℕ) where
    -- An update that no other row forbids.
    pub replace-Distinct :
        (r : R) (rs : List R)
        → Distinct same rs
        → IsKeyed key rs
        → any (λ v. not (key v == key r) && same r v) rs ≡ false
        → Distinct same (replace key r rs)
    replace-Distinct r [] h keyed free = tt
    replace-Distinct r (s ∷ rs) h keyed free = ground (
      arith,
      replace-Distinct r rs h.1 keyed.1,
      replace-absent key r rs,
      any-replace key (same s) r rs h.0,
      any_of_others key (same r) (key r) rs,
      symmetric s r,
    )

    -- An update that leaves the column as it is.
    pub replace-Distinct_same :
        (r old : R) (rs : List R)
        → Distinct same rs
        → IsKeyed key rs
        → row key (key r) rs ≡ some old
        → ((t : R) → same r t ≡ same old t)
        → Distinct same (replace key r rs)
    replace-Distinct_same r old [] h keyed found e = tt
    replace-Distinct_same r old (s ∷ rs) h keyed found e = elim (Bool-cases (key s == key r)) [
      | inl here ↦
          ground (arith, replace-absent key r rs, ap (λ (p : R → Bool). any p rs) (fun_ext e))
      | inr there ↦ ground (
        arith,
        replace-Distinct_same r old rs h.1 keyed.1,
        any-replace key (same s) r rs h.0,
        any_at_row key (same s) (key r) old rs,
        symmetric s r,
        symmetric s old,
        e s,
      )
    ]
