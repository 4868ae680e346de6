-- ===== src/Db/Order/Sorted.antt =====
-- `ORDER BY created_at DESC` gives the rows of the table, each as often as it stands there, the newest
-- first.
use mathlib.Core.List.{Perm}
use mathlib.Core.List.Perm
use dropsort.Prelude.{
  length, suc, ap, ◌∙◌, ⊤, ℕ, ◌<◌, ◌≡◌, ◌≢◌, refl, List, [], ◌∷◌, leb, All, arith, Bool-cases, inl,
  inr,
}
use dropsort.Db.Order.{newest_first, insert_newest}

module _ {R : Type 0} (created_at : R → ℕ) where
  -- Every row is older than those before it.
  abbrev pub IsStrictlyNewestFirst : List R → Type 0
  IsStrictlyNewestFirst [] = ⊤
  IsStrictlyNewestFirst (r ∷ rs) =
      All (λ s. created_at s < created_at r) rs × IsStrictlyNewestFirst rs

  insert_newest-Perm : (r : R) (rs : List R) → Perm (insert_newest created_at r rs) (r ∷ rs)
  unfolding insert_newest
  insert_newest-Perm r [] = Perm.refl (r ∷ [])
  insert_newest-Perm r (s ∷ rs) = elim (Bool-cases (leb (created_at s) (created_at r))) [
    | inl t ↦ rw t (Perm.refl (r ∷ s ∷ rs))
    | inr f ↦ rw f (Perm.trans (Perm.cons _ (insert_newest-Perm r rs)) (Perm.swap r s rs))
  ]

  pub newest_first-Perm : (rs : List R) → Perm (newest_first created_at rs) rs
  unfolding newest_first
  newest_first-Perm [] = Perm.refl []
  newest_first-Perm (r ∷ rs) =
      Perm.trans (insert_newest-Perm r (newest_first created_at rs))
        (Perm.cons _ (newest_first-Perm rs))

  -- No two rows have one time.
  abbrev pub HasDistinctTimes : List R → Type 0
  HasDistinctTimes [] = ⊤
  HasDistinctTimes (r ∷ rs) = All (λ s. created_at s ≢ created_at r) rs × HasDistinctTimes rs

  insert_newest-All :
      (P : R → Type 0) (r : R) (rs : List R)
      → P r
      → All P rs
      → All P (insert_newest created_at r rs)
  unfolding insert_newest
  insert_newest-All P r [] p h = (p, tt)
  insert_newest-All P r (s ∷ rs) p h = elim (Bool-cases (leb (created_at s) (created_at r))) [
    | inl t ↦ rw t (p, h)
    | inr f ↦ rw f (h.0, insert_newest-All P r rs p h.1)
  ]

  newest_first-All : (P : R → Type 0) (rs : List R) → All P rs → All P (newest_first created_at rs)
  unfolding newest_first
  newest_first-All P [] h = tt
  newest_first-All P (r ∷ rs) h =
      insert_newest-All P r (newest_first created_at rs) h.0 (newest_first-All P rs h.1)

  All-older :
      (low high : ℕ) (rs : List R)
      → low < high
      → All (λ s. created_at s < low) rs
      → All (λ s. created_at s < high) rs
  All-older low high [] le h = tt
  All-older low high (r ∷ rs) le h = (omega (arith, h.0), All-older low high rs le h.1)

  insert_newest-IsStrictlyNewestFirst :
      (r : R) (rs : List R)
      → All (λ s. created_at s ≢ created_at r) rs
      → IsStrictlyNewestFirst rs
      → IsStrictlyNewestFirst (insert_newest created_at r rs)
  unfolding insert_newest
  insert_newest-IsStrictlyNewestFirst r [] other h = (tt, tt)
  insert_newest-IsStrictlyNewestFirst r (s ∷ rs) other h =
      elim (Bool-cases (leb (created_at s) (created_at r))) [
        | inl t ↦
            let older : created_at s < created_at r = ground (arith, other.0) in
            rw t ((older, All-older (created_at s) (created_at r) rs older h.0), h)
        | inr f ↦
            let newer : created_at r < created_at s = ground arith in
            rw f (
              insert_newest-All (λ v. created_at v < created_at s) r rs newer h.0,
              insert_newest-IsStrictlyNewestFirst r rs other.1 h.1,
            )
      ]

  pub newest_first-IsStrictlyNewestFirst :
      (rs : List R) → HasDistinctTimes rs → IsStrictlyNewestFirst (newest_first created_at rs)
  unfolding newest_first
  newest_first-IsStrictlyNewestFirst [] h = tt
  newest_first-IsStrictlyNewestFirst (r ∷ rs) h =
      insert_newest-IsStrictlyNewestFirst r (newest_first created_at rs)
        (newest_first-All (λ s. created_at s ≢ created_at r) rs h.0)
        (newest_first-IsStrictlyNewestFirst rs h.1)

  length-insert_newest :
      (r : R) (rs : List R) → length (insert_newest created_at r rs) ≡ suc (length rs)
  unfolding insert_newest
  length-insert_newest r [] = refl
  length-insert_newest r (s ∷ rs) = ground (arith, length-insert_newest r rs)

  pub length-newest_first : (rs : List R) → length (newest_first created_at rs) ≡ length rs
  unfolding newest_first
  length-newest_first [] = refl
  length-newest_first (r ∷ rs) =
      length-insert_newest r (newest_first created_at rs) ∙ ap suc (length-newest_first rs)
