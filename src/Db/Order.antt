-- ===== src/Db/Order.antt =====
-- `ORDER BY created_at`, `OFFSET` and `LIMIT`. Rows of one time keep the order of the table, which
-- is one of the orders that SQL allows; PostgreSQL may choose another one, in each query anew.
pub mod Sorted
use dropsort.Prelude.{ℕ, List, [], ◌∷◌, leb, if◌then◌else◌, take, drop}

module _ {R : Type 0} (created_at : R → ℕ) where
  insert_newest : R → List R → List R
  insert_newest r [] = r ∷ []
  insert_newest r (s ∷ rs) =
      if leb (created_at s) (created_at r) then r ∷ s ∷ rs else s ∷ insert_newest r rs

  -- `ORDER BY created_at DESC`
  unfoldable pub newest_first : List R → List R
  unfolding insert_newest
  newest_first [] = []
  newest_first (r ∷ rs) = insert_newest r (newest_first rs)

  insert_oldest : R → List R → List R
  insert_oldest r [] = r ∷ []
  insert_oldest r (s ∷ rs) =
      if leb (created_at r) (created_at s) then r ∷ s ∷ rs else s ∷ insert_oldest r rs

  -- `ORDER BY created_at ASC`
  unfoldable pub oldest_first : List R → List R
  unfolding insert_oldest
  oldest_first [] = []
  oldest_first (r ∷ rs) = insert_oldest r (oldest_first rs)

-- `OFFSET offset LIMIT limit`
abbrev pub page : {R : Type 0} → ℕ → ℕ → List R → List R
page offset limit rs = take limit (drop offset rs)
