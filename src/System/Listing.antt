-- ===== src/System/Listing.antt =====
-- The cached list of batches in the program as a whole.
pub mod Refines
pub mod Kept
pub mod Uploads
pub mod Counts
use text.Mathlib.Text.{starts_with}
use dropsort.Prelude.{
  ℕ, String, ◌≡◌, ◌⊎◌, inl, inr, refl, ap, sym, ◌∙◌, Bool, true, false, Option, none, some, List,
  [], ◌∷◌, map, format, if◌then◌else◌,
}
use dropsort.Domain.{BatchOut}
use dropsort.Db.{Db, Batch}
use dropsort.Db.Order.{newest_first, page}
use dropsort.Exec.{Result, ok, err, continue}
use dropsort.Service.{World, Action, Cache, Clear, Response, batches_list}
use dropsort.Service.Thins.{IsClear, Thinner, Spared}
use dropsort.Repositories.Batches.{counted}
use dropsort.Api.Listings.{ListKey, batches_key}
use dropsort.System.Recent.{IsListKey}

-- What the list shows.
abbrev pub batch_rows : ℕ → ℕ → Db → List BatchOut
batch_rows offset limit db =
    map (counted db) (page offset limit (newest_first (λ (b : Batch). b.created_at) db.batches))

abbrev pub SameList : Db → Db → Type 0
SameList db db' = (offset limit : ℕ) → batch_rows offset limit db' ≡ batch_rows offset limit db

module _ (list_key : ListKey) where
  -- Every stored list is what the tables say now.
  abbrev pub IsCurrent : World → Type 0
  IsCurrent w =
      (offset limit : ℕ) (r : Response)
      → w.cache (batches_key list_key offset limit) ≡ some r
      → r ≡ batches_list offset limit (batch_rows offset limit w.db)

  -- No list is stored.
  abbrev pub Dry : Cache → Type 0
  Dry cache = (offset limit : ℕ) → cache (batches_key list_key offset limit) ≡ none

  -- The lists are gone, or those that are left still show the tables.
  abbrev pub Effect : World → World → Type 0
  Effect w w' =
      Dry w'.cache
      ⊎ (SameList w.db w'.db
          × ((offset limit : ℕ) → Thinner (batches_key list_key offset limit) w w'))

  pub Effect-IsCurrent : (w w' : World) → Effect w w' → IsCurrent w → IsCurrent w'
  Effect-IsCurrent w w' (inl gone) h offset limit r e = cc (gone offset limit)
  Effect-IsCurrent w w' (inr (same, thin)) h offset limit r e = elim (thin offset limit) [
    | inl gone ↦ cc
    | inr kept ↦
        h offset limit r (sym kept ∙ e) ∙ ap (batches_list offset limit) (sym (same offset limit))
  ]

  pub same-Effect : (w w' : World) → w'.cache ≡ w.cache → w'.db ≡ w.db → Effect w w'
  same-Effect w w' cache db = inr (
    (λ o l. ap (batch_rows o l) db),
    (λ o l. inr (ap (λ (c : Cache). c (batches_key list_key o l)) cache)),
  )

  -- A transaction, and what follows its commit.
  pub commit-Effect {ℓ κ} :
      {A : Type ℓ} {B : Type κ} (r : Result A) (w v : World) (f : A → Action B)
      → Spared r w v
      → ((a : A) → Effect w (f a v).1)
      → Effect w (continue r f v).1
  commit-Effect (ok a) w v f s h = h a
  commit-Effect (err e) w v f (cache, db) h = same-Effect w v cache db

  module _ (k : IsListKey list_key) (clear : Clear) (h : IsClear clear) where
    pub clear-Dry : (c : Cache) → Dry (clear "batches-list" c)
    clear-Dry c offset limit =
        h "batches-list" c (batches_key list_key offset limit)
        ∙ rw (k.starts "batches-list" (offset ∷ limit ∷ [])) refl

    if_none : (b : Bool) (o : Option Response) → o ≡ none → (if b then none else o) ≡ none
    if_none true o e = refl
    if_none false o e = e

    -- Clearing more stores nothing.
    pub more-Dry : (namespace : String) (c : Cache) → Dry c → Dry (clear namespace c)
    more-Dry namespace c dry offset limit =
        let key = batches_key list_key offset limit in
        h namespace c key
        ∙ if_none (starts_with key (format (namespace ∷ ":" ∷ []))) (c key) (dry offset limit)
