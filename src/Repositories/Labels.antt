-- ===== src/Repositories/Labels.antt =====
-- The queries of the repositories that map identifiers to texts for the audit view: one query for
-- a set of identifiers.
use mathlib.Core.Option
use dropsort.Prelude.{
  String, ◌≡◌, refl, ap, ◌∙◌, Bool, true, Option, none, some, List, [], ◌∷◌, map, select, any,
  str_eq, format, prefix, uuid_str, arith, if◌then◌else◌, ◌==◌, ==_iff, is_some,
}
use dropsort.Domain.{Uuid}
use dropsort.Db.{User, Batch, Prediction}
use dropsort.Db.Tables.{row}
use dropsort.Session.{Tx, gets}

-- A dictionary by identifiers, in the order of its rows. The identifiers are primary keys, so no key
-- is written twice.
abbrev pub Labels : Type 0
Labels = List (Uuid × String)

-- `labels.get(id)`
abbrev pub get : Uuid → Labels → Option String
get id [] = none
get id ((key, label) ∷ labels) = if key == id then some label else get id labels

abbrev pub is_in : List Uuid → Uuid → Bool
is_in ids id = any (λ i. i == id) ids

-- `select(id, …).where(id.in_(ids))`, read into a dictionary; no query for no identifier
module _ {R : Type 0} (key : R → Uuid) (label : R → String) where
  abbrev pub labels_of : List Uuid → List R → Labels
  labels_of ids rows = map (λ r. (key r, label r)) (select (λ r. is_in ids (key r)) rows)

  abbrev pub labels : List Uuid → List R → Labels
  labels [] rows = []
  labels (id ∷ ids) rows = labels_of (id ∷ ids) rows

  get-labels_of :
      (id : Uuid) (ids : List Uuid) (rows : List R)
      → is_in ids id ≡ true
      → get id (labels_of ids rows) ≡ Option.map label (row key id rows)
  get-labels_of id ids [] h = refl
  get-labels_of id ids (r ∷ rows) h =
      let there = λ (e : key r ≡ id). ap (is_in ids) e ∙ h in
      ground (arith, get-labels_of id ids rows h, there, ==_iff (key r) id)

  -- A dictionary for a set with the identifier has what the row of the identifier says.
  pub get-labels :
      (id : Uuid) (ids : List Uuid) (rows : List R)
      → is_in ids id ≡ true
      → get id (labels ids rows) ≡ Option.map label (row key id rows)
  get-labels id [] rows h = cc
  get-labels id (i ∷ ids) rows h = get-labels_of id (i ∷ ids) rows h

abbrev removed_label : Option String → String
removed_label none = "Removed account"
removed_label (some original_email) =
    if str_eq original_email ""
    then "Removed account"
    else format ("Removed account (" ∷ original_email ∷ ")" ∷ [])

-- The display string of an account.
abbrev pub user_label : User → String
user_label u = if is_some u.deleted_at then removed_label u.original_email else u.email

unfoldable pub map_user_display_labels : List Uuid → Tx Labels
map_user_display_labels user_ids =
    gets (λ db. labels (λ (u : User). u.id) user_label user_ids db.users)

unfoldable pub map_id_to_filename : List Uuid → Tx Labels
map_id_to_filename prediction_ids = gets (λ db.
    labels (λ (p : Prediction). p.id) (λ (p : Prediction). p.filename) prediction_ids
      db.predictions)

abbrev unnamed : Uuid → String
unnamed id = format ("Batch " ∷ prefix 8 (uuid_str id) ∷ "…" ∷ [])

-- The name of a batch, or the start of its identifier.
abbrev pub batch_label : Batch → String
batch_label b = elim b.external_id [
  | none ↦ unnamed b.id
  | some ext ↦ if str_eq ext "" then unnamed b.id else ext
]

unfoldable pub map_id_to_display_label : List Uuid → Tx Labels
map_id_to_display_label batch_ids =
    gets (λ db. labels (λ (b : Batch). b.id) batch_label batch_ids db.batches)
