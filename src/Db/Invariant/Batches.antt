-- ===== src/Db/Invariant/Batches.antt =====
-- The table `batches` under an insert and a change of state, and the rows that refer to it.
use dropsort.Prelude.{
  String, ◌≡◌, ap, ◌∙◌, true, false, Option, some, List, [], ◌∷◌, ◌++◌, all_mono, any,
}
use dropsort.Domain.{Uuid}
use dropsort.Db.{User, Batch, Prediction}
use dropsort.Db.Tables.{row, has, has-replace, has-append, replace, replace-IsKeyed, append-IsKeyed}
use dropsort.Db.Distinct.{append-Distinct, replace-Distinct_same}
use dropsort.Db.Invariant.{
  BatchesValid, PredictionsValid, batch_id, in_batch, same_external, same_text, same_external_symm,
}

pub append-BatchesValid :
    (b : Batch) (batches : List Batch)
    → BatchesValid batches
    → has batch_id b.id batches ≡ false
    → any (same_external b) batches ≡ false
    → BatchesValid (batches ++ b ∷ [])
append-BatchesValid b batches h new free = record {
  keyed = append-IsKeyed batch_id b batches h.keyed new;
  externals = append-Distinct same_external same_external_symm b batches h.externals free;
}

-- An update that leaves the external name.
pub replace-BatchesValid :
    (b old : Batch) (batches : List Batch)
    → BatchesValid batches
    → row batch_id b.id batches ≡ some old
    → b.external_id ≡ old.external_id
    → BatchesValid (replace batch_id b batches)
replace-BatchesValid b old batches h found e = record {
  keyed = replace-IsKeyed batch_id b batches h.keyed;
  externals =
      replace-Distinct_same same_external same_external_symm batch_id b old batches h.externals
        h.keyed found (λ c. ap (λ (x : Option String). same_text x c.external_id) e);
}

abbrev pub KeepsBatches : List Batch → List Batch → Type 0
KeepsBatches batches batches' =
    (k : Uuid) → has batch_id k batches ≡ true → has batch_id k batches' ≡ true

pub replace-KeepsBatches :
    (b : Batch) (batches : List Batch) → KeepsBatches batches (replace batch_id b batches)
replace-KeepsBatches b batches k h = has-replace batch_id k b batches ∙ h

pub append-KeepsBatches :
    (b : Batch) (batches : List Batch) → KeepsBatches batches (batches ++ b ∷ [])
append-KeepsBatches b batches k h = has-append batch_id k b batches h

pub PredictionsValid-KeepsBatches :
    (users : List User) (batches batches' : List Batch)
    → KeepsBatches batches batches'
    → (ps : List Prediction) → PredictionsValid users batches ps
    → PredictionsValid users batches' ps
PredictionsValid-KeepsBatches users batches batches' keep ps h = record {
  keyed = h.keyed;
  hashes = h.hashes;
  in_batches =
      all_mono (in_batch batches) (in_batch batches') (λ p. keep p.batch_id) ps h.in_batches;
  actors = h.actors;
}
