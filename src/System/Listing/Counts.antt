-- ===== src/System/Listing/Counts.antt =====
-- A relabelling changes no row of the list of batches.
use dropsort.Prelude.{
  ℕ, String, ◌≡◌, refl, ap, ◌∙◌, some, List, [], ◌∷◌, map, select, length, arith, ◌==◌, fun_ext,
}
use dropsort.Domain.{Uuid, PredictionOut}
use dropsort.Db.{Db, Batch, Prediction}
use dropsort.Db.Tables.{row, replace, IsKeyed, key-row}
use dropsort.Db.Distinct.{replace-absent}
use dropsort.Db.Order.{newest_first, page}
use dropsort.Db.Invariant.{prediction_id}
use dropsort.Session.{Env}
use dropsort.Repositories.Batches.{counted, batch_out, count_for}
use dropsort.Repositories.Predictions.{relabelled}
use dropsort.Services.PredictionService.Relabelling.{Relabelled}
use dropsort.System.Listing.{SameList}

count-replace :
    (id : Uuid) (new old : Prediction) (ps : List Prediction)
    → IsKeyed prediction_id ps
    → row prediction_id new.id ps ≡ some old
    → new.batch_id ≡ old.batch_id
    → length (select (λ (p : Prediction). p.batch_id == id) (replace prediction_id new ps))
      ≡ length (select (λ (p : Prediction). p.batch_id == id) ps)
count-replace id new old [] keyed found e = cc
count-replace id new old (p ∷ ps) keyed found e =
    ground (arith, count-replace id new old ps, replace-absent prediction_id new ps)

-- The same batches with as many predictions.
pub counts-SameList :
    (db db' : Db)
    → db'.batches ≡ db.batches
    → ((id : Uuid) → count_for db' id ≡ count_for db id)
    → SameList db db'
counts-SameList db db' batches counts offset limit =
    ap
      (λ (bs : List Batch).
        map (counted db') (page offset limit (newest_first (λ (b : Batch). b.created_at) bs)))
      batches
    ∙ ap
        (λ (count : Uuid → ℕ).
          map (λ (b : Batch). record (batch_out b) { prediction_count = count b.id })
            (page offset limit (newest_first (λ (b : Batch). b.created_at) db.batches)))
        (fun_ext counts)

pub scans-SameList :
    (db db' : Db) → db'.batches ≡ db.batches → db'.predictions ≡ db.predictions → SameList db db'
scans-SameList db db' batches predictions =
    counts-SameList db db' batches
      (λ id. ap (λ (ps : List Prediction). length (select (λ p. p.batch_id == id) ps)) predictions)

pub Relabelled-SameList :
    (env : Env) (pid : Uuid) (new_label : String) (actor_id : Uuid) (db db' : Db)
    (out : PredictionOut)
    → IsKeyed prediction_id db.predictions
    → Relabelled env pid new_label actor_id db out db'
    → SameList db db'
Relabelled-SameList env pid new_label actor_id db db' out keyed r =
    let new = relabelled env new_label actor_id r.old r.moment in
    let id : r.old.id ≡ pid = key-row prediction_id pid r.old db.predictions r.found in
    let here : row prediction_id new.id db.predictions ≡ some r.old =
      ap (λ (k : Uuid). row prediction_id k db.predictions) id ∙ r.found in
    counts-SameList db db' (ap (λ (d : Db). d.batches) r.db_lem) (λ k.
      ap (λ (d : Db). count_for d k) r.db_lem
      ∙ count-replace k new r.old db.predictions keyed here refl)
