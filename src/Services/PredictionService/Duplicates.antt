-- ===== src/Services/PredictionService/Duplicates.antt =====
-- services/prediction_service.py: `record_prediction` for a content that is already recorded.
use dropsort.Prelude.{ℕ, ◌+◌, String, ◌≡◌, refl, true, none, some, arith, any, find?}
use dropsort.Db.{Db, Batch, prediction_fits}
use dropsort.Db.Tables.{row-find?}
use dropsort.Db.Invariant.{BatchesValid, batch_id}
use dropsort.Exec.{ok}
use dropsort.Session.{Env, Session}
use dropsort.Service.{World, Clear, begin}
use dropsort.Repositories.Batches.{batch_out, has_external, upsert_external}
use dropsort.Repositories.Batches.Success.{Focused}
use dropsort.Repositories.Predictions.{NewPrediction, new_prediction, prediction_clash, has_sha}
use dropsort.Repositories.Predictions.Success.{create-clash}
use dropsort.Services.PredictionService.{record_prediction, record_tx}
use dropsort.Services.PredictionService.Recording.{advance_at}

module _ (env : Env) (external_id : String) (args : NewPrediction) (b : Batch) where
  upsert_found :
      (s : Session)
      → find? (has_external external_id) s.db.batches ≡ some b
      → upsert_external env external_id s ≡ (ok (batch_out b), s)
  unfolding upsert_external
  upsert_found s h = ground arith

  found-Focused :
      (s : Session)
      → BatchesValid s.db.batches
      → find? (has_external external_id) s.db.batches ≡ some b
      → b.external_id ≡ some external_id
      → Focused external_id b s.db s.db
  found-Focused s v h name = record {
    db_lem = refl;
    here = row-find? batch_id (has_external external_id) b s.db.batches v.keyed h;
    name = name;
    others = λ k ne. refl;
  }

  pub any_fits :
      prediction_fits (new_prediction env 0 args 0) ≡ true
      → (s : Session) → prediction_fits (new_prediction env b.id args s.draws) ≡ true
  unfolding prediction_fits
  any_fits h s = h

  record_tx_duplicate :
      (db : Db) (n : ℕ)
      → BatchesValid db.batches
      → find? (has_external external_id) db.batches ≡ some b
      → b.external_id ≡ some external_id
      → any (has_sha args.content_sha256) db.predictions ≡ true
      → prediction_fits (new_prediction env 0 args 0) ≡ true
      → (m : ℕ) × (record_tx env external_id args (record { start = db; db = db; draws = n })
          ≡ (ok none, record { start = db; db = db; draws = m }))
  record_tx_duplicate db n v h name known fit =
      let s : Session = record { start = db; db = db; draws = n } in
      let a = advance_at env external_id db b.state b s refl (found-Focused s v h name) in
      let clash : prediction_clash (new_prediction env b.id args a.after.draws) a.after.db ≡ true =
        ground (arith, a.focus.db_lem) in
      let made = create-clash env b.id args a.after (any_fits fit a.after) clash in
      (a.after.draws + 1, ground (arith, upsert_found s h, a.returned, a.start_lem, made))

module _ (env : Env) (clear : Clear) (external_id : String) (args : NewPrediction) (b : Batch)
    (w : World) where
  -- On tables whose batch keys and names are unique, for a batch that is there and a content that
  -- is already recorded, with texts that fit their columns, `record_prediction` returns None and
  -- leaves the tables and the cache.
  pub record_prediction-duplicate :
      BatchesValid w.db.batches
      → find? (has_external external_id) w.db.batches ≡ some b
      → b.external_id ≡ some external_id
      → any (has_sha args.content_sha256) w.db.predictions ≡ true
      → prediction_fits (new_prediction env 0 args 0) ≡ true
      → let (r, w') = record_prediction env clear external_id args w in
        (r ≡ ok none) × (w'.db ≡ w.db) × (w'.cache ≡ w.cache)
  unfolding record_prediction begin
  record_prediction-duplicate v h name known fit =
      let (m, e) = record_tx_duplicate env external_id args b w.db w.draws v h name known fit in
      (ground (arith, e), ground (arith, e), ground (arith, e))
