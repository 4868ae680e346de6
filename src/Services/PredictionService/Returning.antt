-- ===== src/Services/PredictionService/Returning.antt =====
-- services/prediction_service.py: a new content is recorded.
use dropsort.Prelude.{
  ℕ, ◌+◌, String, ◌≡◌, refl, ap, sym, true, false, Option, none, some, List, [], ◌∷◌, ◌++◌, arith,
  any, find?, Option-cases, inl, inr,
}
use dropsort.Domain.{complete, BatchOut, PredictionOut}
use dropsort.Db.{Db, Batch, fits, batch_fits, prediction_fits}
use dropsort.Db.Tables.{has, has_of_row, replace}
use dropsort.Db.Invariant.{BatchesValid, batch_id, prediction_id}
use dropsort.Exec.{Result, ok, err, ◌>>=◌}
use dropsort.Session.{Env, Session}
use dropsort.Service.{World, Clear, begin, session}
use dropsort.Service.Success.{Outcome}
use dropsort.Repositories.Batches.{
  batch_out, new_batch, batch_clash, with_state, has_external, upsert_external,
}
use dropsort.Repositories.Batches.Success.{Focused, upsert_external-eq-ok, set_state-row}
use dropsort.Repositories.Predictions
use dropsort.Repositories.Predictions.{
  NewPrediction, new_prediction, prediction_clash, prediction_out, has_sha,
}
use dropsort.Repositories.Predictions.Success.{create-made}
use dropsort.Services.PredictionService.Duplicates.{any_fits}
use dropsort.Services.PredictionService.{record_prediction, record_tx, complete_batch}
use dropsort.Services.PredictionService.Recording.{
  advance_at, Recorded, Answered, record_prediction-Outcome,
}

-- The runtime makes identifiers that no batch and no prediction has.
abbrev pub IsFresh : Env → Db → Type 0
IsFresh env db =
    (n : ℕ)
    → (has batch_id (env.uuid4 n) db.batches ≡ false)
      × (has prediction_id (env.uuid4 n) db.predictions ≡ false)

unnamed :
    (external_id : String) (batches : List Batch)
    → find? (has_external external_id) batches ≡ none
    → any (has_external external_id) batches ≡ false
unnamed external_id [] h = refl
unnamed external_id (b ∷ batches) h = ground (arith, unnamed external_id batches)

module _ (env : Env) (external_id : String) (args : NewPrediction) (db : Db)
    (fresh : IsFresh env db) (valid : BatchesValid db.batches)
    (narrow : fits 256 external_id ≡ true)
    (new : any (has_sha args.content_sha256) db.predictions ≡ false)
    (fit : prediction_fits (new_prediction env 0 args 0) ≡ true) where
  batch_free :
      (s : Session)
      → s.db ≡ db
      → find? (has_external external_id) s.db.batches ≡ none
      → batch_clash (new_batch env external_id s.draws) external_id s.db ≡ false
  batch_free s e gone = ground (
    arith,
    ap (λ (d : Db). d.batches) e,
    (fresh s.draws).0,
    unnamed external_id s.db.batches gone,
  )

  upsert_returns :
      (s : Session)
      → s.db ≡ db
      → (bo : BatchOut) × (t : Session) × (upsert_external env external_id s ≡ (ok bo, t))
  unfolding upsert_external batch_fits
  upsert_returns s e = elim (Option-cases (find? (has_external external_id) s.db.batches)) [
    | inl gone ↦
        let b = new_batch env external_id s.draws in
        (
          batch_out b,
          record s { db = record s.db { batches = s.db.batches ++ b ∷ [] }; draws = s.draws + 1 },
          rw (gone, narrow, batch_free s e gone) refl,
        )
    | inr (b, found) ↦ (batch_out b, s, rw found refl)
  ]

  prediction_free :
      (b : Batch) (s : Session)
      → Focused external_id b db s.db
      → prediction_clash (new_prediction env b.id args s.draws) s.db ≡ false
  prediction_free b s f = ground (
    arith,
    ap (λ (d : Db). d.predictions) f.db_lem,
    (fresh s.draws).1,
    new,
    has_of_row batch_id b.id b s.db.batches f.here,
  )

  -- Once the batch is there, the prediction is inserted and the batch is complete.
  insert_returns :
      (b : Batch) (bo : BatchOut) (s : Session)
      → Focused external_id b db s.db
      → b.id ≡ bo.id
      → (o : PredictionOut) × (t : Session) × ((do
        created ← Predictions.create env bo.id args
        complete_batch env bo created)
            s
          ≡ (ok (some (bo, o)), t))
  insert_returns b bo s f e =
      let p = new_prediction env b.id args s.draws in
      let made =
        create-made env b.id args s (any_fits env external_id args b fit s)
          (prediction_free b s f) in
      let t : Session = record s {
        db = record s.db { predictions = s.db.predictions ++ p ∷ [] };
        draws = s.draws + 1;
      } in
      let b' = with_state complete b (env.now t.draws) in
      (
        prediction_out p,
        record t {
          db = record t.db { batches = replace batch_id b' s.db.batches };
          draws = t.draws + 1;
        },
        rw (sym e, made, set_state-row env complete b b.id t f.here) refl,
      )

  record_tx_returns :
      (n : ℕ)
      → (bo : BatchOut) × (o : PredictionOut) × (t : Session) × (record_tx env external_id args
            (record { start = db; db = db; draws = n })
          ≡ (ok (some (bo, o)), t))
  record_tx_returns n =
      let s : Session = record { start = db; db = db; draws = n } in
      let (bo, s', u) = upsert_returns s refl in
      let (b, out, f, begun) = upsert_external-eq-ok env external_id s s' bo valid u in
      let a = advance_at env external_id db b.state b s' refl f in
      let (o, t, made) = insert_returns a.batch (batch_out b) a.after a.focus a.id_lem in
      (batch_out b, o, t, ground (arith, u, out, a.returned, made))

module _ (env : Env) (clear : Clear) (external_id : String) (args : NewPrediction) (w : World) where
  recorded :
      (r : Result (Option PredictionOut)) (w' : World) (o : PredictionOut)
      → r ≡ ok (some o)
      → Outcome w.db (Answered env external_id args w.db) (r, w')
      → Recorded env external_id args w.db o w'.db
  recorded (err e) w' o h k = cc (h)
  recorded (ok none) w' o h k = cc (h)
  recorded (ok (some p)) w' o h k = let same : o ≡ p = cc in rw same k

  record_prediction_lem :
      (bo : BatchOut) (o : PredictionOut) (t : Session)
      → record_tx env external_id args (session w) ≡ (ok (some (bo, o)), t)
      → (record_prediction env clear external_id args w).0 ≡ ok (some o)
  unfolding record_prediction begin
  record_prediction_lem bo o t e = rw e refl

  -- On tables whose batch keys and names are unique, for a content that is not recorded, texts that
  -- fit their columns and identifiers of the runtime that no row has, `record_prediction` returns a
  -- prediction, whether or not the batch is there: it is appended, and the batch of the external name
  -- is left complete, every other batch and table as it was.
  pub record_prediction-returns :
      BatchesValid w.db.batches
      → IsFresh env w.db
      → fits 256 external_id ≡ true
      → any (has_sha args.content_sha256) w.db.predictions ≡ false
      → prediction_fits (new_prediction env 0 args 0) ≡ true
      → let (r, w') = record_prediction env clear external_id args w in
        (created : PredictionOut) × (r ≡ ok (some created))
        × Recorded env external_id args w.db created w'.db
  record_prediction-returns valid fresh narrow new fit =
      let (bo, o, t, e) =
        record_tx_returns env external_id args w.db fresh valid narrow new fit w.draws in
      let (r, w') = record_prediction env clear external_id args w in
      let returned : r ≡ ok (some o) = record_prediction_lem bo o t e in
      (
        o,
        returned,
        recorded r w' o returned (record_prediction-Outcome env clear external_id args w valid),
      )
