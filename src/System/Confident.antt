-- ===== src/System/Confident.antt =====
-- The row of a prediction with a sure answer under every event of the program.
use dropsort.Prelude.{
  String, ◌≡◌, ◌≢◌, ap, ◌∙◌, sym, find?, true, Option, none, some, [], ◌∷◌, ◌++◌, arith,
}
use dropsort.Prelude.Float.{float_ge}
use dropsort.Domain.{Uuid, PredictionOut}
use dropsort.Db.{Db, Prediction, batch_fits}
use dropsort.Db.Tables.{row, row-append_old, row-replace_ne, key-row}
use dropsort.Db.Invariant.{IsValid, prediction_id}
use dropsort.Session.{draw}
use dropsort.Session.Keeps.{Keeps, Keeps-bind, Keeps-draw, Keeps-gets, Keeps-pure, Keeps-write}
use dropsort.Service.{World}
use dropsort.Service.Success.{Outcome-keeps}
use dropsort.Repositories.Batches.{
  upsert_external, get_or_create, insert_batch, new_batch, batch_out, has_external, batch_clash,
}
use dropsort.Repositories.Predictions.{NewPrediction, new_prediction, relabelled}
use dropsort.Services.PredictionService.{
  record_prediction, mark_batch_failed, relabel, relabel_confidence_threshold,
}
use dropsort.Services.PredictionService.Recording.{Answered, record_prediction-Outcome}
use dropsort.Services.PredictionService.Relabelling.{Relabelled, relabel-Outcome}
use dropsort.Services.PredictionService.Failing.{Failed, mark_batch_failed-Outcome}
use dropsort.Services.BatchUploadService.Keeping.{enqueue_browser_tiff-KeepsDb}
use dropsort.Workers.SftpIngest.Keeping.{ingest_once-KeepsDb}
use dropsort.System.{
  Event, administered, relabelling, upload, recording, failure, round, Setting, perform, Reachable,
  Reachable-keeps,
}
use dropsort.System.Untouched.{execute-SameScans}
use dropsort.System.Validity.{perform-IsValid}

module _ (c : Setting) (p : Prediction)
    (confident : float_ge p.top1_confidence relabel_confidence_threshold ≡ true) where
  abbrev Stands : Db → Type 0
  Stands db = row prediction_id p.id db.predictions ≡ some p

  relabel-Stands :
      (pid : Uuid) (new_label : String) (actor_id : Uuid) (db db' : Db) (out : PredictionOut)
      → Relabelled c.env pid new_label actor_id db out db'
      → Stands db
      → Stands db'
  relabel-Stands pid new_label actor_id db db' out k h =
      let new = relabelled c.env new_label actor_id k.old k.moment in
      let id : k.old.id ≡ pid = key-row prediction_id pid k.old db.predictions k.found in
      let apart : new.id ≢ p.id = λ e.
        let same : some k.old ≡ some p =
          sym k.found ∙ ap (λ (i : Uuid). row prediction_id i db.predictions) (sym id ∙ e) ∙ h in
        ground (arith, k.unsure) in
      rw (k.db_lem) (row-replace_ne prediction_id p.id new db.predictions apart ∙ h)

  record-Stands :
      (external_id : String) (args : NewPrediction) (db db' : Db) (o : Option PredictionOut)
      → Answered c.env external_id args db o db'
      → Stands db
      → Stands db'
  record-Stands external_id args db db' none k h = rw k h
  record-Stands external_id args db db' (some out) k h = rw (k.focus.db_lem) (
      row-append_old prediction_id p.id p (new_prediction c.env k.batch.id args k.moment)
        db.predictions h)

  upsert-Stands : (external_id : String) → Keeps Stands (upsert_external c.env external_id)
  unfolding upsert_external
  upsert-Stands external_id =
      Keeps-bind _ _ (Keeps-gets (λ db. find? (has_external external_id) db.batches)) found
    where
      found : (o : _) → Keeps Stands (get_or_create c.env external_id o)
      found (some b) = Keeps-pure (batch_out b)
      found none = Keeps-bind draw _ Keeps-draw λ n.
          let b = new_batch c.env external_id n in
          Keeps-bind (insert_batch c.env external_id b) _
            (Keeps-write (batch_fits b) (batch_clash b external_id)
              (λ db. record db { batches = db.batches ++ b ∷ [] }) λ db h clash. h)
            (λ _. Keeps-pure (batch_out b))

  perform-Stands : (e : Event) (w : World) → IsValid w.db × Stands w.db → Stands (perform c e w).db
  unfolding perform
  perform-Stands (administered actor_id command) w h =
      ap (row prediction_id p.id) (execute-SameScans c.env c.clear actor_id command w).1 ∙ h.1
  perform-Stands (relabelling pid new_label actor_id) w h =
      let (r, w') = relabel c.env c.clear pid new_label actor_id w in
      Outcome-keeps Stands w.db (Relabelled c.env pid new_label actor_id w.db)
        (λ out db' k. relabel-Stands pid new_label actor_id w.db db' out k h.1) h.1 r w'
        (relabel-Outcome c.env c.clear pid new_label actor_id w)
  perform-Stands (upload bytes filename) w h =
      (enqueue_browser_tiff-KeepsDb c.env c.clear c.content upsert-Stands c.max_mb bytes
          filename).at
        w h.1
  perform-Stands (recording external_id args) w h =
      let (r, w') = record_prediction c.env c.clear external_id args w in
      Outcome-keeps Stands w.db (Answered c.env external_id args w.db)
        (λ o db' k. record-Stands external_id args w.db db' o k h.1) h.1 r w'
        (record_prediction-Outcome c.env c.clear external_id args w h.0.batches)
  perform-Stands (failure external_id filename reason) w h =
      let (r, w') = mark_batch_failed c.env c.clear external_id filename reason w in
      Outcome-keeps Stands w.db (λ _ db'. Failed c.env external_id filename reason w.db db')
        (λ _ db' k. rw (k.focus.db_lem) (h.1)) h.1 r w'
        (mark_batch_failed-Outcome c.env c.clear external_id filename reason w h.0.batches)
  perform-Stands round w h = (ingest_once-KeepsDb {P = Stands} c.env c.content c.max_mb).at w h.1

  -- The row of a prediction whose confidence is at least 0.7 is the same in every state that can
  -- be reached from valid tables that hold it.
  pub Reachable-confident :
      (w v : World)
      → Reachable c w v
      → IsValid w.db
      → row prediction_id p.id w.db.predictions ≡ some p
      → row prediction_id p.id v.db.predictions ≡ some p
  Reachable-confident w v r valid h =
      (Reachable-keeps c (λ u. IsValid u.db × Stands u.db)
        (λ e u k. (perform-IsValid c e u k.0, perform-Stands e u k)) w v r (valid, h)).1
