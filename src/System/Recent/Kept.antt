-- ===== src/System/Recent/Kept.antt =====
-- The stored lists of recent predictions under each event of the program.
use dropsort.Prelude.{String, ◌≡◌, inr, refl, ap, Option, none, some, List, find?, uuid_str}
use dropsort.Domain.{Uuid, PredictionOut, BatchOut}
use dropsort.Db.{Db, Prediction, batch_fits}
use dropsort.Db.Invariant.{IsValid}
use dropsort.Exec.{Result, ok, err, pure, continue, ◌>>◌}
use dropsort.Session.{Env, draw}
use dropsort.Session.Keeps.{Keeps, Keeps-bind, Keeps-draw, Keeps-gets, Keeps-pure, Keeps-write}
use dropsort.Service.{World, Action, Cache, Clear, begin, session, clear_cache, detail_namespace}
use dropsort.Service.Thins.{IsClear, settle-cache}
use dropsort.Service.Success.{Outcome, Outcome-keeps}
use dropsort.Repositories.Batches.{
  upsert_external, get_or_create, insert_batch, new_batch, batch_out, has_external, batch_clash,
}
use dropsort.Repositories.Predictions.{NewPrediction}
use dropsort.Services.PredictionService.{
  relabel, relabel_tx, record_prediction, record_tx, after_record, mark_batch_failed,
}
use dropsort.Services.PredictionService.Recording.{Answered, record_prediction-Outcome}
use dropsort.Services.PredictionService.Failing.{Failed, mark_batch_failed-Outcome}
use dropsort.Services.BatchUploadService.Keeping.{enqueue_browser_tiff-KeepsDb}
use dropsort.Workers.SftpIngest.Keeping.{ingest_once-KeepsDb}
use dropsort.System.{
  Event, administered, relabelling, upload, recording, failure, round, Setting, perform,
}
use dropsort.Services.UserService.History.{execute}
use dropsort.Workers.SftpIngest.{ingest_once}
use dropsort.Services.BatchUploadService.{enqueue_browser_tiff}
use dropsort.System.Untouched.{execute-SameScans}
use dropsort.System.Recent.{
  IsListKey, IsCurrent, Emptied-IsCurrent, same-IsCurrent, cleared-Emptied,
}
use dropsort.Services.PredictionService.Relabelling.{Relabelled, relabel-Outcome}
use dropsort.System.Recent.Stored.{
  execute-Thins, mark_batch_failed-Thins, enqueue_browser_tiff-Thins, ingest_once-Thins,
}
use dropsort.Api.Listings.{ListKey, recent_key}

module _ (list_key : ListKey) (k : IsListKey list_key) (env : Env) (clear : Clear)
    (h : IsClear clear) where
  spared-IsCurrent :
      (w v : World) → v.cache ≡ w.cache → v.db ≡ w.db → IsCurrent list_key w → IsCurrent list_key v
  spared-IsCurrent w v cache db =
      same-IsCurrent list_key w v
        (λ limit. inr (ap (λ (c : Cache). c (recent_key list_key limit)) cache))
        (ap (λ (d : Db). d.predictions) db)

  wiped-IsCurrent :
      (v : World) → IsCurrent list_key (record v { cache = clear "predictions-recent" v.cache })
  wiped-IsCurrent v =
      Emptied-IsCurrent list_key (record v { cache = clear "predictions-recent" v.cache })
        (cleared-Emptied list_key k clear h v)

  module _ (pid : Uuid) (new_label : String) (actor_id : Uuid) (w : World)
      (current : IsCurrent list_key w) where
    abbrev answer : PredictionOut → Action PredictionOut
    answer updated = do
      clear_cache clear (detail_namespace (uuid_str updated.batch_id))
      clear_cache clear "predictions-recent"
      pure updated

    after_relabel :
        (r : Result PredictionOut) (v : World)
        → v.cache ≡ w.cache
        → Outcome w.db (Relabelled env pid new_label actor_id w.db) (continue r answer v)
        → IsCurrent list_key (continue r answer v).1
    after_relabel (err e) v cache o = spared-IsCurrent w v cache o current
    after_relabel (ok updated) v cache o =
        wiped-IsCurrent
          (record v { cache = clear (detail_namespace (uuid_str updated.batch_id)) v.cache })

    relabel-IsCurrent : IsCurrent list_key (relabel env clear pid new_label actor_id w).1
    unfolding relabel begin
    relabel-IsCurrent =
        let (r, v) = begin (relabel_tx env pid new_label actor_id) w in
        after_relabel r v (settle-cache (relabel_tx env pid new_label actor_id (session w)) w)
          (relabel-Outcome env clear pid new_label actor_id w)

  module _ (external_id : String) (args : NewPrediction) (w : World)
      (current : IsCurrent list_key w) where
    after_record-IsCurrent :
        (r : Result (Option (BatchOut × PredictionOut))) (v : World)
        → v.cache ≡ w.cache
        → Outcome w.db (Answered env external_id args w.db) (continue r (after_record env clear) v)
        → IsCurrent list_key (continue r (after_record env clear) v).1
    after_record-IsCurrent (err e) v cache o = spared-IsCurrent w v cache o current
    after_record-IsCurrent (ok none) v cache o = spared-IsCurrent w v cache o current
    after_record-IsCurrent (ok (some (batch, created))) v cache o =
        let first = record v { cache = clear "batches-list" v.cache } in
        wiped-IsCurrent
          (record first { cache = clear (detail_namespace (uuid_str batch.id)) first.cache })

    record_prediction-IsCurrent :
        IsValid w.db → IsCurrent list_key (record_prediction env clear external_id args w).1
    unfolding record_prediction begin
    record_prediction-IsCurrent valid =
        let (r, v) = begin (record_tx env external_id args) w in
        after_record-IsCurrent r v (settle-cache (record_tx env external_id args (session w)) w)
          (record_prediction-Outcome env clear external_id args w valid.batches)

-- The events that leave the predictions.
upsert-predictions :
    (env : Env) (rows : List Prediction) (external_id : String)
    → Keeps (λ db. db.predictions ≡ rows) (upsert_external env external_id)
unfolding upsert_external
upsert-predictions env rows external_id =
    Keeps-bind _ _ (Keeps-gets (λ db. find? (has_external external_id) db.batches)) found
  where
    found : (o : _) → Keeps (λ db. db.predictions ≡ rows) (get_or_create env external_id o)
    found (some b) = Keeps-pure (batch_out b)
    found none = Keeps-bind draw _ Keeps-draw λ n.
        let b = new_batch env external_id n in
        Keeps-bind (insert_batch env external_id b) _
          (Keeps-write (batch_fits b) (batch_clash b external_id) _ λ db h clash. h)
          (λ _. Keeps-pure (batch_out b))

module _ (c : Setting) (list_key : ListKey) (k : IsListKey list_key) (h : IsClear c.clear) where
  pub perform-IsCurrent :
      (e : Event) (w : World)
      → IsValid w.db
      → IsCurrent list_key w
      → IsCurrent list_key (perform c e w)
  unfolding perform
  perform-IsCurrent (administered actor_id command) w valid current =
      same-IsCurrent list_key w (execute c.env c.clear actor_id command w).1
        (λ limit. execute-Thins (recent_key list_key limit) c.env c.clear h actor_id command w)
        (execute-SameScans c.env c.clear actor_id command w).1 current
  perform-IsCurrent (relabelling pid new_label actor_id) w valid current =
      relabel-IsCurrent list_key k c.env c.clear h pid new_label actor_id w current
  perform-IsCurrent (upload bytes filename) w valid current =
      same-IsCurrent list_key w
        (enqueue_browser_tiff c.env c.clear c.content c.max_mb bytes filename w).1
        (λ limit.
          (enqueue_browser_tiff-Thins (recent_key list_key limit) c.env c.clear h c.content c.max_mb
              bytes filename).at
            w)
        ((enqueue_browser_tiff-KeepsDb c.env c.clear c.content
            (upsert-predictions c.env w.db.predictions) c.max_mb bytes filename).at
          w refl)
        current
  perform-IsCurrent (recording external_id args) w valid current =
      record_prediction-IsCurrent list_key k c.env c.clear h external_id args w current valid
  perform-IsCurrent (failure external_id filename reason) w valid current =
      let (r, w') = mark_batch_failed c.env c.clear external_id filename reason w in
      same-IsCurrent list_key w w'
        (λ limit.
          (mark_batch_failed-Thins (recent_key list_key limit) c.env c.clear h external_id filename
              reason).at
            w)
        (Outcome-keeps (λ db'. db'.predictions ≡ w.db.predictions) w.db
          (λ _ db'. Failed c.env external_id filename reason w.db db')
          (λ _ db' f. ap (λ (d : Db). d.predictions) f.focus.db_lem) refl r w'
          (mark_batch_failed-Outcome c.env c.clear external_id filename reason w valid.batches))
        current
  perform-IsCurrent round w valid current =
      same-IsCurrent list_key w (ingest_once c.env c.content c.max_mb w).1
        (λ limit. (ingest_once-Thins (recent_key list_key limit) c.env c.content c.max_mb).at w)
        ((ingest_once-KeepsDb {P = λ db. db.predictions ≡ w.db.predictions} c.env c.content
            c.max_mb).at
          w refl)
        current
