-- ===== src/System/Listing/Kept.antt =====
-- The stored lists of batches under each event of the program, where no call fails.
use dropsort.Prelude.{String, ◌≡◌, inl, inr, refl, ap, Option, none, some, uuid_str}
use dropsort.Domain.{Uuid, PredictionOut, BatchOut}
use dropsort.Db.Invariant.{IsValid}
use dropsort.Exec.{Result, ok, err, continue, ◌>>◌}
use dropsort.Session.{Env}
use dropsort.Service.{World, Clear, begin, session, clear_cache, detail_namespace}
use dropsort.Service.Thins.{
  IsClear, Thins, Thins-bind, Thins-begin, Thins-clear, Thins-pure, settle-cache, begin-Spared,
}
use dropsort.Service.Success.{Outcome, Outcome-keeps}
use dropsort.Infra.{IsUp}
use dropsort.Repositories.Predictions.{NewPrediction}
use dropsort.Services.PredictionService.{
  relabel, relabel_tx, record_prediction, record_tx, after_record, mark_batch_failed, failed_tx,
}
use dropsort.Services.PredictionService.Recording.{Answered, record_prediction-Outcome}
use dropsort.Services.PredictionService.Relabelling.{Relabelled, relabel-Outcome}
use dropsort.Services.UserService.History.{execute}
use dropsort.Workers.SftpIngest.Keeping.{ingest_once-KeepsDb}
use dropsort.Api.Listings.{ListKey, batches_key}
use dropsort.System.{
  Event, administered, relabelling, upload, recording, failure, round, Setting, perform,
}
use dropsort.System.Untouched.{execute-SameScans}
use dropsort.System.Recent.{IsListKey}
use dropsort.System.Recent.Stored.{execute-Thins, ingest_once-Thins}
use dropsort.System.Listing.{
  batch_rows, SameList, IsCurrent, Effect, Effect-IsCurrent, same-Effect, commit-Effect, clear-Dry,
  more-Dry,
}
use dropsort.System.Listing.Counts.{scans-SameList, Relabelled-SameList}
use dropsort.System.Listing.Uploads.{enqueue_browser_tiff-Effect}

module _ (list_key : ListKey) (k : IsListKey list_key) (env : Env) (clear : Clear)
    (h : IsClear clear) where
  relabel-Thins :
      (key : String) (pid : Uuid) (new_label : String) (actor_id : Uuid)
      → Thins key (relabel env clear pid new_label actor_id)
  unfolding relabel
  relabel-Thins key pid new_label actor_id =
      Thins-bind key (begin (relabel_tx env pid new_label actor_id)) _ (Thins-begin key _)
        λ updated.
          let namespace = detail_namespace (uuid_str updated.batch_id) in
          Thins-bind key (clear_cache clear namespace) _ (Thins-clear key clear h namespace) λ _.
            Thins-bind key (clear_cache clear "predictions-recent") _
              (Thins-clear key clear h "predictions-recent") (λ _. Thins-pure key updated)

  relabel-Effect :
      (pid : Uuid) (new_label : String) (actor_id : Uuid) (w : World)
      → IsValid w.db
      → Effect list_key w (relabel env clear pid new_label actor_id w).1
  relabel-Effect pid new_label actor_id w valid =
      let (r, w') = relabel env clear pid new_label actor_id w in
      inr (
        Outcome-keeps (SameList w.db) w.db (Relabelled env pid new_label actor_id w.db)
            (λ out db' changed.
              Relabelled-SameList env pid new_label actor_id w.db db' out valid.predictions.keyed
                changed)
            (λ o l. refl) r w' (relabel-Outcome env clear pid new_label actor_id w),
        λ o l. (relabel-Thins (batches_key list_key o l) pid new_label actor_id).at w,
      )

  module _ (external_id : String) (args : NewPrediction) (w : World) where
    after_record-Effect :
        (r : Result (Option (BatchOut × PredictionOut))) (v : World)
        → v.cache ≡ w.cache
        → Outcome w.db (Answered env external_id args w.db) (continue r (after_record env clear) v)
        → Effect list_key w (continue r (after_record env clear) v).1
    after_record-Effect (err e) v cache o = same-Effect list_key w v cache o
    after_record-Effect (ok none) v cache o = same-Effect list_key w v cache o
    after_record-Effect (ok (some (batch, created))) v cache o = inl (
        more-Dry list_key k clear h "predictions-recent" _ (
          more-Dry list_key k clear h (detail_namespace (uuid_str batch.id)) _
            (clear-Dry list_key k clear h v.cache)))

    record_prediction-Effect :
        IsValid w.db → Effect list_key w (record_prediction env clear external_id args w).1
    unfolding record_prediction begin
    record_prediction-Effect valid =
        let (r, v) = begin (record_tx env external_id args) w in
        after_record-Effect r v (settle-cache (record_tx env external_id args (session w)) w)
          (record_prediction-Outcome env clear external_id args w valid.batches)

  mark_batch_failed-Effect :
      (external_id filename reason : String) (w : World)
      → Effect list_key w (mark_batch_failed env clear external_id filename reason w).1
  unfolding mark_batch_failed
  mark_batch_failed-Effect external_id filename reason w =
      let tx = failed_tx env external_id filename reason in
      let (r, v) = begin tx w in
      commit-Effect list_key r w v
        (λ batch. do
          clear_cache clear "batches-list"
          clear_cache clear (detail_namespace (uuid_str batch.id)))
        (begin-Spared tx w)
        (λ batch. inl (
          more-Dry list_key k clear h (detail_namespace (uuid_str batch.id)) _
            (clear-Dry list_key k clear h v.cache)))

module _ (c : Setting) (list_key : ListKey) (k : IsListKey list_key) (h : IsClear c.clear)
    (up : IsUp c.env) where
  perform-Effect : (e : Event) (w : World) → IsValid w.db → Effect list_key w (perform c e w)
  unfolding perform
  perform-Effect (administered actor_id command) w valid =
      let w' = (execute c.env c.clear actor_id command w).1 in
      let (batches, predictions) = execute-SameScans c.env c.clear actor_id command w in
      inr (
        scans-SameList w.db w'.db batches predictions,
        λ o l. execute-Thins (batches_key list_key o l) c.env c.clear h actor_id command w,
      )
  perform-Effect (relabelling pid new_label actor_id) w valid =
      relabel-Effect list_key k c.env c.clear h pid new_label actor_id w valid
  perform-Effect (upload bytes filename) w valid =
      enqueue_browser_tiff-Effect list_key k c.env c.clear h up c.content c.max_mb bytes filename w
  perform-Effect (recording external_id args) w valid =
      record_prediction-Effect list_key k c.env c.clear h external_id args w valid
  perform-Effect (failure external_id filename reason) w valid =
      mark_batch_failed-Effect list_key k c.env c.clear h external_id filename reason w
  perform-Effect round w valid = inr (
    (λ o l.
        ap (batch_rows o l)
          ((ingest_once-KeepsDb {P = λ db. db ≡ w.db} c.env c.content c.max_mb).at w refl)),
    λ o l. (ingest_once-Thins (batches_key list_key o l) c.env c.content c.max_mb).at w,
  )

  pub perform-IsCurrent :
      (e : Event) (w : World)
      → IsValid w.db
      → IsCurrent list_key w
      → IsCurrent list_key (perform c e w)
  perform-IsCurrent e w valid =
      Effect-IsCurrent list_key w (perform c e w) (perform-Effect e w valid)
