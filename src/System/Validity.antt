-- ===== src/System/Validity.antt =====
-- The promises of the schema under every event of the program.
use dropsort.Prelude.{String, none, some}
use dropsort.Db.Invariant.{IsValid}
use dropsort.Service.{World, begin}
use dropsort.Service.Keeps.{KeepsDb, KeepsDb-bind, KeepsDb-begin}
use dropsort.Service.Success.{Outcome-keeps}
use dropsort.Repositories.Validity.{upsert_external-Keeps}
use dropsort.Services.UserService.Validity.{execute-IsValid}
use dropsort.Services.PredictionService.{
  record_prediction, record_tx, after_record, mark_batch_failed, failed_tx, relabel,
}
use dropsort.Services.PredictionService.Validity.{
  record_tx-Keeps, failed_tx-Keeps, Relabelled-IsValid,
}
use dropsort.Services.PredictionService.Relabelling.{Relabelled, relabel-Outcome}
use dropsort.Services.BatchUploadService.Keeping.{enqueue_browser_tiff-KeepsDb}
use dropsort.Workers.SftpIngest.Keeping.{ingest_once-KeepsDb}
use dropsort.System.{
  Event, administered, relabelling, upload, recording, failure, round, Setting, perform, Reachable,
  Reachable-keeps,
}

module _ (c : Setting) where
  record_prediction-IsValid :
      (external_id : String) (args : _)
      → KeepsDb IsValid (record_prediction c.env c.clear external_id args)
  unfolding record_prediction
  record_prediction-IsValid external_id args =
      KeepsDb-bind (begin (record_tx c.env external_id args)) (after_record c.env c.clear)
        (KeepsDb-begin _ (record_tx-Keeps c.env external_id args)) after
    where
      after : (made : _) → KeepsDb IsValid (after_record c.env c.clear made)
      after none = record { at = λ w h. h }
      after (some made) = record { at = λ w h. h }

  mark_batch_failed-IsValid :
      (external_id filename reason : String)
      → KeepsDb IsValid (mark_batch_failed c.env c.clear external_id filename reason)
  unfolding mark_batch_failed
  mark_batch_failed-IsValid external_id filename reason =
      KeepsDb-bind (begin (failed_tx c.env external_id filename reason)) _
        (KeepsDb-begin _ (failed_tx-Keeps c.env external_id filename reason))
        (λ b. record { at = λ w h. h })

  pub perform-IsValid : (e : Event) (w : World) → IsValid w.db → IsValid (perform c e w).db
  unfolding perform
  perform-IsValid (administered actor_id command) w h =
      execute-IsValid c.env c.clear actor_id command w h
  perform-IsValid (relabelling pid new_label actor_id) w h =
      let (r, w') = relabel c.env c.clear pid new_label actor_id w in
      Outcome-keeps IsValid w.db (Relabelled c.env pid new_label actor_id w.db)
        (λ out db' k. Relabelled-IsValid c.env pid new_label actor_id w.db db' out k h) h r w'
        (relabel-Outcome c.env c.clear pid new_label actor_id w)
  perform-IsValid (upload bytes filename) w h =
      (enqueue_browser_tiff-KeepsDb c.env c.clear c.content (upsert_external-Keeps c.env) c.max_mb
          bytes filename).at
        w h
  perform-IsValid (recording external_id args) w h =
      (record_prediction-IsValid external_id args).at w h
  perform-IsValid (failure external_id filename reason) w h =
      (mark_batch_failed-IsValid external_id filename reason).at w h
  perform-IsValid round w h = (ingest_once-KeepsDb {P = IsValid} c.env c.content c.max_mb).at w h

  -- Every state that can be reached from valid tables has valid tables.
  pub Reachable-IsValid : (w v : World) → Reachable c w v → IsValid w.db → IsValid v.db
  Reachable-IsValid w v r h = Reachable-keeps c (λ u. IsValid u.db) perform-IsValid w v r h
