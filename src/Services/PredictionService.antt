-- ===== src/Services/PredictionService.antt =====
-- services/prediction_service.py
pub mod Recording
pub mod Duplicates
pub mod Validity
pub mod Failing
pub mod Relabelling
pub mod Returning
use dropsort.Prelude.{
  ⊤, ℕ, String, Bool, true, false, Option, none, some, List, [], ◌∷◌, uuid_str, prefix,
  if◌then◌else◌,
}
use dropsort.Prelude.Float.{Float, scaled, float_ge}
use dropsort.Domain.{
  Uuid, Metadata, BatchState, received, processing, complete, failed, BatchOut, PredictionOut,
  UserOut, text, flag, number,
}
use dropsort.Exec.{prediction_not_found, relabel_not_allowed, pure, raise_if, or_raise, ◌>>=◌, ◌>>◌}
use dropsort.Session.{Env, Tx}
use dropsort.Service.{Clear, Action, begin, query, clear_cache, detail_namespace}
use dropsort.Repositories.Users
use dropsort.Repositories.Batches
use dropsort.Repositories.Predictions
use dropsort.Repositories.Predictions.{NewPrediction}
use dropsort.Repositories.Audit

-- `RELABEL_CONFIDENCE_THRESHOLD = 0.7`, the double 6305039478318694 * 2 ^ -53.
abbrev pub relabel_confidence_threshold : Float
relabel_confidence_threshold = scaled 6305039478318694 53

unfoldable pub list_recent : ℕ → Action (List PredictionOut)
list_recent limit = query (Predictions.list_recent limit)

abbrev pub relabel_entry : Uuid → PredictionOut → String → Uuid → Audit.Entry
relabel_entry pid current new_label actor_id = record {
  actor_id = actor_id;
  action = "prediction_relabeled";
  target_type = "prediction";
  target_id = uuid_str pid;
  metadata =
      ("from", text current.label)
      ∷ ("to", text new_label)
      ∷ ("top1_confidence", number current.top1_confidence)
      ∷ [];
}

module _ (env : Env) where
  abbrev pub relabel_tx : Uuid → String → Uuid → Tx PredictionOut
  relabel_tx pid new_label actor_id = do
    found ← Predictions.get_by_id pid
    current ← or_raise (prediction_not_found pid) found
    raise_if (float_ge current.top1_confidence relabel_confidence_threshold)
        (relabel_not_allowed pid current.top1_confidence)
    replaced ← Predictions.relabel env pid new_label actor_id
    updated ← or_raise (prediction_not_found pid) replaced
    Audit.append env (relabel_entry pid current new_label actor_id)
    pure updated

  abbrev pub advance : BatchOut → Tx (Option BatchOut)
  advance batch = elim batch.state [
    | received ↦ Batches.set_state env batch.id processing
    | _ ↦ pure none
  ]

  abbrev pub complete_batch :
      BatchOut → Option PredictionOut → Tx (Option (BatchOut × PredictionOut))
  complete_batch batch none = pure none
  complete_batch batch (some created) = do
    Batches.set_state env batch.id complete
    pure (some (batch, created))

  abbrev pub record_tx : String → NewPrediction → Tx (Option (BatchOut × PredictionOut))
  record_tx batch_external_id args = do
    batch ← Batches.upsert_external env batch_external_id
    advance batch
    created ← Predictions.create env batch.id args
    complete_batch batch created

  abbrev pub failure_entry : Uuid → Uuid → String → String → Audit.Entry
  failure_entry actor_id batch_id filename reason = record {
    actor_id = actor_id;
    action = "batch_state_changed";
    target_type = "batch";
    target_id = uuid_str batch_id;
    metadata =
        ("to", text "failed")
        ∷ ("filename", text filename)
        ∷ ("reason", text (prefix 500 reason))
        ∷ ("system", flag true)
        ∷ [];
  }

  -- The audit row is left out where the administrator's row is missing.
  abbrev pub log_failure : Option UserOut → Uuid → String → String → Tx ⊤
  log_failure none batch_id filename reason = pure tt
  log_failure (some admin) batch_id filename reason = do
    Audit.append env (failure_entry admin.id batch_id filename reason)
    pure tt

  abbrev pub failed_tx : String → String → String → Tx BatchOut
  failed_tx batch_external_id filename reason = do
    admin ← Users.get_by_email "admin@example.com"
    batch ← Batches.upsert_external env batch_external_id
    Batches.set_state env batch.id failed
    log_failure admin batch.id filename reason
    pure batch

module _ (env : Env) (clear : Clear) where
  unfoldable pub relabel : Uuid → String → Uuid → Action PredictionOut
  relabel pid new_label actor_id = do
    updated ← begin (relabel_tx env pid new_label actor_id)
    clear_cache clear (detail_namespace (uuid_str updated.batch_id))
    clear_cache clear "predictions-recent"
    pure updated

  abbrev pub after_record : Option (BatchOut × PredictionOut) → Action (Option PredictionOut)
  after_record none = pure none
  after_record (some (batch, created)) = do
    clear_cache clear "batches-list"
    clear_cache clear (detail_namespace (uuid_str batch.id))
    clear_cache clear "predictions-recent"
    pure (some created)

  unfoldable pub record_prediction : String → NewPrediction → Action (Option PredictionOut)
  record_prediction batch_external_id args = do
    recorded ← begin (record_tx env batch_external_id args)
    after_record recorded

  unfoldable pub mark_batch_failed : String → String → String → Action ⊤
  mark_batch_failed batch_external_id filename reason = do
    batch ← begin (failed_tx env batch_external_id filename reason)
    clear_cache clear "batches-list"
    clear_cache clear (detail_namespace (uuid_str batch.id))
