-- ===== src/Services/PredictionService/Validity.antt =====
-- services/prediction_service.py: the promises of the schema under its transactions.
use dropsort.Prelude.{String, ◌≡◌, refl, Option, none, some}
use dropsort.Domain.{
  Uuid, BatchState, received, processing, complete, failed, BatchOut, PredictionOut, UserOut,
}
use dropsort.Db.{Db}
use dropsort.Db.Invariant.{IsValid}
use dropsort.Db.Invariant.Log.{append-AuditValid}
use dropsort.Session.{Env}
use dropsort.Session.Keeps.{Keeps, Keeps-bind, Keeps-pure, Keeps-gets}
use dropsort.Repositories.Users
use dropsort.Repositories.Batches.{set_state, upsert_external}
use dropsort.Repositories.Predictions
use dropsort.Repositories.Predictions.{NewPrediction, relabelled}
use dropsort.Repositories.Validity.{
  append-Keeps, upsert_external-Keeps, set_state-Keeps, create-Keeps, relabelled-IsValid,
}
use dropsort.Services.PredictionService.{
  record_tx, advance, complete_batch, failed_tx, log_failure, failure_entry,
}
use dropsort.Services.PredictionService.Relabelling.{Relabelled}

module _ (env : Env) where
  advance-Keeps : (b : BatchOut) (st : BatchState) → b.state ≡ st → Keeps IsValid (advance env b)
  advance-Keeps b received e = rw e (set_state-Keeps env b.id processing)
  advance-Keeps b processing e = rw e (Keeps-pure none)
  advance-Keeps b complete e = rw e (Keeps-pure none)
  advance-Keeps b failed e = rw e (Keeps-pure none)

  complete_batch-Keeps :
      (b : BatchOut) (o : Option PredictionOut) → Keeps IsValid (complete_batch env b o)
  complete_batch-Keeps b none = Keeps-pure none
  complete_batch-Keeps b (some p) =
      Keeps-bind (set_state env b.id complete) _ (set_state-Keeps env b.id complete)
        (λ _. Keeps-pure (some (b, p)))

  pub record_tx-Keeps :
      (external_id : String) (args : NewPrediction) → Keeps IsValid (record_tx env external_id args)
  record_tx-Keeps external_id args =
      Keeps-bind (upsert_external env external_id) _ (upsert_external-Keeps env external_id) λ b.
        Keeps-bind (advance env b) _ (advance-Keeps b b.state refl) λ _.
          Keeps-bind (Predictions.create env b.id args) (complete_batch env b)
            (create-Keeps env b.id args) (complete_batch-Keeps b)

  log_failure-Keeps :
      (admin : Option UserOut) (batch_id : Uuid) (filename reason : String)
      → Keeps IsValid (log_failure env admin batch_id filename reason)
  log_failure-Keeps none batch_id filename reason = Keeps-pure tt
  log_failure-Keeps (some a) batch_id filename reason =
      Keeps-bind _ _ (append-Keeps env (failure_entry env a.id batch_id filename reason))
        (λ _. Keeps-pure tt)

  pub failed_tx-Keeps :
      (external_id filename reason : String)
      → Keeps IsValid (failed_tx env external_id filename reason)
  failed_tx-Keeps external_id filename reason =
      Keeps-bind (Users.get_by_email "admin@example.com") _ (Keeps-gets _) λ admin.
        Keeps-bind (upsert_external env external_id) _ (upsert_external-Keeps env external_id) λ b.
          Keeps-bind (set_state env b.id failed) _ (set_state-Keeps env b.id failed)
            λ _. Keeps-bind _ _ (log_failure-Keeps admin b.id filename reason) (λ _. Keeps-pure b)

  pub Relabelled-IsValid :
      (pid : Uuid) (new_label : String) (actor_id : Uuid) (db db' : Db) (out : PredictionOut)
      → Relabelled env pid new_label actor_id db out db'
      → IsValid db
      → IsValid db'
  Relabelled-IsValid pid new_label actor_id db db' out c h =
      let v = relabelled-IsValid env new_label actor_id pid c.old c.moment db c.found c.known h in
      rw (c.db_lem) (record {
        users = v.users;
        batches = v.batches;
        predictions = v.predictions;
        audit = append-AuditValid db.users c.entry db.audit_log h.audit c.logged;
      })
