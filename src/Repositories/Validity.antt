-- ===== src/Repositories/Validity.antt =====
-- app/repositories: the promises of the schema under the statements on batches, predictions and
-- the audit log.
use dropsort.Prelude.{
  ⊤, ℕ, String, ◌≡◌, refl, ap, fun_ext, Bool, true, Option, none, some, [], ◌∷◌, ◌++◌, arith, any,
  find?, Option-cases, inl, inr, ◌∙◌,
}
use dropsort.Domain.{Uuid, BatchState}
use dropsort.Db.{Db, Batch, Prediction, audit_fits, batch_fits, prediction_fits}
use dropsort.Db.Tables.{row, has, replace, key-row}
use dropsort.Db.Invariant.{IsValid, batch_id, prediction_id, user_id, same_external}
use dropsort.Db.Invariant.Log.{append-AuditValid}
use dropsort.Db.Invariant.Batches.{
  append-BatchesValid, replace-BatchesValid, replace-KeepsBatches, append-KeepsBatches,
  PredictionsValid-KeepsBatches,
}
use dropsort.Db.Invariant.Predictions.{append-PredictionsValid, replace-PredictionsValid}
use dropsort.Exec.{Result, ok, err, integrity_error}
use dropsort.Session.{Env, draw, rollback}
use dropsort.Session.Keeps.{
  Keeps, Keeps-bind, Keeps-pure, Keeps-raise, Keeps-draw, Keeps-write, Keeps-gets, Keeps-rollback,
}
use dropsort.Repositories.Audit
use dropsort.Repositories.Audit.{Entry, audit_row, audit_out, audit_clash, insert_audit}
use dropsort.Repositories.Batches.{
  upsert_external, get_or_create, insert_batch, new_batch, batch_out, batch_clash, has_external,
  set_state, with_state,
}
use dropsort.Repositories.Batches.Success.{set_state-row, set_state-none}
use dropsort.Repositories.Predictions.{
  NewPrediction, create, new_prediction, insert_prediction, skip_duplicate, try_insert,
  prediction_clash, relabelled, prediction_out,
}

module _ (env : Env) where
  pub append-Keeps : (e : Entry) → Keeps IsValid (Audit.append env e)
  unfolding Audit.append
  append-Keeps e = Keeps-bind draw _ Keeps-draw λ n.
      let a = audit_row env e n in
      Keeps-bind (insert_audit env a) _
        (Keeps-write (audit_fits a) (audit_clash a) _ λ db h clash. record {
          users = h.users;
          batches = h.batches;
          predictions = h.predictions;
          audit = append-AuditValid db.users a db.audit_log h.audit clash;
        })
        (λ _. Keeps-pure (audit_out a))

  has_external_same :
      (external_id : String) (b c : Batch)
      → b.external_id ≡ some external_id
      → same_external b c ≡ has_external external_id c
  has_external_same external_id b c e = elim (Option-cases c.external_id) [
    | inl n ↦ ground arith
    | inr (x, s) ↦ ground arith
  ]

  insert_batch-Keeps :
      (external_id : String) (n : ℕ)
      → Keeps IsValid (insert_batch env external_id (new_batch env external_id n))
  insert_batch-Keeps external_id n =
      let b = new_batch env external_id n in
      Keeps-write (batch_fits b) (batch_clash b external_id) _ λ db h clash.
        let same : any (same_external b) db.batches ≡ any (has_external external_id) db.batches =
          ap (λ (p : Batch → Bool). any p db.batches)
            (fun_ext λ c. has_external_same external_id b c refl) in
        record {
          users = h.users;
          batches = append-BatchesValid b db.batches h.batches (ground arith) (same ∙ ground arith);
          predictions =
              PredictionsValid-KeepsBatches db.users db.batches (db.batches ++ b ∷ [])
                (append-KeepsBatches b db.batches) db.predictions h.predictions;
          audit = h.audit;
        }

  get_or_create-Keeps :
      (external_id : String) (found : Option Batch)
      → Keeps IsValid (get_or_create env external_id found)
  get_or_create-Keeps external_id (some b) = Keeps-pure (batch_out b)
  get_or_create-Keeps external_id none = Keeps-bind draw _ Keeps-draw λ n.
      Keeps-bind _ _ (insert_batch-Keeps external_id n)
        (λ _. Keeps-pure (batch_out (new_batch env external_id n)))

  pub upsert_external-Keeps :
      (external_id : String) → Keeps IsValid (upsert_external env external_id)
  unfolding upsert_external
  upsert_external-Keeps external_id =
      Keeps-bind _ _ (Keeps-gets (λ db. find? (has_external external_id) db.batches))
        (get_or_create-Keeps external_id)

  with_state-IsValid :
      (state : BatchState) (b : Batch) (now : ℕ) (k : Uuid) (db : Db)
      → row batch_id k db.batches ≡ some b
      → IsValid db
      → IsValid (record db { batches = replace batch_id (with_state state b now) db.batches })
  with_state-IsValid state b now k db found h =
      let b' = with_state state b now in
      record {
        users = h.users;
        batches =
            replace-BatchesValid b' b db.batches h.batches
              (ap (λ (i : Uuid). row batch_id i db.batches) (key-row batch_id k b db.batches found)
                ∙ found)
              refl;
        predictions =
            PredictionsValid-KeepsBatches db.users db.batches (replace batch_id b' db.batches)
              (replace-KeepsBatches b' db.batches) db.predictions h.predictions;
        audit = h.audit;
      }

  pub set_state-Keeps : (k : Uuid) (state : BatchState) → Keeps IsValid (set_state env k state)
  set_state-Keeps k state = record {
    at = λ s h. elim (Option-cases (row batch_id k s.db.batches)) [
      | inl e ↦ rw (set_state-none env state k s e) h
      | inr (b, e) ↦ rw (set_state-row env state b k s e) (record {
        start = h.start;
        now = with_state-IsValid state b (env.now s.draws) k s.db e h.now;
      })
    ];
  }

  insert_prediction-Keeps :
      (batch_id : Uuid) (a : NewPrediction) (n : ℕ)
      → Keeps IsValid (insert_prediction (new_prediction env batch_id a n))
  insert_prediction-Keeps batch_id a n =
      let p = new_prediction env batch_id a n in
      Keeps-write (prediction_fits p) (prediction_clash p) _ λ db h clash. record {
        users = h.users;
        batches = h.batches;
        predictions =
            append-PredictionsValid db.users db.batches p db.predictions h.predictions clash refl;
        audit = h.audit;
      }

  skip_duplicate-Keeps : (p : Prediction) (r : Result ⊤) → Keeps IsValid (skip_duplicate p r)
  skip_duplicate-Keeps p (ok _) = Keeps-pure (some (prediction_out p))
  skip_duplicate-Keeps p (err integrity_error) =
      Keeps-bind rollback _ Keeps-rollback (λ _. Keeps-pure none)
  skip_duplicate-Keeps p (err e) = Keeps-raise e

  pub create-Keeps : (batch_id : Uuid) (a : NewPrediction) → Keeps IsValid (create env batch_id a)
  unfolding create
  create-Keeps batch_id a =
      Keeps-bind draw (λ n. try_insert (new_prediction env batch_id a n)) Keeps-draw
        λ n.
          let p = new_prediction env batch_id a n in
          record {
            at = λ s h.
                let (r, s') = insert_prediction p s in
                (skip_duplicate-Keeps p r).at s' ((insert_prediction-Keeps batch_id a n).at s h);
          }

  pub relabelled-IsValid :
      (new_label : String) (actor_id pid : Uuid) (p : Prediction) (n : ℕ) (db : Db)
      → row prediction_id pid db.predictions ≡ some p
      → has user_id actor_id db.users ≡ true
      → IsValid db
      → IsValid (record db {
        predictions = replace prediction_id (relabelled env new_label actor_id p n) db.predictions;
      })
  relabelled-IsValid new_label actor_id pid p n db found known h = record {
    users = h.users;
    batches = h.batches;
    predictions =
        replace-PredictionsValid db.users db.batches (relabelled env new_label actor_id p n) p
          db.predictions h.predictions
          (ap (λ (i : Uuid). row prediction_id i db.predictions)
              (key-row prediction_id pid p db.predictions found)
            ∙ found)
          refl refl known;
    audit = h.audit;
  }
