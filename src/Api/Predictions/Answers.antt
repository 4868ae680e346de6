-- ===== src/Api/Predictions/Answers.antt =====
-- api/predictions.py: every answer of the endpoint that relabels a prediction.
use dropsort.Prelude.{
  ◌+◌, String, ◌≡◌, ◌⊎◌, refl, ap, sym, ◌∙◌, List, true, false, Option, none, some, [], ◌∷◌, ◌++◌,
  format, arith, all, leb, not, ◌&&◌, Bool-cases, inl, inr,
}
use dropsort.Prelude.Uuids.Printed.{count-uuid_str, contains-uuid_str}
use Prim.Native.String.{count}
use dropsort.Prelude.Paths.{contains}
use dropsort.Prelude.Float.{float_ge}
use dropsort.Domain.{Uuid, PredictionOut}
use dropsort.Db.{User, Prediction, AuditLog, fits, prediction_fits, audit_fits}
use dropsort.Db.Tables.{row, has, replace, all_at_row, key-row, row-replace_self}
use dropsort.Db.Invariant.{prediction_id, user_id, audit_id}
use dropsort.Exec.{ok, err, data_error, prediction_not_found, relabel_not_allowed}
use dropsort.Session.{Env, Session}
use dropsort.Service.{World, Clear, begin, session}
use dropsort.Repositories.Predictions
use dropsort.Repositories.Predictions.{relabelled, prediction_out}
use dropsort.Repositories.Audit.{append, audit_row, audit_out}
use dropsort.Services.PredictionService.{relabel, relabel_confidence_threshold, relabel_entry}
use dropsort.Services.PredictionService.Relabelling.{with_label, shown}
use dropsort.Access.{Casbin, relabel_prediction, permitted}
use dropsort.Api.{Reply, sent, refused, crashed, endpoint}
use dropsort.Api.Predictions.{relabel_endpoint, fixed_four}

module _ (env : Env) (clear : Clear) (pid : Uuid) (new_label : String) (actor_id : Uuid)
    (w : World) where
  relabel_missing :
      row prediction_id pid w.db.predictions ≡ none
      → relabel env clear pid new_label actor_id w ≡ (err (prediction_not_found pid), w)
  unfolding relabel begin
  relabel_missing e = ground (arith, e)

  module _ (p : Prediction) (found : row prediction_id pid w.db.predictions ≡ some p) where
    relabel_sure :
        float_ge p.top1_confidence relabel_confidence_threshold ≡ true
        → relabel env clear pid new_label actor_id w
          ≡ (err (relabel_not_allowed pid p.top1_confidence), w)
    unfolding relabel begin
    relabel_sure g = ground (arith, found, g)

    module _ (g : float_ge p.top1_confidence relabel_confidence_threshold ≡ false)
        (fit : prediction_fits p ≡ true) where
      relabel_wide :
          fits 64 new_label ≡ false
          → ((relabel env clear pid new_label actor_id w).0 ≡ err data_error)
            × ((relabel env clear pid new_label actor_id w).1.db ≡ w.db)
      unfolding relabel begin Predictions.relabel prediction_fits
      relabel_wide wide = (ground arith, ground arith)

      abbrev replaced : Prediction
      replaced = relabelled env new_label actor_id p w.draws

      abbrev logged : AuditLog
      logged = audit_row env (relabel_entry pid (prediction_out p) new_label actor_id) (w.draws + 1)

      entry_fits : audit_fits logged ≡ true
      unfolding audit_fits contains
      entry_fits = rw (count-uuid_str pid, contains-uuid_str pid) refl

      abbrev updated : Session
      updated = record (session w) {
        db = record w.db { predictions = replace prediction_id replaced w.db.predictions };
        draws = w.draws + 1;
      }

      module _ (narrow : fits 64 new_label ≡ true) (known : has user_id actor_id w.db.users ≡ true)
          (fresh : has audit_id (env.uuid4 (w.draws + 1)) w.db.audit_log ≡ false) where
        update_done :
            Predictions.relabel env pid new_label actor_id (session w)
            ≡ (ok (some (prediction_out replaced)), updated)
        unfolding Predictions.relabel prediction_fits
        update_done = ground arith

        append_done :
            append env (relabel_entry pid (prediction_out p) new_label actor_id) updated ≡ (
              ok (audit_out logged),
              record updated {
                db = record updated.db { audit_log = w.db.audit_log ++ logged ∷ [] };
                draws = w.draws + 1 + 1;
              },
            )
        unfolding append
        append_done = rw (entry_fits, fresh, known) refl

        relabel_done :
            ((relabel env clear pid new_label actor_id w).0 ≡ ok (prediction_out replaced))
            × ((relabel env clear pid new_label actor_id w).1.db.predictions
                ≡ replace prediction_id replaced w.db.predictions)
        unfolding relabel begin
        relabel_done = rw (found, g, update_done, append_done) (refl, refl)

row-replaced :
    (pid : Uuid) (new p : Prediction) (ps : List Prediction)
    → new.id ≡ pid
    → row prediction_id pid ps ≡ some p
    → row prediction_id pid (replace prediction_id new ps) ≡ some new
row-replaced pid new p ps e h =
    ap (λ (k : Uuid). row prediction_id k (replace prediction_id new ps)) (sym e)
    ∙ row-replace_self prediction_id new p ps (ap (λ (k : Uuid). row prediction_id k ps) e ∙ h)

module _ (env : Env) (clear : Clear) (casbin : Casbin) (user : User) (pid : Uuid)
    (new_label : String) (w : World) where
  -- Every answer, by the row of the prediction.
  abbrev pub Answered : Option Prediction → Reply PredictionOut → World → Type 0
  Answered none answer w' = (answer ≡ refused 404 "Prediction not found") × (w'.db ≡ w.db)
  Answered (some p) answer w' =
      let sure = float_ge p.top1_confidence relabel_confidence_threshold in
      let stored = leb (count new_label) 64 && not (contains 0 new_label) in
      let now = env.now w.draws in
      ((sure ≡ true)
        × (answer
            ≡ refused 409 (
                format (
                  "Cannot relabel: confidence "
                  ∷ fixed_four p.top1_confidence
                  ∷ " is above threshold 0.7"
                  ∷ [])))
        × (w'.db ≡ w.db))
      ⊎ (((sure ≡ false) × (stored ≡ false) × (answer ≡ crashed data_error) × (w'.db ≡ w.db))
          ⊎ ((sure ≡ false)
              × (stored ≡ true)
              × (answer ≡ sent 200 (shown new_label user.id now p))
              × (row prediction_id pid w'.db.predictions
                  ≡ some (with_label new_label user.id now p))))

  module _ (may : permitted casbin w.policy user.role relabel_prediction ≡ true)
      (known : has user_id user.id w.db.users ≡ true)
      (fresh : has audit_id (env.uuid4 (w.draws + 1)) w.db.audit_log ≡ false) where
    unsure-Answered :
        (p : Prediction)
        → row prediction_id pid w.db.predictions ≡ some p
        → prediction_fits p ≡ true
        → float_ge p.top1_confidence relabel_confidence_threshold ≡ false
        → let (answer, w') = relabel_endpoint env clear casbin user pid new_label w in
          Answered (some p) answer w'
    unfolding endpoint
    unsure-Answered p found fit g = elim (Bool-cases (fits 64 new_label)) [
      | inl narrow ↦
          let (returned, left) =
            relabel_done env clear pid new_label user.id w p found g fit narrow known fresh in
          let new = relabelled env new_label user.id p w.draws in
          let same : p.id ≡ pid = key-row prediction_id pid p w.db.predictions found in
          rw (may, returned)
            (inr
              (inr (g, narrow, refl, rw left (row-replaced pid new p w.db.predictions same found))))
      | inr wide ↦
          let (raised, left) = relabel_wide env clear pid new_label user.id w p found g fit wide in
          rw (may, raised) (inr (inl (g, wide, refl, left)))
    ]

    by_row :
        (o : Option Prediction)
        → row prediction_id pid w.db.predictions ≡ o
        → all prediction_fits w.db.predictions ≡ true
        → let (answer, w') = relabel_endpoint env clear casbin user pid new_label w in
          Answered o answer w'
    unfolding endpoint
    by_row none found fit =
        rw (may, relabel_missing env clear pid new_label user.id w found) (refl, refl)
    by_row (some p) found fit =
        elim (Bool-cases (float_ge p.top1_confidence relabel_confidence_threshold)) [
          | inl g ↦
              rw (may, relabel_sure env clear pid new_label user.id w p found g)
                (inl (g, refl, refl))
          | inr g ↦
              unsure-Answered p found
                (all_at_row prediction_id prediction_fits pid p w.db.predictions found fit) g
        ]

    pub relabel_endpoint-Answered :
        all prediction_fits w.db.predictions ≡ true
        → let (answer, w') = relabel_endpoint env clear casbin user pid new_label w in
          Answered (row prediction_id pid w.db.predictions) answer w'
    relabel_endpoint-Answered fit = by_row (row prediction_id pid w.db.predictions) refl fit
