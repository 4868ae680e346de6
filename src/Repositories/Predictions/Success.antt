-- ===== src/Repositories/Predictions/Success.antt =====
-- What `create` and `relabel` did to the table `predictions` where they returned.
use dropsort.Prelude.{
  ◌+◌, String, ◌≡◌, true, false, none, some, [], ◌∷◌, ◌++◌, arith, inl, inr, Option-cases,
}
use dropsort.Domain.{Uuid, PredictionOut}
use dropsort.Db.{Prediction, prediction_fits}
use dropsort.Db.Tables.{row, has, replace}
use dropsort.Db.Invariant.{prediction_id, user_id}
use dropsort.Exec.{ok}
use dropsort.Session.{Env, Session}
use dropsort.Repositories.Predictions.{
  NewPrediction, create, new_prediction, prediction_clash, prediction_out, relabel, relabelled,
}

module _ (env : Env) (batch_id : Uuid) (a : NewPrediction) (s t : Session) where
  pub create-eq-some :
      (o : PredictionOut)
      → create env batch_id a s ≡ (ok (some o), t)
      → let p = new_prediction env batch_id a s.draws in
        (prediction_fits p ≡ true)
        × (prediction_clash p s.db ≡ false)
        × (o ≡ prediction_out p)
        × (t ≡ record s {
          db = record s.db { predictions = s.db.predictions ++ p ∷ [] };
          draws = s.draws + 1;
        })
  unfolding create
  create-eq-some o h = ground arith

  -- A duplicate rolls the whole transaction back.
  pub create-eq-none : create env batch_id a s ≡ (ok none, t) → t.db ≡ s.start
  unfolding create
  create-eq-none h = ground arith

-- A row that fits and clashes is skipped.
pub create-clash :
    (env : Env) (batch_id : Uuid) (a : NewPrediction) (s : Session)
    → prediction_fits (new_prediction env batch_id a s.draws) ≡ true
    → prediction_clash (new_prediction env batch_id a s.draws) s.db ≡ true
    → create env batch_id a s ≡ (ok none, record s { db = s.start; draws = s.draws + 1 })
unfolding create
create-clash env batch_id a s fit clash = ground arith

-- A row that fits and clashes with none is inserted.
pub create-made :
    (env : Env) (batch_id : Uuid) (a : NewPrediction) (s : Session)
    → let p = new_prediction env batch_id a s.draws in
      prediction_fits p ≡ true
      → prediction_clash p s.db ≡ false
      → create env batch_id a s ≡ (
        ok (some (prediction_out p)),
        record s {
          db = record s.db { predictions = s.db.predictions ++ p ∷ [] };
          draws = s.draws + 1;
        },
      )
unfolding create
create-made env batch_id a s fit clash = ground arith

module _ (env : Env) (pid : Uuid) (new_label : String) (actor_id : Uuid) (s t : Session)
    (o : PredictionOut) where
  pub relabel-eq-ok :
      relabel env pid new_label actor_id s ≡ (ok (some o), t)
      → (old : Prediction) × (row prediction_id pid s.db.predictions ≡ some old)
        × (has user_id actor_id s.db.users ≡ true)
        × (o ≡ prediction_out (relabelled env new_label actor_id old s.draws))
        × (t.db ≡ record s.db {
          predictions =
              replace prediction_id
                (relabelled env new_label actor_id old s.draws)
                s.db.predictions;
        })
  unfolding relabel
  relabel-eq-ok h = elim (Option-cases (row prediction_id pid s.db.predictions)) [
    | inl e ↦ ground arith
    | inr (old, e) ↦ (old, e, ground arith, ground arith, ground arith)
  ]
