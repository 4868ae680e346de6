-- ===== src/Repositories/Predictions.antt =====
-- repositories/prediction_repository.py
pub mod Success
use mathlib.Core.Option
use dropsort.Prelude.{
  ⊤, ℕ, String, Bool, true, false, not, Option, none, some, List, [], ◌∷◌, ◌++◌, map, str_eq, ◌||◌,
  any, ◌==◌, select,
}
use dropsort.Prelude.Float.{Float}
use dropsort.Domain.{Uuid, PredictionOut, TopKItem}
use dropsort.Db.{User, Batch, Prediction, Db, prediction_fits}
use dropsort.Db.Tables.{row, has, replace}
use dropsort.Db.Order.{newest_first, oldest_first, page}
use dropsort.Exec.{Result, ok, err, Exc, integrity_error, pure, ◌>>=◌, ◌>>◌}
use dropsort.Session.{Env, Session, Tx, gets, draw, write, rollback}

-- `_to_out`
abbrev pub prediction_out : Prediction → PredictionOut
prediction_out p = record {
  id = p.id;
  batch_id = p.batch_id;
  filename = p.filename;
  label = p.label;
  top1_confidence = p.top1_confidence;
  top5 = p.top5_json;
  minio_overlay_key = p.minio_overlay_key;
  relabel_label = p.relabel_label;
  relabel_actor_id = p.relabel_actor_id;
  relabel_at = p.relabel_at;
  created_at = p.created_at;
}

unfoldable pub list_recent : ℕ → Tx (List PredictionOut)
unfolding newest_first
list_recent limit = gets (λ db.
    map prediction_out
      (page 0 limit (newest_first (λ (p : Prediction). p.created_at) db.predictions)))

unfoldable pub list_for_batch : Uuid → Tx (List PredictionOut)
unfolding oldest_first
list_for_batch batch_id = gets (λ db. map prediction_out (
    oldest_first (λ (p : Prediction). p.created_at)
      (select (λ (p : Prediction). p.batch_id == batch_id) db.predictions)))

abbrev pub get_by_id : Uuid → Tx (Option PredictionOut)
get_by_id pid =
    gets (λ db. Option.map prediction_out (row (λ (p : Prediction). p.id) pid db.predictions))

-- The arguments of `create` and of `record_prediction`, without the batch.
pub record NewPrediction : Type 0 where
  pub filename : String
  pub content_sha256 : String
  pub minio_input_key : String
  pub minio_overlay_key : Option String
  pub label : String
  pub top1_confidence : Float
  pub top5 : List TopKItem

abbrev pub has_sha : String → Prediction → Bool
has_sha sha p = str_eq p.content_sha256 sha

-- The primary key, the unique hash, and the foreign key to the batch.
abbrev pub prediction_clash : Prediction → Db → Bool
prediction_clash p db =
    has (λ (q : Prediction). q.id) p.id db.predictions
    || any (has_sha p.content_sha256) db.predictions
    || not (has (λ (b : Batch). b.id) p.batch_id db.batches)

abbrev pub insert_prediction : Prediction → Tx ⊤
insert_prediction p =
    write (prediction_fits p) (prediction_clash p)
      (λ db. record db { predictions = db.predictions ++ p ∷ [] })

-- `try: flush() except IntegrityError: rollback(); return None`
abbrev pub skip_duplicate : Prediction → Result ⊤ → Tx (Option PredictionOut)
skip_duplicate p (ok _) = pure (some (prediction_out p))
skip_duplicate p (err integrity_error) = do rollback; pure none
skip_duplicate p (err e) = λ s. (err e, s)

abbrev pub try_insert : Prediction → Tx (Option PredictionOut)
try_insert p s = let (r, s') = insert_prediction p s in skip_duplicate p r s'

module _ (env : Env) where
  abbrev pub new_prediction : Uuid → NewPrediction → ℕ → Prediction
  new_prediction batch_id a n = record {
    id = env.uuid4 n;
    batch_id = batch_id;
    filename = a.filename;
    content_sha256 = a.content_sha256;
    minio_input_key = a.minio_input_key;
    minio_overlay_key = a.minio_overlay_key;
    label = a.label;
    top1_confidence = a.top1_confidence;
    top5_json = a.top5;
    relabel_label = none;
    relabel_actor_id = none;
    relabel_at = none;
    created_at = env.now n;
  }

  unfoldable pub create : Uuid → NewPrediction → Tx (Option PredictionOut)
  create batch_id a = do n ← draw; try_insert (new_prediction batch_id a n)

  abbrev pub relabelled : String → Uuid → Prediction → ℕ → Prediction
  relabelled new_label actor_id p n = record p {
    relabel_label = some new_label;
    relabel_actor_id = some actor_id;
    relabel_at = some (env.now n);
  }

  -- The foreign key to the actor.
  abbrev pub update_prediction : Prediction → Uuid → Tx ⊤
  update_prediction p actor_id =
      write (prediction_fits p) (λ db. not (has (λ (u : User). u.id) actor_id db.users))
        (λ db. record db { predictions = replace (λ (q : Prediction). q.id) p db.predictions })

  abbrev pub relabel_row : String → Uuid → Option Prediction → Tx (Option PredictionOut)
  relabel_row new_label actor_id none = pure none
  relabel_row new_label actor_id (some p) = do
    n ← draw
    update_prediction (relabelled new_label actor_id p n) actor_id
    pure (some (prediction_out (relabelled new_label actor_id p n)))

  unfoldable pub relabel : Uuid → String → Uuid → Tx (Option PredictionOut)
  relabel pid new_label actor_id = do
    found ← gets (λ db. row (λ (p : Prediction). p.id) pid db.predictions)
    relabel_row new_label actor_id found
