-- ===== src/Services/PredictionService/Recording.antt =====
-- services/prediction_service.py: the outcome of `record_prediction`.
use mathlib.Core.Option
use dropsort.Prelude.{
  ℕ, ◌+◌, String, ◌≡◌, refl, ◌∙◌, true, false, Option, none, some, [], ◌∷◌, ◌++◌, arith, any,
}
use dropsort.Domain.{BatchOut, PredictionOut, BatchState, received, processing, complete, failed}
use dropsort.Db.{Db, Batch, Prediction, prediction_fits}
use dropsort.Db.Tables.{row, has, replace}
use dropsort.Db.Invariant.{BatchesValid, batch_id, prediction_id}
use dropsort.Exec.{Result, ok, ◌>>=◌, ◌>>◌}
use dropsort.Exec.Success.{bind-eq-ok}
use dropsort.Session.{Env, Session}
use dropsort.Service.{World, Clear, begin}
use dropsort.Service.Success.{Outcome, begin-Outcome, continue-Outcome}
use dropsort.Repositories.Batches.{batch_out, with_state, upsert_external}
use dropsort.Repositories.Batches.Success.{
  Focused, upsert_external-eq-ok, set_state-row, with_state-Focused,
}
use dropsort.Repositories.Predictions
use dropsort.Repositories.Predictions.{
  NewPrediction, new_prediction, prediction_clash, prediction_out, has_sha,
}
use dropsort.Repositories.Predictions.Success.{create-eq-some, create-eq-none}
use dropsort.Services.PredictionService.{
  record_prediction, record_tx, advance, complete_batch, after_record,
}

-- Before a new file is inserted the batch is in focus, and no other table has changed.
module _ (env : Env) (external_id : String) (db : Db) where
  pub record Advanced (b : Batch) (s : Session) (m : Result (Option BatchOut) × Session)
      : Type 0 where
    pub batch : Batch
    pub after : Session
    pub answer : Option BatchOut
    pub returned : m ≡ (ok answer, after)
    pub focus : Focused external_id batch db after.db
    pub id_lem : batch.id ≡ b.id
    pub start_lem : after.start ≡ s.start

  idle :
      (b : Batch) (s : Session) (m : Result (Option BatchOut) × Session)
      → m ≡ (ok none, s)
      → Focused external_id b db s.db
      → Advanced b s m
  idle b s m e f = record {
    batch = b;
    after = s;
    answer = none;
    returned = e;
    focus = f;
    id_lem = refl;
    start_lem = refl;
  }

  pub advance_at :
      (st : BatchState) (b : Batch) (s : Session)
      → b.state ≡ st
      → Focused external_id b db s.db
      → Advanced b s (advance env (batch_out b) s)
  advance_at received b s e f =
      let b' = with_state processing b (env.now s.draws) in
      record {
        batch = b';
        after = record s {
          db = record s.db { batches = replace batch_id b' s.db.batches };
          draws = s.draws + 1;
        };
        answer = some (batch_out b');
        returned = rw e (set_state-row env processing b b.id s f.here);
        focus = with_state-Focused external_id b processing (env.now s.draws) db s.db f;
        id_lem = refl;
        start_lem = refl;
      }
  advance_at processing b s e f = idle b s _ (rw e refl) f
  advance_at complete b s e f = idle b s _ (rw e refl) f
  advance_at failed b s e f = idle b s _ (rw e refl) f

module _ (env : Env) (external_id : String) (args : NewPrediction) (db : Db) where
  -- A new prediction and its complete batch: all that a recorded file changes.
  pub record Recorded (created : PredictionOut) (db' : Db) : Type 0 where
    pub batch : Batch
    pub moment : ℕ
    pub is_complete : batch.state ≡ complete
    pub out_lem : created ≡ prediction_out (new_prediction env batch.id args moment)
    pub fit : prediction_fits (new_prediction env batch.id args moment) ≡ true
    pub new_id : has prediction_id (env.uuid4 moment) db.predictions ≡ false
    pub new_sha : any (has_sha args.content_sha256) db.predictions ≡ false
    pub focus :
        Focused external_id batch
          (record db {
            predictions = db.predictions ++ new_prediction env batch.id args moment ∷ [];
          })
          db'

  insert-Focused :
      (b : Batch) (p : Prediction) (s t : Session)
      → Focused external_id b db s.db
      → t.db ≡ record s.db { predictions = s.db.predictions ++ p ∷ [] }
      → Focused external_id b (record db { predictions = db.predictions ++ p ∷ [] }) t.db
  insert-Focused b p s t f e = record {
    db_lem = ground (arith, f.db_lem);
    here = ground (arith, f.here);
    name = f.name;
    others = λ k ne. ground (arith, f.others k ne);
  }

  -- The batch's row is in focus when the prediction is inserted.
  insert-Recorded :
      (b : Batch) (bo : BatchOut) (s t : Session) (o : Option PredictionOut)
      (made : BatchOut × PredictionOut) (t' : Session)
      → Focused external_id b db s.db
      → b.id ≡ bo.id
      → Predictions.create env bo.id args s ≡ (ok o, t)
      → complete_batch env bo o t ≡ (ok (some made), t')
      → Recorded made.1 t'.db
  insert-Recorded b bo s t none made t' f e c k = ground arith
  insert-Recorded b bo s t (some o) made t' f e c k =
      let (fit, clash, out, after) = create-eq-some env bo.id args s t o c in
      let p = new_prediction env b.id args s.draws in
      let b' = with_state complete b (env.now t.draws) in
      let mid : Focused external_id b (record db { predictions = db.predictions ++ p ∷ [] }) t.db =
        insert-Focused b p s t f (ground arith) in
      let set : row batch_id bo.id t.db.batches ≡ some b = ground (arith, mid.here) in
      let done = set_state-row env complete b bo.id t set in
      let left : t'.db ≡ record t.db { batches = replace batch_id b' t.db.batches } =
        ground arith in
      record {
        batch = b';
        moment = s.draws;
        is_complete = refl;
        out_lem = ground (arith);
        fit = ground (arith);
        new_id = ground (arith, f.db_lem);
        new_sha = ground (arith, f.db_lem);
        focus = rw left (with_state-Focused external_id b complete (env.now t.draws) _ t.db mid);
      }

  -- A skipped file leaves the tables as they were, and a recorded one is `Recorded`.
  abbrev pub Answered : Option PredictionOut → Db → Type 0
  Answered none db' = db' ≡ db
  Answered (some created) db' = Recorded created db'

  abbrev second : BatchOut × PredictionOut → PredictionOut
  second made = made.1

  abbrev Kept : Option (BatchOut × PredictionOut) → Db → Type 0
  Kept o db' = Answered (Option.map second o) db'

  insert-Kept :
      (b : Batch) (bo : BatchOut) (s t : Session) (o : Option PredictionOut)
      (made : Option (BatchOut × PredictionOut)) (t' : Session)
      → Focused external_id b db s.db
      → s.start ≡ db
      → b.id ≡ bo.id
      → Predictions.create env bo.id args s ≡ (ok o, t)
      → complete_batch env bo o t ≡ (ok made, t')
      → Kept made t'.db
  insert-Kept b bo s t none none t' f e i c k = ground (arith, create-eq-none env bo.id args s t c)
  insert-Kept b bo s t none (some made) t' f e i c k = ground arith
  insert-Kept b bo s t (some o) none t' f e i c k = ground arith
  insert-Kept b bo s t (some o) (some made) t' f e i c k =
      insert-Recorded b bo s t (some o) made t' f i c k

  rest-Kept :
      (b : Batch) (s t : Session) (made : Option (BatchOut × PredictionOut))
      → Focused external_id b db s.db
      → s.start ≡ db
      → (do
        advance env (batch_out b)
        created ← Predictions.create env b.id args
        complete_batch env (batch_out b) created)
          s
        ≡ (ok made, t)
      → Kept made t.db
  rest-Kept b s t made f e h =
      let a = advance_at env external_id db b.state b s refl f in
      let tail : (do
        created ← Predictions.create env b.id args
        complete_batch env (batch_out b) created)
            a.after
          ≡ (ok made, t) =
        ground (arith, a.returned) in
      let (o, s', c, k) =
        bind-eq-ok (Predictions.create env b.id args) (complete_batch env (batch_out b)) a.after
          tail in
      insert-Kept a.batch (batch_out b) a.after s' o made t a.focus (a.start_lem ∙ e) a.id_lem c k

  record_tx-Kept :
      (n : ℕ) (t : Session) (made : Option (BatchOut × PredictionOut))
      → BatchesValid db.batches
      → record_tx env external_id args (record { start = db; db = db; draws = n }) ≡ (ok made, t)
      → Kept made t.db
  record_tx-Kept n t made v h =
      let s : Session = record { start = db; db = db; draws = n } in
      let (bo, s', u, k) = bind-eq-ok (upsert_external env external_id) _ s h in
      let (b, out, f, e) = upsert_external-eq-ok env external_id s s' bo v u in
      rest-Kept b s' t made f e (ground arith)

module _ (env : Env) (clear : Clear) (external_id : String) (args : NewPrediction) (db : Db) where
  after_record-Answered :
      (made : Option (BatchOut × PredictionOut)) (w : World)
      → Kept env external_id args db made w.db
      → Outcome db (Answered env external_id args db) (after_record env clear made w)
  after_record-Answered none w h = h
  after_record-Answered (some made) w h = h

module _ (env : Env) (clear : Clear) (external_id : String) (args : NewPrediction) (w : World) where
  -- On tables whose batch keys and names are unique, `record_prediction` raises and leaves the tables,
  -- returns None and leaves the tables, or appends one prediction with a new hash and leaves the batch
  -- of the external name complete, every other batch and table as it was.
  pub record_prediction-Outcome :
      BatchesValid w.db.batches
      → Outcome w.db
          (Answered env external_id args w.db)
          (record_prediction env clear external_id args w)
  unfolding record_prediction
  record_prediction-Outcome v =
      let tx =
        begin-Outcome (Kept env external_id args w.db) (record_tx env external_id args) w
          (λ made t h. record_tx-Kept env external_id args w.db w.draws t made v h) in
      let (r, w') = begin (record_tx env external_id args) w in
      continue-Outcome w.db (Kept env external_id args w.db) (Answered env external_id args w.db) r
        w' (after_record env clear) tx (after_record-Answered env clear external_id args w.db)
