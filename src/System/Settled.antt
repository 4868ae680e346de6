-- ===== src/System/Settled.antt =====
-- The state `processing` of a batch under every event of the program.
use dropsort.Prelude.{
  String, ◌≡◌, ◌≢◌, ap, ◌∙◌, sym, find?, find?-append, Option, none, some, List, [], ◌∷◌, ◌++◌,
  arith, ◌==◌, Bool-cases, Option-cases, inl, inr, ==_iff,
}
use dropsort.Domain.{Uuid, PredictionOut, processing}
use dropsort.Db.{Db, Batch, batch_fits}
use dropsort.Db.Tables.{row}
use dropsort.Db.Invariant.{IsValid, batch_id}
use dropsort.Session.{draw}
use dropsort.Session.Keeps.{Keeps, Keeps-bind, Keeps-draw, Keeps-gets, Keeps-pure, Keeps-write}
use dropsort.Service.{World}
use dropsort.Service.Success.{Outcome-keeps}
use dropsort.Repositories.Batches.{
  upsert_external, get_or_create, insert_batch, new_batch, batch_out, has_external, batch_clash,
}
use dropsort.Repositories.Batches.Success.{Focused}
use dropsort.Repositories.Predictions.{NewPrediction}
use dropsort.Services.PredictionService.{record_prediction, mark_batch_failed, relabel}
use dropsort.Services.PredictionService.Recording.{Answered, record_prediction-Outcome}
use dropsort.Services.PredictionService.Relabelling.{Relabelled, relabel-Outcome}
use dropsort.Services.PredictionService.Failing.{Failed, mark_batch_failed-Outcome}
use dropsort.Services.BatchUploadService.Keeping.{enqueue_browser_tiff-KeepsDb}
use dropsort.Workers.SftpIngest.Keeping.{ingest_once-KeepsDb}
use dropsort.System.{
  Event, administered, relabelling, upload, recording, failure, round, Setting, perform, Reachable,
  Reachable-keeps,
}
use dropsort.System.Untouched.{execute-SameScans}
use dropsort.System.Validity.{perform-IsValid}

-- No batch of the table is being processed.
abbrev pub IsSettled : List Batch → Type 0
IsSettled batches = (k : Uuid) (b : Batch) → row batch_id k batches ≡ some b → b.state ≢ processing

module _ (c : Setting) where
  -- A batch in focus that is not being processed, among others that are as before.
  Focused-IsSettled :
      (external_id : String) (b : Batch) (db db' : Db)
      → Focused external_id b db db'
      → b.state ≢ processing
      → IsSettled db.batches
      → IsSettled db'.batches
  Focused-IsSettled external_id b db db' f n h k d e = elim (Bool-cases (b.id == k)) [
    | inl t ↦
        let same : some b ≡ some d =
          sym f.here ∙ ap (λ (i : Uuid). row batch_id i db'.batches) ((==_iff b.id k).0 t) ∙ e in
        ground arith
    | inr t ↦ h k d (sym (f.others k (ground arith)) ∙ e)
  ]

  append-IsSettled :
      (b : Batch) (batches : List Batch)
      → b.state ≢ processing
      → IsSettled batches
      → IsSettled (batches ++ b ∷ [])
  append-IsSettled b batches n h k d e = elim (Option-cases (row batch_id k batches)) [
    | inl a ↦ ground (arith, find?-append (λ (x : Batch). batch_id x == k) batches (b ∷ []))
    | inr (x, a) ↦
        ground (arith, find?-append (λ (x : Batch). batch_id x == k) batches (b ∷ []), h k x a)
  ]

  abbrev Settled : Db → Type 0
  Settled db = IsSettled db.batches

  upsert-Settled : (external_id : String) → Keeps Settled (upsert_external c.env external_id)
  unfolding upsert_external
  upsert-Settled external_id =
      Keeps-bind _ _ (Keeps-gets (λ db. find? (has_external external_id) db.batches)) found
    where
      found : (o : _) → Keeps Settled (get_or_create c.env external_id o)
      found (some b) = Keeps-pure (batch_out b)
      found none = Keeps-bind draw _ Keeps-draw λ n.
          let b = new_batch c.env external_id n in
          Keeps-bind (insert_batch c.env external_id b) _
            (Keeps-write (batch_fits b) (batch_clash b external_id) _
              λ db h clash. append-IsSettled b db.batches (λ e. cc) h)
            (λ _. Keeps-pure (batch_out b))

  record-Settled :
      (external_id : String) (args : NewPrediction) (db db' : Db) (o : Option PredictionOut)
      → Answered c.env external_id args db o db'
      → Settled db
      → Settled db'
  record-Settled external_id args db db' none k h = rw k h
  record-Settled external_id args db db' (some out) k h =
      Focused-IsSettled external_id k.batch _ db' k.focus (λ e. ground (arith, k.is_complete)) h

  perform-Settled :
      (e : Event) (w : World) → IsValid w.db × Settled w.db → Settled (perform c e w).db
  unfolding perform
  perform-Settled (administered actor_id command) w h =
      rw ((execute-SameScans c.env c.clear actor_id command w).0) (h.1)
  perform-Settled (relabelling pid new_label actor_id) w h =
      let (r, w') = relabel c.env c.clear pid new_label actor_id w in
      Outcome-keeps Settled w.db (Relabelled c.env pid new_label actor_id w.db)
        (λ out db' k. rw (k.db_lem) (h.1)) h.1 r w'
        (relabel-Outcome c.env c.clear pid new_label actor_id w)
  perform-Settled (upload bytes filename) w h =
      (enqueue_browser_tiff-KeepsDb c.env c.clear c.content upsert-Settled c.max_mb bytes
          filename).at
        w h.1
  perform-Settled (recording external_id args) w h =
      let (r, w') = record_prediction c.env c.clear external_id args w in
      Outcome-keeps Settled w.db (Answered c.env external_id args w.db)
        (λ o db' k. record-Settled external_id args w.db db' o k h.1) h.1 r w'
        (record_prediction-Outcome c.env c.clear external_id args w h.0.batches)
  perform-Settled (failure external_id filename reason) w h =
      let (r, w') = mark_batch_failed c.env c.clear external_id filename reason w in
      Outcome-keeps Settled w.db (λ _ db'. Failed c.env external_id filename reason w.db db')
        (λ _ db' k.
          Focused-IsSettled external_id k.batch _ db' k.focus (λ e. ground (arith, k.is_failed))
            h.1)
        h.1 r w' (mark_batch_failed-Outcome c.env c.clear external_id filename reason w h.0.batches)
  perform-Settled round w h = (ingest_once-KeepsDb {P = Settled} c.env c.content c.max_mb).at w h.1

  -- No state that can be reached from valid tables without a batch in `processing` has one.
  pub Reachable-IsSettled :
      (w v : World)
      → Reachable c w v
      → IsValid w.db
      → IsSettled w.db.batches
      → IsSettled v.db.batches
  Reachable-IsSettled w v r valid h =
      (Reachable-keeps c (λ u. IsValid u.db × Settled u.db)
        (λ e u k. (perform-IsValid c e u k.0, perform-Settled e u k)) w v r (valid, h)).1
