-- ===== src/Workers/Jobs/Outcomes.antt =====
-- workers/jobs.py: the tables after a classification job.
use mathlib.Core.Path.{subst, subst⁻¹}
use dropsort.Prelude.{
  ⊤, ◌≡◌, refl, Option, some, List, [], ◌∷◌, map, take, find?, str_eq, String, All, format,
  Bool-cases, Option-cases, inl, inr,
}
use dropsort.Prelude.Float.{Float}
use dropsort.Domain.{PredictionOut, TopKItem}
use dropsort.Db.{Db}
use dropsort.Db.Invariant.{BatchesValid}
use dropsort.Exec.{Result, ok, err, continue, pure, ◌>>=◌, ◌>>◌}
use dropsort.Session.{Env}
use dropsort.Service.{World, Clear, Action, Bytes, Job, StoredObject}
use dropsort.Service.Keeps.{KeepsDb}
use dropsort.Service.Success.{Outcome, continue-Outcome}
use dropsort.Infra.{upload_bytes, download_bytes}
use dropsort.Infra.Keeps.{upload_bytes-KeepsDb}
use dropsort.Classifier.{Network, Classified, classify, make_overlay}
use dropsort.Services.BatchUploadService.{from_result}
use dropsort.Services.PredictionService.{record_prediction}
use dropsort.Services.PredictionService.Recording.{Answered, record_prediction-Outcome}
use dropsort.Workers.Jobs.{run_classification_job, arguments, overlay_key, normalise_top5, as_pair}
use dropsort.Workers.Jobs.Five.{IsScore, top_item, normalise_top5-ok}

module _ {ℓ κ} {A : Type ℓ} {B : Type κ} (db : Db) (Q : B → Db → Type 0) where
  -- A step that leaves the tables, and the rest.
  framed-Outcome :
      (m : Action A) (f : A → Action B) (w : World)
      → KeepsDb (λ d. d ≡ db) m
      → w.db ≡ db
      → ((a : A) (v : World) → v.db ≡ db → Outcome db Q (f a v))
      → Outcome db Q ((m >>= f) w)
  framed-Outcome m f w k e g =
      let (r, v) = m w in continue-Outcome db (λ _ d. d ≡ db) Q r v f (left r v (k.at w e)) g
    where
      left : (r : Result A) (v : World) → v.db ≡ db → Outcome db (λ _ d. d ≡ db) (r, v)
      left (ok a) v h = h
      left (err x) v h = h

module _ (env : Env) (clear : Clear) (net : Network) (job : Job) (w : World) where
  -- The job classified the newest object under its key, and recorded what the network made of it, with
  -- the name, the hash and the key of the job, the key of its overlay and the five first classes, or
  -- skipped it as a duplicate.
  pub record JobDone (db' : Db) : Type 0 where
    pub object : StoredObject
    pub prediction : Classified
    pub answer : Option PredictionOut
    pub found : find? (λ (o : StoredObject). str_eq o.key job.object_key) w.objects ≡ some object
    pub classified : classify net object.content ≡ ok prediction
    pub scores : All (λ (x : String × Float). IsScore x.1) (take 5 prediction.top5)
    pub recorded :
        Answered env job.batch_id
          (record {
            filename = job.filename;
            content_sha256 = job.content_sha256;
            minio_input_key = job.object_key;
            minio_overlay_key =
                some (format ("overlays/" ∷ job.batch_id ∷ "/" ∷ job.filename ∷ ".png" ∷ []));
            label = prediction.label;
            top1_confidence = prediction.top1_confidence;
            top5 = map top_item (take 5 prediction.top5);
          })
          w.db
          answer
          db'

  abbrev Done : ⊤ → Db → Type 0
  Done _ db' = JobDone db'

  -- The bytes are those of the newest object under the key.
  abbrev Downloaded : Result Bytes → Type 0
  Downloaded (err e) = ⊤
  Downloaded (ok image) =
      (o : StoredObject) × (find? (λ (o : StoredObject). str_eq o.key job.object_key) w.objects
        ≡ some o)
      × (o.content ≡ image)

  download_bytes-Downloaded :
      let (r, v) = download_bytes env job.object_key w in (v.db ≡ w.db) × Downloaded r
  unfolding download_bytes
  download_bytes-Downloaded = elim (Bool-cases (env.fails w.draws)) [
    | inl t ↦ rw t (refl, tt)
    | inr f ↦
        elim (Option-cases (find? (λ (o : StoredObject). str_eq o.key job.object_key) w.objects)) [
          | inl e ↦ rw (f, e) (refl, tt)
          | inr (o, e) ↦ rw (f, e) (refl, (o, e, refl))
        ]
  ]

  module _ (o : StoredObject)
      (found : find? (λ (x : StoredObject). str_eq x.key job.object_key) w.objects ≡ some o)
      (p : Classified) (e : classify net o.content ≡ ok p) where
    recorded_job :
        (raised : Result (List TopKItem)) (v : World)
        → normalise_top5 (map as_pair p.top5) ≡ raised
        → BatchesValid v.db.batches
        → v.db ≡ w.db
        → Outcome w.db Done (
            (do
              top5 ← from_result raised
              record_prediction env clear job.batch_id (arguments job p top5)
              pure tt)
              v)
    recorded_job (err x) v n valid same = same
    recorded_job (ok top5) v n valid same =
        let args = arguments job p top5 in
        let (r, u) = record_prediction env clear job.batch_id args v in
        let (scores, first) = normalise_top5-ok p.top5 top5 n in
        continue-Outcome w.db (Answered env job.batch_id args w.db) Done r u (λ _. pure tt)
          (subst (λ (x : Db). Outcome x (Answered env job.batch_id args x) (r, u)) same
            (record_prediction-Outcome env clear job.batch_id args v valid))
          (λ answer w' k. record {
            object = o;
            prediction = p;
            answer = answer;
            found = found;
            classified = e;
            scores = scores;
            recorded =
                subst
                  (λ (l : List TopKItem).
                    Answered env job.batch_id (arguments job p l) w.db answer w'.db)
                  first k;
          })

    uploaded_job :
        (drawn : Result Bytes) (v : World)
        → BatchesValid w.db.batches
        → v.db ≡ w.db
        → Outcome w.db Done (
            (do
              overlay ← from_result drawn
              upload_bytes env (overlay_key job) overlay "image/png"
              top5 ← from_result (normalise_top5 (map as_pair p.top5))
              record_prediction env clear job.batch_id (arguments job p top5)
              pure tt)
              v)
    uploaded_job (err x) v valid same = same
    uploaded_job (ok overlay) v valid same =
        framed-Outcome w.db Done (upload_bytes env (overlay_key job) overlay "image/png") _ v
          (upload_bytes-KeepsDb env _ overlay _) same
          (λ _ u d.
            recorded_job (normalise_top5 (map as_pair p.top5)) u refl
              (subst⁻¹ (λ (x : Db). BatchesValid x.batches) d valid) d)

  classified_job :
      (o : StoredObject) (r : Result Classified) (v : World)
      → find? (λ (x : StoredObject). str_eq x.key job.object_key) w.objects ≡ some o
      → classify net o.content ≡ r
      → BatchesValid w.db.batches
      → v.db ≡ w.db
      → Outcome w.db Done (
          (do
            prediction ← from_result r
            overlay ← from_result (make_overlay net o.content prediction)
            upload_bytes env (overlay_key job) overlay "image/png"
            top5 ← from_result (normalise_top5 (map as_pair prediction.top5))
            record_prediction env clear job.batch_id (arguments job prediction top5)
            pure tt)
            v)
  classified_job o (err x) v found e valid same = same
  classified_job o (ok p) v found e valid same =
      uploaded_job o found p e (make_overlay net o.content p) v valid same

  abbrev rest : Bytes → Action ⊤
  rest image = do
    prediction ← from_result (classify net image)
    overlay ← from_result (make_overlay net image prediction)
    upload_bytes env (overlay_key job) overlay "image/png"
    top5 ← from_result (normalise_top5 (map as_pair prediction.top5))
    record_prediction env clear job.batch_id (arguments job prediction top5)
    pure tt

  finished_job :
      (r : Result Bytes) (v : World)
      → BatchesValid w.db.batches
      → v.db ≡ w.db
      → Downloaded r
      → Outcome w.db Done (continue r rest v)
  finished_job (err x) v valid same h = same
  finished_job (ok image) v valid same (o, found, read) =
      subst (λ (bytes : Bytes). Outcome w.db Done (rest bytes v)) read
        (classified_job o (classify net o.content) v found refl valid same)

  pub run_classification_job-Outcome :
      BatchesValid w.db.batches
      → Outcome w.db (λ _ db'. JobDone db') (run_classification_job env clear net job w)
  unfolding run_classification_job
  run_classification_job-Outcome valid =
      let (r, v) = download_bytes env job.object_key w in
      let (same, read) = download_bytes-Downloaded in finished_job r v valid same read
