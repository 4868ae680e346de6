-- ===== src/Tests/Pipeline.antt =====
-- Predictions, uploads and a round of the poller: runs, and the theorems at these inputs.

use dropsort.Prelude.{
  true, ◌≤◌, arith, Memᴰ, sym, ◌∙◌, hex, ℕ, String, ◌≡◌, refl, none, List, [], ◌∷◌, uuid_str,
  length, map,
}
use dropsort.Prelude.Float.{scaled}
use dropsort.Service.{World, StoredObject, Job, ScannedFile}
use dropsort.Service.Success.{Outcome}
use dropsort.Infra.{upload_bytes, enqueue_classification_job, list_files, read_file, delete_file}
use dropsort.Prelude.Paths.{contains, lower, path_name, split, from_dot}
use dropsort.Infra.Triples.{Post, On}
use dropsort.Pipeline.{Content, verified, validate_tiff, IsAccepted}
use dropsort.Db.{prediction_fits}
use dropsort.Exec.{ok}
use dropsort.Repositories.Predictions.{NewPrediction, new_prediction}
use dropsort.Services.PredictionService.{record_prediction, relabel, mark_batch_failed}
use dropsort.Services.PredictionService.Recording.{Answered, record_prediction-Outcome}
use dropsort.Services.PredictionService.Duplicates.{record_prediction-duplicate}
use dropsort.Services.PredictionService.Relabelling.{Relabelled, relabel-Outcome}
use dropsort.Services.PredictionService.Failing.{Failed, mark_batch_failed-Outcome}
use dropsort.Services.BatchUploadService.{enqueue_browser_tiff}
use dropsort.Services.BatchUploadService.Outcomes.{
  Unchanged, Enqueued, enqueue_browser_tiff-Outcome,
}
use dropsort.Workers.SftpIngest.{ingest_once, poll}
use dropsort.Workers.SftpIngest.Keys.{IsUuid4}
use dropsort.Workers.SftpIngest.Custody.{Custody, IsFolder}
use dropsort.Workers.SftpIngest.Rounds.{poll-Custody}
use dropsort.Tests.Fixture.{test_env, clear_prefix, batch, world, tables-IsValid}

abbrev pub scan : NewPrediction
scan = record {
  filename = "b.tif";
  content_sha256 = "bb";
  minio_input_key = "incoming/scan-2/b.tif";
  minio_overlay_key = none;
  label = "invoice";
  top1_confidence = scaled 1 1;
  top5 = [];
}

record_prediction-Outcome_example :
    Outcome world.db
      (Answered test_env "scan-2" scan world.db)
      (record_prediction test_env clear_prefix "scan-2" scan world)
record_prediction-Outcome_example =
    record_prediction-Outcome test_env clear_prefix "scan-2" scan world tables-IsValid.batches

abbrev known : NewPrediction
known = record scan { content_sha256 = "aa" }

-- Its texts fit in the batch of the fixture.
known-fits : prediction_fits (new_prediction test_env 0 known 0) ≡ true
unfolding prediction_fits contains
known-fits = refl

record_prediction-duplicate_example :
    let (r, w') = record_prediction test_env clear_prefix "scan-1" known world in
    (r ≡ ok none) × (w'.db ≡ world.db) × (w'.cache ≡ world.cache)
record_prediction-duplicate_example =
    record_prediction-duplicate test_env clear_prefix "scan-1" known batch world
      tables-IsValid.batches refl refl refl known-fits

relabel-Outcome_example :
    Outcome world.db
      (Relabelled test_env 30 "letter" 2 world.db)
      (relabel test_env clear_prefix 30 "letter" 2 world)
relabel-Outcome_example = relabel-Outcome test_env clear_prefix 30 "letter" 2 world

mark_batch_failed-Outcome_example :
    Outcome world.db
      (λ _ db'. Failed test_env "scan-1" "a.tif" "no image" world.db db')
      (mark_batch_failed test_env clear_prefix "scan-1" "a.tif" "no image" world)
mark_batch_failed-Outcome_example =
    mark_batch_failed-Outcome test_env clear_prefix "scan-1" "a.tif" "no image" world
      tables-IsValid.batches

-- A hash that tells the lengths apart, and a check that everything passes.
abbrev pub content : Content
content = record { sha256 = λ bytes. uuid_str (length bytes); image = λ bytes. verified }

enqueue_browser_tiff-Outcome_example :
    Post
      (λ _ w'.
        IsAccepted content 25 "b.TIF" (1 ∷ 2 ∷ [])
        × On (Enqueued test_env clear_prefix content (1 ∷ 2 ∷ []) [] "b.TIF") w')
      (On (Unchanged test_env clear_prefix content (1 ∷ 2 ∷ []) []))
      (enqueue_browser_tiff test_env clear_prefix content 25 (1 ∷ 2 ∷ []) "b.TIF" world)
enqueue_browser_tiff-Outcome_example =
    enqueue_browser_tiff-Outcome test_env clear_prefix content 25 (1 ∷ 2 ∷ []) "b.TIF" world refl

-- One good scan and one empty file.
abbrev pub good : ScannedFile
good = record { name = "c.tiff"; content = 3 ∷ [] }

abbrev bad : ScannedFile
bad = record { name = "d.tif"; content = [] }

abbrev summary : World → List String × List String × ℕ
summary w = (
  map (λ (o : StoredObject). o.content_type) w.objects,
  map (λ (j : Job). j.filename) w.jobs,
  length w.inbox,
)

ingest_once_run :
    summary (ingest_once test_env content 25 (record world { inbox = good ∷ bad ∷ [] })).1
    ≡ ("application/octet-stream" ∷ "image/tiff" ∷ [], "c.tiff" ∷ [], 0)
unfolding ingest_once list_files read_file delete_file upload_bytes enqueue_classification_job
    validate_tiff lower path_name split from_dot uuid_str hex
ingest_once_run = refl

pub one_file : IsFolder (good ∷ [])
one_file f g (Memᴰ.head e) (Memᴰ.head e') n = e ∙ sym e'
one_file f g (Memᴰ.tail m) j n = elim m [ ]
one_file f g i (Memᴰ.tail m) n = elim m [ ]

pub test_env-IsUuid4 : IsUuid4 test_env 100
test_env-IsUuid4 m n h k = (omega arith, λ e. omega arith)

pub good_draws : (poll test_env content 25 1 (record world { inbox = good ∷ [] })).1.draws ≤ 100
unfolding poll ingest_once list_files read_file delete_file upload_bytes enqueue_classification_job
    validate_tiff lower path_name split from_dot uuid_str hex
good_draws = omega arith

two_rounds_draws : (poll test_env content 25 2 (record world { inbox = good ∷ [] })).1.draws ≤ 100
unfolding poll ingest_once list_files read_file delete_file upload_bytes enqueue_classification_job
    validate_tiff lower path_name split from_dot uuid_str hex
two_rounds_draws = omega arith

poll-Custody_example :
    let w = record world { inbox = good ∷ [] } in
    let w' = (poll test_env content 25 2 w).1 in
    Custody test_env content w.inbox 100 w'.draws w'.objects w'.jobs w'.inbox
poll-Custody_example =
    poll-Custody test_env content 25 2 (record world { inbox = good ∷ [] }) 100 test_env-IsUuid4
      two_rounds_draws (λ n later below name. ((λ o m. elim m [ ]), (λ o m. elim m [ ]))) refl
      one_file
