-- ===== src/Workers/Jobs.antt =====
-- app/workers/jobs.py: one classification job.
pub mod Outcomes
pub mod Five
use dropsort.Prelude.{
  ⊤, ℕ, String, Option, none, some, List, [], ◌∷◌, ◌++◌, map, take, format, true, false, ◌&&◌,
  if◌then◌else◌,
}
use dropsort.Prelude.Float.{Float, scaled, float_ge}
use dropsort.Domain.{TopKItem, PredictionOut}
use dropsort.Exec.{Result, external, ok, err, pure, ◌>>=◌, ◌>>◌}
use dropsort.Session.{Env}
use dropsort.Service.{World, Clear, Action, Bytes, Job}
use dropsort.Infra.{upload_bytes, download_bytes}
use dropsort.Classifier.{Network, Classified, classify, make_overlay}
use dropsort.Repositories.Predictions.{NewPrediction}
use dropsort.Services.BatchUploadService.{from_result}
use dropsort.Services.PredictionService.{record_prediction}

-- An entry of the raw list: a pair, a dictionary with what it holds at `label`, `confidence` and
-- `score`, or anything else.
pub data RawEntry : Type 0 where
  pair : String → Float → RawEntry
  dict : Option String → Option Float → Option Float → RawEntry
  other : RawEntry

abbrev text_or : String → Option String → String
text_or d none = d
text_or d (some s) = s

abbrev float_or : Float → Option Float → Float
float_or d none = d
float_or d (some x) = x

-- `TopKItem(label=…, score=…)`: `Field(ge=0.0, le=1.0)` refuses any other score.
abbrev pub top_k_item : String → Float → Result (List TopKItem) → Result (List TopKItem)
top_k_item label score (err e) = err e
top_k_item label score (ok items) =
    if float_ge score (Float.units 0) && float_ge (scaled 1 0) score
    then ok (record { label = label; score = score } ∷ items)
    else err (external "ValidationError")

abbrev pub items : List RawEntry → Result (List TopKItem)
items [] = ok []
items (pair label score ∷ es) = top_k_item label score (items es)
items (dict label confidence score ∷ es) =
    top_k_item (text_or "" label) (float_or (float_or (Float.units 0) score) confidence) (items es)
items (other ∷ es) = items es

-- `_normalise_top5`; its only exception is that of pydantic.
unfoldable pub normalise_top5 : List RawEntry → Result (List TopKItem)
normalise_top5 raw = items (take 5 raw)

abbrev pub as_pair : String × Float → RawEntry
as_pair (label, score) = pair label score

abbrev pub overlay_key : Job → String
overlay_key job = format ("overlays/" ∷ job.batch_id ∷ "/" ∷ job.filename ∷ ".png" ∷ [])

abbrev pub arguments : Job → Classified → List TopKItem → NewPrediction
arguments job p top5 = record {
  filename = job.filename;
  content_sha256 = job.content_sha256;
  minio_input_key = job.object_key;
  minio_overlay_key = some (overlay_key job);
  label = p.label;
  top1_confidence = p.top1_confidence;
  top5 = top5;
}

module _ (env : Env) (clear : Clear) (net : Network) where
  unfoldable pub run_classification_job : Job → Action ⊤
  run_classification_job job = do
    image_bytes ← download_bytes env job.object_key
    prediction ← from_result (classify net image_bytes)
    overlay ← from_result (make_overlay net image_bytes prediction)
    upload_bytes env (overlay_key job) overlay "image/png"
    top5 ← from_result (normalise_top5 (map as_pair prediction.top5))
    record_prediction env clear job.batch_id (arguments job prediction top5)
    pure tt
