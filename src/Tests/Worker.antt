-- ===== src/Tests/Worker.antt =====
-- The cache, the classifier, a job and the boot at small inputs.
use mathlib.Core.Path.{subst}
use dropsort.Prelude.Paths.{contains}
use dropsort.Prelude.{
  ℕ, zero, suc, true, ◌≡◌, ◌≢◌, ◌↔◌, refl, none, some, List, [], ◌∷◌, arith, uuid_str, Bool, all,
  All, get_elem?, if◌then◌else◌, Bool-cases, inl, inr,
}
use dropsort.Prelude.Float.{Float, units, scaled, float_ge}
use dropsort.Db.{prediction_fits, audit_fits}
use dropsort.Domain.{PredictionOut}
use dropsort.Exec.{Result, ok, err}
use dropsort.Service.{World, Job, begin}
use dropsort.Service.Success.{Outcome}
use dropsort.Pipeline.{IsAccepted, Judged, validate_tiff, validate_tiff-Judged}
use dropsort.Repositories.Predictions
use dropsort.Repositories.Audit.{append}
use dropsort.Services.BatchService.{get_batch}
use dropsort.Services.PredictionService.{relabel}
use dropsort.Api.Batches.{batch_detail_key, cached_detail}
use dropsort.Api.Batches.Fresh.{relabel-fresh}
use dropsort.Service.Thins.{IsClear}
use dropsort.Classifier.{Network, Classified, classify}
use dropsort.Classifier.Top.{IsTopk, IsNumeric, IsTop, classify-IsTop}
use dropsort.Workers.Jobs.{run_classification_job}
use dropsort.Workers.Jobs.Outcomes.{JobDone, run_classification_job-Outcome}
use dropsort.Boot.{Machine, lifespan, HasClassifier, lifespan_iff}
use dropsort.Tests.Fixture.{test_env, clear_prefix, world, unsure, tables-IsValid}
use dropsort.Tests.Pipeline.{content}

pub clear_prefix-IsClear : IsClear clear_prefix
clear_prefix-IsClear namespace cache key = refl

abbrev relabelled_world : World
relabelled_world = (relabel test_env clear_prefix 30 "letter" 2 world).1

abbrev answer : Result PredictionOut → PredictionOut
answer (ok out) = out
answer (err e) = Predictions.prediction_out unsure

relabel_run :
    relabel test_env clear_prefix 30 "letter" 2 world
    ≡ (ok (answer (relabel test_env clear_prefix 30 "letter" 2 world).0), relabelled_world)
unfolding relabel begin Predictions.relabel append prediction_fits audit_fits uuid_str contains
relabel_run = refl

relabel-fresh_example :
    let out = answer (relabel test_env clear_prefix 30 "letter" 2 world).0 in
    (cached_detail out.batch_id
      (relabelled_world.cache (batch_detail_key out.batch_id))
      relabelled_world).0
    ≡ (get_batch out.batch_id relabelled_world).0
relabel-fresh_example =
    relabel-fresh test_env clear_prefix clear_prefix-IsClear 30 "letter" 2 world relabelled_world
      (answer (relabel test_env clear_prefix 30 "letter" 2 world).0) relabel_run

-- The first probability, where it is a greatest one.
abbrev first_index : List Float → List (Float × ℕ)
first_index [] = []
first_index (v ∷ probs) = if all (float_ge v) (v ∷ probs) then (v, 0) ∷ [] else []

-- One of the first class and zero of the other fifteen.
abbrev one_hot : List Float
one_hot =
    scaled 1 0
    ∷ units 0
    ∷ units 0
    ∷ units 0
    ∷ units 0
    ∷ units 0
    ∷ units 0
    ∷ units 0
    ∷ units 0
    ∷ units 0
    ∷ units 0
    ∷ units 0
    ∷ units 0
    ∷ units 0
    ∷ units 0
    ∷ units 0
    ∷ []

-- A network that is sure of the first class.
abbrev pub net : Network
net = record {
  opens = λ bytes. true;
  probabilities = λ bytes. one_hot;
  topk = first_index;
  png = λ bytes label x. bytes;
}

abbrev pub letter : Classified
letter = record {
  label = "letter";
  top1_confidence = scaled 1 0;
  top5 = ("letter", scaled 1 0) ∷ [];
  scores =
      ("letter", scaled 1 0)
      ∷ ("form", units 0)
      ∷ ("email", units 0)
      ∷ ("handwritten", units 0)
      ∷ ("advertisement", units 0)
      ∷ ("scientific_report", units 0)
      ∷ ("scientific_publication", units 0)
      ∷ ("specification", units 0)
      ∷ ("file_folder", units 0)
      ∷ ("news_article", units 0)
      ∷ ("budget", units 0)
      ∷ ("invoice", units 0)
      ∷ ("presentation", units 0)
      ∷ ("questionnaire", units 0)
      ∷ ("resume", units 0)
      ∷ ("memo", units 0)
      ∷ [];
}

pub classified : classify net (7 ∷ []) ≡ ok letter
unfolding classify
classified = refl

get_elem?-all :
    (p : Float → Bool) (xs : List Float) (j : ℕ) (u : Float)
    → all p xs ≡ true
    → get_elem? xs j ≡ some u
    → p u ≡ true
get_elem?-all p [] j u h k = cc
get_elem?-all p (x ∷ xs) zero u h k =
    let same : x ≡ u = cc in subst (λ (y : Float). p y ≡ true) same (ground arith)
get_elem?-all p (x ∷ xs) (suc j) u h k = get_elem?-all p xs j u (ground arith) k

net-IsTopk : IsTopk net
net-IsTopk = record { at = at; greatest = greatest }
  where
    at :
        (probs : List Float)
        → All (λ (e : Float × ℕ). get_elem? probs e.1 ≡ some e.0) (first_index probs)
    at [] = tt
    at (v ∷ probs) = elim (Bool-cases (all (float_ge v) (v ∷ probs))) [
      | inl t ↦ rw t (refl, tt)
      | inr f ↦ rw f tt
    ]

    greatest :
        (probs : List Float) (v : Float) (i : ℕ) (rest : List (Float × ℕ))
        → IsNumeric probs
        → first_index probs ≡ (v, i) ∷ rest
        → (j : ℕ) (u : Float) → get_elem? probs j ≡ some u
        → float_ge v u ≡ true
    greatest [] v i rest numeric t j u k = cc
    greatest (x ∷ probs) v i rest numeric t j u k =
        elim (Bool-cases (all (float_ge x) (x ∷ probs))) [
          | inl b ↦
              let same : x ≡ v = ground arith in
              subst (λ (y : Float). float_ge y u ≡ true) same
                (get_elem?-all (float_ge x) (x ∷ probs) j u b k)
          | inr f ↦ absurd (ground arith)
        ]

one_hot-IsNumeric : IsNumeric one_hot
one_hot-IsNumeric = (
  refl,
  (
    refl,
    (
      refl,
      (
        refl,
        (
          refl,
          (
            refl,
            (refl, (refl, (refl, (refl, (refl, (refl, (refl, (refl, (refl, (refl, tt)))))))))),
          ),
        ),
      ),
    ),
  ),
)

classify-IsTop_example : IsTop one_hot letter
classify-IsTop_example = classify-IsTop net (7 ∷ []) letter net-IsTopk one_hot-IsNumeric classified

abbrev pub job : Job
job = record {
  id = 1;
  batch_id = "scan-9";
  filename = "e.tif";
  object_key = "incoming/scan-9/e.tif";
  content_sha256 = "ee";
  request_id = "r";
}

abbrev stored : World
stored = record world {
  objects =
      record { key = "incoming/scan-9/e.tif"; content = 7 ∷ []; content_type = "image/tiff" } ∷ [];
}

run_classification_job-Outcome_example :
    Outcome stored.db
      (λ _ db'. JobDone test_env clear_prefix net job stored db')
      (run_classification_job test_env clear_prefix net job stored)
run_classification_job-Outcome_example =
    run_classification_job-Outcome test_env clear_prefix net job stored tables-IsValid.batches

abbrev machine : Machine
machine = record {
  configured = true;
  limiter_ready = true;
  database_answers = true;
  authenticated = true;
  readable = true;
  policy_rows = 23;
  weights = some (1 ∷ []);
  card = some (record { weights_sha256 = "abc"; test_top1 = scaled 1 1 });
}

lifespan_iff_example : (lifespan content (scaled 1 2) machine ≡ none) ↔ (
    (machine.configured ≡ true)
    × (machine.authenticated ≡ true)
    × (machine.readable ≡ true)
    × (machine.limiter_ready ≡ true)
    × (machine.database_answers ≡ true)
    × (machine.policy_rows ≢ 0)
    × HasClassifier content (scaled 1 2) machine)
lifespan_iff_example = lifespan_iff content (scaled 1 2) machine

validate_tiff-Judged_example :
    let answer = validate_tiff content 25 "b.TIF" (1 ∷ []) in
    ((answer ≡ none) ↔ IsAccepted content 25 "b.TIF" (1 ∷ []))
    × Judged content 25 "b.TIF" (1 ∷ []) answer
validate_tiff-Judged_example = validate_tiff-Judged content 25 "b.TIF" (1 ∷ [])
