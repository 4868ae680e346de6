-- ===== src/System/Recent.antt =====
-- The cached list of recent predictions in the program as a whole.
pub mod Stored
pub mod Kept
pub mod Refines
use text.Mathlib.Text.{starts_with}
use dropsort.Prelude.{
  ⊤, ℕ, String, ◌≡◌, ◌⊎◌, inl, inr, refl, ap, sym, ◌∙◌, Bool, true, false, Option, none, some, List,
  [], ◌∷◌, ◌++◌, map, find?, format, str_eq, eq_iff, uuid_str, if◌then◌else◌, Bool-cases, arith,
}
use dropsort.Domain.{Uuid, PredictionOut, BatchOut}
use dropsort.Db.{Db, Prediction, User, batch_fits}
use dropsort.Db.Order.{newest_first, page}
use dropsort.Db.Invariant.{IsValid}
use dropsort.Exec.{Result, ok, err, pure, continue, ◌>>=◌, ◌>>◌}
use dropsort.Session.{Env, Session, draw}
use dropsort.Session.Keeps.{Keeps, Keeps-bind, Keeps-draw, Keeps-gets, Keeps-pure, Keeps-write}
use dropsort.Service.{
  World, Action, Cache, Clear, Response, predictions_recent, begin, settle, session, query,
  clear_cache, detail_namespace,
}
use dropsort.Service.Thins.{IsClear, Thinner}
use dropsort.Service.Success.{Outcome, Outcome-keeps}
use dropsort.Repositories.Batches.{
  upsert_external, get_or_create, insert_batch, new_batch, batch_out, has_external, batch_clash,
}
use dropsort.Repositories.Predictions
use dropsort.Repositories.Predictions.{prediction_out, NewPrediction}
use dropsort.Services.PredictionService
use dropsort.Services.PredictionService.{
  relabel, relabel_tx, record_prediction, record_tx, after_record, mark_batch_failed,
}
use dropsort.Services.PredictionService.Recording.{Answered, record_prediction-Outcome}
use dropsort.Services.PredictionService.Failing.{Failed, mark_batch_failed-Outcome}
use dropsort.Services.BatchUploadService.Keeping.{enqueue_browser_tiff-KeepsDb}
use dropsort.Workers.SftpIngest.Keeping.{ingest_once-KeepsDb}
use dropsort.System.{
  Event, administered, relabelling, upload, recording, failure, round, Setting, perform,
}
use dropsort.System.Untouched.{execute-SameScans}
use dropsort.System.Validity.{perform-IsValid}
use dropsort.System.Recent.Stored.{
  execute-Thins, mark_batch_failed-Thins, enqueue_browser_tiff-Thins, ingest_once-Thins,
}
use dropsort.Access.{Casbin, Endpoint, permitted}
use dropsort.Api.{Reply, endpoint}
use dropsort.Api.Listings.{ListKey, recent_key, cached_recent, list_recent_endpoint}

-- The keys of fastapi-cache as documented: they go on after the namespace and a colon, and differ for
-- different arguments.
pub record IsListKey (list_key : ListKey) : Type 0 where
  pub starts :
      (namespace : String) (args : List ℕ)
      → starts_with (list_key namespace args) (format (namespace ∷ ":" ∷ [])) ≡ true
  pub distinct :
      (namespace : String) (args args' : List ℕ)
      → list_key namespace args ≡ list_key namespace args'
      → args ≡ args'

-- What the list shows.
abbrev pub recent_rows : ℕ → List Prediction → List PredictionOut
recent_rows limit predictions =
    map prediction_out (page 0 limit (newest_first (λ (p : Prediction). p.created_at) predictions))

module _ (list_key : ListKey) where
  -- Every stored list is what the table says now.
  abbrev pub IsCurrent : World → Type 0
  IsCurrent w =
      (limit : ℕ) (r : Response)
      → w.cache (recent_key list_key limit) ≡ some r
      → r ≡ predictions_recent limit (recent_rows limit w.db.predictions)

  -- No list is stored.
  abbrev pub Emptied : World → Type 0
  Emptied w = (limit : ℕ) → w.cache (recent_key list_key limit) ≡ none

  pub Emptied-IsCurrent : (w : World) → Emptied w → IsCurrent w
  Emptied-IsCurrent w gone limit r e = cc (gone limit)

  pub same-IsCurrent :
      (w w' : World)
      → ((limit : ℕ) → Thinner (recent_key list_key limit) w w')
      → w'.db.predictions ≡ w.db.predictions
      → IsCurrent w
      → IsCurrent w'
  same-IsCurrent w w' thin same h limit r e = elim (thin limit) [
    | inl gone ↦ cc
    | inr kept ↦
        h limit r (sym kept ∙ e)
        ∙ ap (λ (ps : List Prediction). predictions_recent limit (recent_rows limit ps)) (sym same)
  ]

  module _ (k : IsListKey list_key) (clear : Clear) (h : IsClear clear) where
    pub cleared-Emptied :
        (w : World) → Emptied (record w { cache = clear "predictions-recent" w.cache })
    cleared-Emptied w limit =
        h "predictions-recent" w.cache (recent_key list_key limit)
        ∙ rw (k.starts "predictions-recent" (limit ∷ [])) refl
