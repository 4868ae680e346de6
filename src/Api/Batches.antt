-- ===== src/Api/Batches.antt =====
-- api/batches.py, and the response cache of its detail endpoint.
pub mod Fresh
use dropsort.Prelude.{
  ⊤, ℕ, String, Option, none, some, List, [], ◌∷◌, format, uuid_str, str_eq, Bool, true, false,
  if◌then◌else◌,
}
use dropsort.Domain.{Uuid, BatchOut, PredictionOut}
use dropsort.Db.{User}
use dropsort.Exec.{Exc, Result, ok, err, upload_rejected, batch_not_found}
use dropsort.Session.{Env}
use dropsort.Service.{World, Clear, Bytes, Action, Response, batch_detail}
use dropsort.Pipeline.{Content}
use dropsort.Access.{Casbin, Endpoint, upload_batch}
use dropsort.Api.{Reply, Translation, endpoint}
use dropsort.Services.BatchService.{get_batch}
use dropsort.Services.BatchUploadService.{enqueue_browser_tiff}

abbrev pub upload_errors : Translation
upload_errors (upload_rejected reason) = some (400, reason)
upload_errors _ = none

module _ (env : Env) (clear : Clear) (content : Content) (casbin : Casbin) (user : User) where
  -- The body is read before; a missing name is the empty one.
  abbrev pub upload_batch_tiff : ℕ → Bytes → String → World → Reply (BatchOut × Uuid) × World
  upload_batch_tiff max_mb body raw_name =
      endpoint casbin upload_batch user 201 upload_errors
        (enqueue_browser_tiff env clear content max_mb body raw_name)

-- `_batch_detail_key_builder`
abbrev pub batch_detail_key : Uuid → String
batch_detail_key batch_id = format ("batches-detail" ∷ ":" ∷ uuid_str batch_id ∷ ":detail" ∷ [])

abbrev pub store_detail :
    Uuid
    → Result (BatchOut × List PredictionOut) × World
    → Result (BatchOut × List PredictionOut) × World
store_detail batch_id (ok (batch, preds), w) = (
  ok (batch, preds),
  record w {
    cache = λ key.
        if str_eq key (batch_detail_key batch_id)
        then some (batch_detail batch preds)
        else w.cache key;
  },
)
store_detail batch_id (err e, w) = (err e, w)

-- `@cache` around the endpoint: a stored answer is given back, and a computed one is stored.
abbrev pub cached_detail : Uuid → Option Response → Action (BatchOut × List PredictionOut)
cached_detail batch_id (some (batch_detail batch preds)) w = (ok (batch, preds), w)
cached_detail batch_id _ w = store_detail batch_id (get_batch batch_id w)

abbrev pub detail_errors : Translation
detail_errors (batch_not_found _) = some (404, "Batch not found")
detail_errors _ = none

abbrev pub get_batch_endpoint :
    Casbin → User → Uuid → World → Reply (BatchOut × List PredictionOut) × World
get_batch_endpoint casbin user batch_id =
    endpoint casbin Endpoint.get_batch user 200 detail_errors
      (λ w. cached_detail batch_id (w.cache (batch_detail_key batch_id)) w)
