-- ===== src/Api/Listings.antt =====
-- The cached list endpoints of api/predictions.py and api/batches.py, and the audit endpoint of
-- api/audit.py. FastAPI has checked the bounds of `offset` and `limit`.
use dropsort.Prelude.{ℕ, String, Option, none, some, List, [], ◌∷◌, str_eq, if◌then◌else◌}
use dropsort.Domain.{BatchOut, PredictionOut, AuditEntryOut}
use dropsort.Db.{User}
use dropsort.Exec.{Result, ok, err}
use dropsort.Service.{World, Action, Response, predictions_recent, batches_list}
use dropsort.Access.{Casbin, Endpoint}
use dropsort.Api.{Reply, endpoint}
use dropsort.Services.PredictionService
use dropsort.Services.BatchService.{list_batches}
use dropsort.Services.AuditService

-- `default_key_builder` of fastapi-cache: the key for a namespace and the arguments of the endpoint.
abbrev pub ListKey : Type 0
ListKey = String → List ℕ → String

-- A computed answer is stored, an exception is not.
abbrev pub remember {ℓ} :
    {A : Type ℓ} → String → (A → Response) → Result A × World → Result A × World
remember key response (ok a, w) =
    (ok a, record w { cache = λ k. if str_eq k key then some (response a) else w.cache k })
remember key response (err e, w) = (err e, w)

module _ (list_key : ListKey) where
  abbrev pub recent_key : ℕ → String
  recent_key limit = list_key "predictions-recent" (limit ∷ [])

  abbrev pub cached_recent : ℕ → Option Response → Action (List PredictionOut)
  cached_recent limit (some (predictions_recent n preds)) w = (ok preds, w)
  cached_recent limit _ w =
      remember (recent_key limit) (predictions_recent limit) (PredictionService.list_recent limit w)

  abbrev pub batches_key : ℕ → ℕ → String
  batches_key offset limit = list_key "batches-list" (offset ∷ limit ∷ [])

  abbrev pub cached_batches : ℕ → ℕ → Option Response → Action (List BatchOut)
  cached_batches offset limit (some (batches_list o l batches)) w = (ok batches, w)
  cached_batches offset limit _ w =
      remember (batches_key offset limit) (batches_list offset limit) (list_batches offset limit w)

module _ (list_key : ListKey) (casbin : Casbin) (user : User) where
  abbrev pub list_recent_endpoint : ℕ → World → Reply (List PredictionOut) × World
  list_recent_endpoint limit =
      endpoint casbin Endpoint.list_recent user 200 (λ _. none)
        (λ w. cached_recent list_key limit (w.cache (recent_key list_key limit)) w)

  abbrev pub list_batches_endpoint : ℕ → ℕ → World → Reply (List BatchOut) × World
  list_batches_endpoint offset limit =
      endpoint casbin Endpoint.list_batches user 200 (λ _. none)
        (λ w. cached_batches list_key offset limit (w.cache (batches_key list_key offset limit)) w)

abbrev pub get_audit : Casbin → User → ℕ → ℕ → World → Reply (List AuditEntryOut) × World
get_audit casbin user offset limit =
    endpoint casbin Endpoint.get_audit user 200 (λ _. none)
      (AuditService.list_paginated offset limit)
