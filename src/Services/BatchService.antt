-- ===== src/Services/BatchService.antt =====
-- services/batch_service.py
pub mod Paging
use dropsort.Prelude.{⊤, ℕ, List, uuid_str}
use dropsort.Domain.{Uuid, BatchState, BatchOut, PredictionOut}
use dropsort.Exec.{batch_not_found, pure, or_raise, ◌>>=◌, ◌>>◌}
use dropsort.Session.{Env, Tx}
use dropsort.Service.{Clear, Action, begin, query, clear_cache, detail_namespace}
use dropsort.Repositories.Batches
use dropsort.Repositories.Predictions

unfoldable pub list_batches : ℕ → ℕ → Action (List BatchOut)
list_batches offset limit = query (Batches.list_paginated offset limit)

abbrev get_batch_query : Uuid → Tx (BatchOut × List PredictionOut)
get_batch_query batch_id = do
  found ← Batches.get_by_id batch_id
  batch ← or_raise (batch_not_found batch_id) found
  preds ← Predictions.list_for_batch batch_id
  pure (batch, preds)

unfoldable pub get_batch : Uuid → Action (BatchOut × List PredictionOut)
get_batch batch_id = query (get_batch_query batch_id)

module _ (clear : Clear) where
  abbrev pub invalidate_batch_caches : Uuid → Action ⊤
  invalidate_batch_caches batch_id = do
    clear_cache clear "batches-list"
    clear_cache clear (detail_namespace (uuid_str batch_id))

module _ (env : Env) (clear : Clear) where
  abbrev transition_tx : Uuid → BatchState → Tx BatchOut
  transition_tx batch_id state = do
    found ← Batches.set_state env batch_id state
    or_raise (batch_not_found batch_id) found

  unfoldable pub transition_state : Uuid → BatchState → Action BatchOut
  transition_state batch_id state = do
    updated ← begin (transition_tx batch_id state)
    invalidate_batch_caches clear batch_id
    pure updated
