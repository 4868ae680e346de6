-- ===== src/Repositories/Batches.antt =====
-- repositories/batch_repository.py
pub mod Success
use mathlib.Core.Option
use Prim.Native.String.{slice}
use dropsort.Prelude.{
  ⊤, ℕ, String, Bool, true, false, Option, none, some, List, [], ◌∷◌, ◌++◌, map, str_eq, ◌||◌,
  find?, any, format, uuid_str, ◌==◌, select, length, is_some,
}
use dropsort.Domain.{Uuid, BatchState, received, BatchOut}
use dropsort.Db.{Batch, Prediction, Db, batch_fits}
use dropsort.Db.Tables.{row, has, replace}
use dropsort.Db.Order.{newest_first, page}
use dropsort.Exec.{pure, ◌>>=◌, ◌>>◌}
use dropsort.Session.{Env, Tx, gets, draw, write}

-- `BatchOut.model_validate(row)`: the count stays at its default.
abbrev pub batch_out : Batch → BatchOut
batch_out b = record {
  id = b.id;
  external_id = b.external_id;
  state = b.state;
  created_at = b.created_at;
  updated_at = b.updated_at;
  prediction_count = 0;
}

-- The grouped subquery and the outer join: the number of predictions of a batch, 0 if none.
abbrev pub count_for : Db → Uuid → ℕ
count_for db id = length (select (λ (p : Prediction). p.batch_id == id) db.predictions)

abbrev pub counted : Db → Batch → BatchOut
counted db b = record (batch_out b) { prediction_count = count_for db b.id }

unfoldable pub list_paginated : ℕ → ℕ → Tx (List BatchOut)
unfolding newest_first
list_paginated offset limit = gets (λ db.
    map (counted db) (page offset limit (newest_first (λ (b : Batch). b.created_at) db.batches)))

abbrev pub get_by_id : Uuid → Tx (Option BatchOut)
get_by_id batch_id =
    gets (λ db. Option.map batch_out (row (λ (b : Batch). b.id) batch_id db.batches))

abbrev pub has_external : String → Batch → Bool
has_external external_id b = elim b.external_id [ none ↦ false | some e ↦ str_eq e external_id ]

abbrev pub batch_clash : Batch → String → Db → Bool
batch_clash b external_id db =
    has (λ (c : Batch). c.id) b.id db.batches || any (has_external external_id) db.batches

abbrev pub with_state : BatchState → Batch → ℕ → Batch
with_state state b updated_at = record b { state = state; updated_at = updated_at }

module _ (env : Env) where
  abbrev pub new_batch : String → ℕ → Batch
  new_batch external_id n = record {
    id = env.uuid4 n;
    external_id = some external_id;
    state = received;
    created_at = env.now n;
    updated_at = env.now n;
  }

  abbrev pub insert_batch : String → Batch → Tx ⊤
  insert_batch external_id b =
      write (batch_fits b) (batch_clash b external_id)
        (λ db. record db { batches = db.batches ++ b ∷ [] })

  abbrev pub get_or_create : String → Option Batch → Tx BatchOut
  get_or_create external_id (some b) = pure (batch_out b)
  get_or_create external_id none = do
    n ← draw
    insert_batch external_id (new_batch external_id n)
    pure (batch_out (new_batch external_id n))

  unfoldable pub upsert_external : String → Tx BatchOut
  upsert_external external_id = do
    found ← gets (λ db. find? (has_external external_id) db.batches)
    get_or_create external_id found

  abbrev pub replace_batch : Batch → Tx (Option BatchOut)
  replace_batch b = do
    write true (λ _. false)
        (λ db. record db { batches = replace (λ (c : Batch). c.id) b db.batches })
    pure (some (batch_out b))

  -- `updated_at` has `onupdate=func.now()`.
  abbrev pub set_state_row : BatchState → Option Batch → Tx (Option BatchOut)
  set_state_row state none = pure none
  set_state_row state (some b) = do n ← draw; replace_batch (with_state state b (env.now n))

  unfoldable pub set_state : Uuid → BatchState → Tx (Option BatchOut)
  set_state batch_id state = do
    found ← gets (λ db. row (λ (b : Batch). b.id) batch_id db.batches)
    set_state_row state found
