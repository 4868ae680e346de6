-- ===== src/Db/Invariant/Predictions.antt =====
-- The table `predictions` under an insert and a relabelling.
use dropsort.Prelude.{
  String, ◌≡◌, ap, true, false, not, ◌||◌, none, some, List, [], ◌∷◌, ◌++◌, arith, any,
  all-append_one, str_eq,
}
use dropsort.Db.{User, Batch, Prediction}
use dropsort.Db.Tables.{row, has, replace, replace-IsKeyed, append-IsKeyed, all-replace, all_at_row}
use dropsort.Db.Distinct.{append-Distinct, replace-Distinct_same}
use dropsort.Db.Invariant.{
  PredictionsValid, prediction_id, in_batch, known_actor, relabelled_by_known, same_sha,
  same_sha_symm,
}

module _ (users : List User) (batches : List Batch) where
  pub append-PredictionsValid :
      (p : Prediction) (ps : List Prediction)
      → PredictionsValid users batches ps
      → (has prediction_id p.id ps || any (same_sha p) ps || not (in_batch batches p)) ≡ false
      → p.relabel_actor_id ≡ none
      → PredictionsValid users batches (ps ++ p ∷ [])
  append-PredictionsValid p ps h new unlabelled = record {
    keyed = append-IsKeyed prediction_id p ps h.keyed (ground arith);
    hashes = append-Distinct same_sha same_sha_symm p ps h.hashes (ground arith);
    in_batches = all-append_one (in_batch batches) ps p h.in_batches (ground arith);
    actors = all-append_one (relabelled_by_known users) ps p h.actors (ground arith);
  }

  -- An update that leaves the hash and the batch.
  pub replace-PredictionsValid :
      (p old : Prediction) (ps : List Prediction)
      → PredictionsValid users batches ps
      → row prediction_id p.id ps ≡ some old
      → p.content_sha256 ≡ old.content_sha256
      → p.batch_id ≡ old.batch_id
      → known_actor users p.relabel_actor_id ≡ true
      → PredictionsValid users batches (replace prediction_id p ps)
  replace-PredictionsValid p old ps h found sha b known = record {
    keyed = replace-IsKeyed prediction_id p ps h.keyed;
    hashes =
        replace-Distinct_same same_sha same_sha_symm prediction_id p old ps h.hashes h.keyed found
          (λ q. ap (λ (x : String). str_eq q.content_sha256 x) sha);
    in_batches =
        all-replace prediction_id (in_batch batches) p ps h.in_batches
          (rw b (all_at_row prediction_id (in_batch batches) p.id old ps found h.in_batches));
    actors = all-replace prediction_id (relabelled_by_known users) p ps h.actors known;
  }
