-- ===== src/Repositories/Batches/Success.antt =====
-- One batch in focus: what `upsert_external` and `set_state` did where they returned.
use dropsort.Prelude.{
  none, ℕ, ◌+◌, String, ◌≡◌, ◌≢◌, refl, ◌∙◌, some, List, [], ◌∷◌, arith, inl, inr, Option-cases,
  find?, eq_iff,
}
use dropsort.Domain.{Uuid, BatchState, BatchOut}
use dropsort.Db.{Db, Batch}
use dropsort.Db.Tables.{
  row, replace, row-find?, row-append_new, row-append_ne, row-replace_self, row-replace_ne,
}
use dropsort.Db.Invariant.{BatchesValid, batch_id}
use dropsort.Exec.{ok}
use dropsort.Session.{Env, Session}
use dropsort.Repositories.Batches.{
  upsert_external, set_state, batch_out, new_batch, with_state, has_external,
}

-- Between `db` and `db'` only the batches differ, and only at `b`, which has the external name.
pub record Focused (external_id : String) (b : Batch) (db db' : Db) : Type 0 where
  pub db_lem : db' ≡ record db { batches = db'.batches }
  pub here : row batch_id b.id db'.batches ≡ some b
  pub name : b.external_id ≡ some external_id
  pub others : (k : Uuid) → b.id ≢ k → row batch_id k db'.batches ≡ row batch_id k db.batches

named :
    (external_id : String) (b : Batch) (batches : List Batch)
    → find? (has_external external_id) batches ≡ some b
    → b.external_id ≡ some external_id
named external_id b [] h = cc
named external_id b (c ∷ batches) h = elim (Option-cases c.external_id) [
  | inl e ↦ ground (arith, named external_id b batches)
  | inr (x, e) ↦ ground (arith, eq_iff x external_id, named external_id b batches)
]

module _ (env : Env) (external_id : String) (s t : Session) (o : BatchOut) where
  pub upsert_external-eq-ok :
      BatchesValid s.db.batches
      → upsert_external env external_id s ≡ (ok o, t)
      → (b : Batch) × (o ≡ batch_out b) × Focused external_id b s.db t.db × (t.start ≡ s.start)
  unfolding upsert_external
  upsert_external-eq-ok h e = elim (Option-cases (find? (has_external external_id) s.db.batches)) [
    | inl new ↦ (
      new_batch env external_id s.draws,
      ground arith,
      record {
        db_lem = ground arith;
        here =
            ground
              (arith, row-append_new batch_id (new_batch env external_id s.draws) s.db.batches);
        name = refl;
        others = λ k ne.
            ground
              (arith, row-append_ne batch_id k (new_batch env external_id s.draws) s.db.batches);
      },
      ground arith,
    )
    | inr (b, found) ↦ (
      b,
      ground arith,
      record {
        db_lem = ground arith;
        here = ground (arith, row-find? batch_id (has_external external_id) b s.db.batches h.keyed);
        name = named external_id b s.db.batches found;
        others = λ k ne. ground arith;
      },
      ground arith,
    )
  ]

-- The state of a row that is there: the write cannot fail.
pub set_state-row :
    (env : Env) (state : BatchState) (b : Batch) (k : Uuid) (s : Session)
    → row batch_id k s.db.batches ≡ some b
    → let b' = with_state state b (env.now s.draws) in
      set_state env k state s ≡ (
        ok (some (batch_out b')),
        record s {
          db = record s.db { batches = replace batch_id b' s.db.batches };
          draws = s.draws + 1;
        },
      )
unfolding set_state
set_state-row env state b k s h = ground arith

pub set_state-none :
    (env : Env) (state : BatchState) (k : Uuid) (s : Session)
    → row batch_id k s.db.batches ≡ none
    → set_state env k state s ≡ (ok none, s)
unfolding set_state
set_state-none env state k s h = ground arith

module _ (external_id : String) (b : Batch) (state : BatchState) (now : ℕ) (db mid : Db) where
  pub with_state-Focused :
      Focused external_id b db mid
      → Focused external_id
          (with_state state b now)
          db
          (record mid { batches = replace batch_id (with_state state b now) mid.batches })
  with_state-Focused h = record {
    db_lem = ground (arith, h.db_lem);
    here = row-replace_self batch_id (with_state state b now) b mid.batches h.here;
    name = h.name;
    others =
        λ k ne. row-replace_ne batch_id k (with_state state b now) mid.batches ne ∙ h.others k ne;
  }
