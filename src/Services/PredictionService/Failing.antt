-- ===== src/Services/PredictionService/Failing.antt =====
-- services/prediction_service.py: the outcome of `mark_batch_failed`.
use mathlib.Core.Option
use dropsort.Prelude.{
  ⊤, ℕ, ◌+◌, String, ◌≡◌, refl, false, Option, none, some, List, [], ◌∷◌, ◌++◌, arith, uuid_str,
  find?, append-nil, sym,
}
use dropsort.Domain.{BatchOut, UserOut, failed}
use dropsort.Db.{Db, Batch, AuditLog}
use dropsort.Db.Tables.{replace}
use dropsort.Db.Invariant.{BatchesValid, batch_id}
use dropsort.Exec.{ok, pure, ◌>>◌}
use dropsort.Exec.Success.{bind-eq-ok}
use dropsort.Session.{Env, Session}
use dropsort.Service.{World, Clear, begin, clear_cache, detail_namespace}
use dropsort.Service.Success.{Outcome, begin-Outcome, continue-Outcome}
use dropsort.Repositories.Users
use dropsort.Repositories.Batches.{batch_out, with_state, set_state, upsert_external}
use dropsort.Repositories.Batches.Success.{
  Focused, upsert_external-eq-ok, set_state-row, with_state-Focused,
}
use dropsort.Repositories.Audit.{append, audit_row, audit_clash}
use dropsort.Repositories.Audit.Success.{append-eq-ok}
use dropsort.Services.PredictionService.{mark_batch_failed, failed_tx, failure_entry, log_failure}

-- The row for the administrator, if there is one.
abbrev pub LoggedBy : Option UserOut → Db → List AuditLog → Type 0
LoggedBy none db entries = entries ≡ []
LoggedBy (some admin) db entries =
    (entry : AuditLog) × (entries ≡ entry ∷ [])
    × (entry.actor_id ≡ admin.id)
    × (audit_clash entry db ≡ false)

module _ (env : Env) (external_id filename reason : String) (db : Db) where
  abbrev pub system_actor : Option UserOut
  system_actor = Option.map Users.user_out (find? (Users.has_email "admin@example.com") db.users)

  pub record Failed (db' : Db) : Type 0 where
    pub batch : Batch
    pub entries : List AuditLog
    pub is_failed : batch.state ≡ failed
    pub logged : LoggedBy system_actor db entries
    pub focus : Focused external_id batch (record db { audit_log = db.audit_log ++ entries }) db'

  failed-Failed :
      (admin : Option UserOut) (b : Batch) (s t : Session) (o : ⊤)
      → system_actor ≡ admin
      → b.state ≡ failed
      → Focused external_id b db s.db
      → log_failure env admin b.id filename reason s ≡ (ok o, t)
      → Failed t.db
  failed-Failed none b s t o a e f h = record {
    batch = b;
    entries = [];
    is_failed = e;
    logged = rw a refl;
    focus = rw (append-nil db.audit_log) (ground (arith, f));
  }
  failed-Failed (some admin) b s t o a e f h =
      let entry = failure_entry env admin.id b.id filename reason in
      let (out, s', c, k) = bind-eq-ok (append env entry) (λ _. pure tt) s h in
      let (fit, clash, after) = append-eq-ok env entry s s' out c in
      record {
        batch = b;
        entries = audit_row env entry s.draws ∷ [];
        is_failed = e;
        logged = rw a (audit_row env entry s.draws, refl, refl, ground (arith, f.db_lem));
        focus = record {
          db_lem = ground (arith, f.db_lem);
          here = ground (arith, f.here);
          name = f.name;
          others = λ k ne. ground (arith, f.others k ne);
        };
      }

  named_batch :
      (admin : Option UserOut) (b : Batch) (s t : Session) (o : BatchOut)
      → system_actor ≡ admin
      → Focused external_id b db s.db
      → (do
        set_state env b.id failed
        log_failure env admin b.id filename reason
        pure (batch_out b))
          s
        ≡ (ok o, t)
      → Failed t.db
  named_batch admin b s t o a f h =
      let b' = with_state failed b (env.now s.draws) in
      let s' : Session = record s {
        db = record s.db { batches = replace batch_id b' s.db.batches };
        draws = s.draws + 1;
      } in
      let tail : (do log_failure env admin b.id filename reason; pure (batch_out b)) s'
          ≡ (ok o, t) =
        ground (arith, set_state-row env failed b b.id s f.here) in
      let (x, s'', c, k) =
        bind-eq-ok (log_failure env admin b.id filename reason) (λ _. pure (batch_out b)) s' tail in
      let left : s'' ≡ t = ground arith in
      rw (sym left) (
        failed-Failed admin b' s' s'' x a refl
          (with_state-Focused external_id b failed (env.now s.draws) db s.db f) c)

  failed_tx-Failed :
      (n : ℕ) (o : BatchOut) (t : Session)
      → BatchesValid db.batches
      → failed_tx env external_id filename reason (record { start = db; db = db; draws = n })
        ≡ (ok o, t)
      → Failed t.db
  failed_tx-Failed n o t v h =
      let s : Session = record { start = db; db = db; draws = n } in
      let (bo, s', u, k) =
        bind-eq-ok (upsert_external env external_id)
          (λ batch. do
            set_state env batch.id failed
            log_failure env system_actor batch.id filename reason
            pure batch)
          s h in
      let (b, out, f, e) = upsert_external-eq-ok env external_id s s' bo v u in
      named_batch system_actor b s' t o refl f (ground arith)

module _ (env : Env) (clear : Clear) (external_id filename reason : String) (w : World) where
  -- On tables whose batch keys and names are unique, `mark_batch_failed` raises and leaves the tables,
  -- or leaves the batch of the name failed and every other batch as it was, and appends one audit row
  -- of admin@example.com if that account exists and none if not.
  pub mark_batch_failed-Outcome :
      BatchesValid w.db.batches
      → Outcome w.db
          (λ _ db'. Failed env external_id filename reason w.db db')
          (mark_batch_failed env clear external_id filename reason w)
  unfolding mark_batch_failed
  mark_batch_failed-Outcome v =
      let P : BatchOut → Db → Type 0 = λ _ db'. Failed env external_id filename reason w.db db' in
      let tx =
        begin-Outcome P (failed_tx env external_id filename reason) w
          (λ o t h. failed_tx-Failed env external_id filename reason w.db w.draws o t v h) in
      let (r, w') = begin (failed_tx env external_id filename reason) w in
      continue-Outcome w.db P (λ _ db'. Failed env external_id filename reason w.db db') r w'
        (λ batch. do
          clear_cache clear "batches-list"
          clear_cache clear (detail_namespace (uuid_str batch.id)))
        tx (λ out w'' h. h)
