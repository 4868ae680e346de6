-- ===== src/System/AppendOnly.antt =====
-- The audit log under every event of the program.
use dropsort.Prelude.{
  String, ◌≡◌, ap, ◌∙◌, sym, find?, Option, none, some, List, [], ◌∷◌, ◌++◌, arith, append-nil,
  append_assoc,
}
use dropsort.Domain.{Uuid, PredictionOut}
use dropsort.Db.{Db, AuditLog, batch_fits}
use dropsort.Db.Invariant.{IsValid}
use dropsort.Session.{draw}
use dropsort.Session.Keeps.{Keeps, Keeps-bind, Keeps-draw, Keeps-gets, Keeps-pure, Keeps-write}
use dropsort.Service.{World}
use dropsort.Service.Success.{Outcome-keeps}
use dropsort.Repositories.Batches.{
  upsert_external, get_or_create, insert_batch, new_batch, batch_out, has_external, batch_clash,
}
use dropsort.Repositories.Predictions.{NewPrediction}
use dropsort.Services.UserService.{change_role, set_user_active, remove_user_account, invite}
use dropsort.Services.UserService.Inviting.{invite-Outcome}
use dropsort.Services.UserService.Outcomes.{
  change_role-Outcome, set_user_active-Outcome, remove_user_account-Outcome,
}
use dropsort.Services.UserService.History.{
  Command, role_change, activation, removal, invitation, execute,
}
use dropsort.Services.PredictionService.{record_prediction, mark_batch_failed, relabel}
use dropsort.Services.PredictionService.Recording.{Answered, record_prediction-Outcome}
use dropsort.Services.PredictionService.Relabelling.{Relabelled, relabel-Outcome}
use dropsort.Services.PredictionService.Failing.{Failed, mark_batch_failed-Outcome}
use dropsort.Services.BatchUploadService.Keeping.{enqueue_browser_tiff-KeepsDb}
use dropsort.Workers.SftpIngest.Keeping.{ingest_once-KeepsDb}
use dropsort.System.{
  Event, administered, relabelling, upload, recording, failure, round, Setting, perform, Reachable,
  Reachable-keeps,
}
use dropsort.System.Validity.{perform-IsValid}

-- `log` is the beginning of the log.
abbrev pub Extends : List AuditLog → Db → Type 0
Extends log db = (entries : List AuditLog) × (db.audit_log ≡ log ++ entries)

module _ (c : Setting) (log : List AuditLog) where
  more :
      (db db' : Db) (entries : List AuditLog)
      → db'.audit_log ≡ db.audit_log ++ entries
      → Extends log db
      → Extends log db'
  more db db' entries e (es, h) =
      (es ++ entries, e ∙ ap (λ (l : List AuditLog). l ++ entries) h ∙ append_assoc log es entries)

  execute-Extends :
      (actor_id : Uuid) (command : Command) (w : World)
      → Extends log w.db
      → Extends log (execute c.env c.clear actor_id command w).1.db
  unfolding execute
  execute-Extends actor_id (role_change target r) w h =
      let (x, w') = change_role c.env c.clear target r actor_id w in
      Outcome-keeps (Extends log) w.db _
        (λ out db' k. more w.db db' (k.entry ∷ []) (ground (arith, k.db_lem)) h) h x w'
        (change_role-Outcome c.env c.clear target actor_id w r)
  execute-Extends actor_id (activation target b) w h =
      let (x, w') = set_user_active c.env c.clear target b actor_id w in
      Outcome-keeps (Extends log) w.db _
        (λ out db' k. more w.db db' (k.entry ∷ []) (ground (arith, k.db_lem)) h) h x w'
        (set_user_active-Outcome c.env c.clear target actor_id w b)
  execute-Extends actor_id (removal target) w h =
      let (x, w') = remove_user_account c.env c.clear target actor_id w in
      Outcome-keeps (Extends log) w.db _
        (λ _ db' k. more w.db db' (k.1.entry ∷ []) (ground (arith, k.1.db_lem)) h) h x w'
        (remove_user_account-Outcome c.env c.clear target actor_id w)
  execute-Extends actor_id (invitation email secret r) w h =
      let (x, w') = invite c.env email secret r actor_id w in
      Outcome-keeps (Extends log) w.db _
        (λ out db' k. more w.db db' (k.entry ∷ []) (ground (arith, k.db_lem)) h) h x w'
        (invite-Outcome c.env email secret r actor_id w)

  record-Extends :
      (external_id : String) (args : NewPrediction) (db db' : Db) (o : Option PredictionOut)
      → Answered c.env external_id args db o db'
      → Extends log db
      → Extends log db'
  record-Extends external_id args db db' none k h = rw k h
  record-Extends external_id args db db' (some out) k h = rw (k.focus.db_lem) h

  upsert-Extends : (external_id : String) → Keeps (Extends log) (upsert_external c.env external_id)
  unfolding upsert_external
  upsert-Extends external_id =
      Keeps-bind _ _ (Keeps-gets (λ db. find? (has_external external_id) db.batches)) found
    where
      found : (o : _) → Keeps (Extends log) (get_or_create c.env external_id o)
      found (some b) = Keeps-pure (batch_out b)
      found none = Keeps-bind draw _ Keeps-draw λ n.
          let b = new_batch c.env external_id n in
          Keeps-bind (insert_batch c.env external_id b) _
            (Keeps-write (batch_fits b) (batch_clash b external_id)
              (λ db. record db { batches = db.batches ++ b ∷ [] }) λ db h clash. h)
            (λ _. Keeps-pure (batch_out b))

  perform-Extends :
      (e : Event) (w : World) → IsValid w.db × Extends log w.db → Extends log (perform c e w).db
  unfolding perform
  perform-Extends (administered actor_id command) w h = execute-Extends actor_id command w h.1
  perform-Extends (relabelling pid new_label actor_id) w h =
      let (r, w') = relabel c.env c.clear pid new_label actor_id w in
      Outcome-keeps (Extends log) w.db (Relabelled c.env pid new_label actor_id w.db)
        (λ out db' k. more w.db db' (k.entry ∷ []) (ground (arith, k.db_lem)) h.1) h.1 r w'
        (relabel-Outcome c.env c.clear pid new_label actor_id w)
  perform-Extends (upload bytes filename) w h =
      (enqueue_browser_tiff-KeepsDb c.env c.clear c.content upsert-Extends c.max_mb bytes
          filename).at
        w h.1
  perform-Extends (recording external_id args) w h =
      let (r, w') = record_prediction c.env c.clear external_id args w in
      Outcome-keeps (Extends log) w.db (Answered c.env external_id args w.db)
        (λ o db' k. record-Extends external_id args w.db db' o k h.1) h.1 r w'
        (record_prediction-Outcome c.env c.clear external_id args w h.0.batches)
  perform-Extends (failure external_id filename reason) w h =
      let (r, w') = mark_batch_failed c.env c.clear external_id filename reason w in
      Outcome-keeps (Extends log) w.db (λ _ db'. Failed c.env external_id filename reason w.db db')
        (λ _ db' k. more w.db db' k.entries (ground (arith, k.focus.db_lem)) h.1) h.1 r w'
        (mark_batch_failed-Outcome c.env c.clear external_id filename reason w h.0.batches)
  perform-Extends round w h =
      (ingest_once-KeepsDb {P = Extends log} c.env c.content c.max_mb).at w h.1

-- From valid tables, the audit log of any reachable state begins with that of the first one: no
-- row is changed or removed.
pub Reachable-audit_log :
    (c : Setting) (w v : World)
    → Reachable c w v
    → IsValid w.db
    → (entries : List AuditLog) × (v.db.audit_log ≡ w.db.audit_log ++ entries)
Reachable-audit_log c w v r valid =
    (Reachable-keeps c (λ u. IsValid u.db × Extends w.db.audit_log u.db)
      (λ e u k. (perform-IsValid c e u k.0, perform-Extends c w.db.audit_log e u k)) w v r
      (valid, ([], sym (append-nil w.db.audit_log)))).1
