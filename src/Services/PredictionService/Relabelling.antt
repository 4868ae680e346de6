-- ===== src/Services/PredictionService/Relabelling.antt =====
-- services/prediction_service.py: the outcome of `relabel`.
use dropsort.Prelude.{
  ℕ, String, ◌≡◌, refl, true, false, Option, none, some, [], ◌∷◌, ◌++◌, arith, Option-cases, inl,
  inr, uuid_str,
}
use dropsort.Prelude.Float.{float_ge}
use dropsort.Domain.{Uuid, PredictionOut}
use dropsort.Db.{Db, Prediction, AuditLog}
use dropsort.Db.Tables.{row, has, replace}
use dropsort.Db.Invariant.{prediction_id, user_id}
use dropsort.Exec.{ok, pure, or_raise, prediction_not_found, ◌>>=◌, ◌>>◌}
use dropsort.Exec.Success.{bind-eq-ok}
use dropsort.Session.{Env, Session, Tx}
use dropsort.Service.{World, Clear, begin, clear_cache, detail_namespace}
use dropsort.Service.Success.{Outcome, begin-Outcome, continue-Outcome}
use dropsort.Repositories.Predictions
use dropsort.Repositories.Predictions.{relabelled, prediction_out}
use dropsort.Repositories.Predictions.Success.{relabel-eq-ok}
use dropsort.Repositories.Audit.{append, audit_row, audit_clash}
use dropsort.Repositories.Audit.Success.{append-eq-ok}
use dropsort.Services.PredictionService.{
  relabel, relabel_tx, relabel_entry, relabel_confidence_threshold,
}

-- A prediction with its three relabel columns set.
abbrev pub with_label : String → Uuid → ℕ → Prediction → Prediction
with_label new_label actor_id now p = record {
  id = p.id;
  batch_id = p.batch_id;
  filename = p.filename;
  content_sha256 = p.content_sha256;
  minio_input_key = p.minio_input_key;
  minio_overlay_key = p.minio_overlay_key;
  label = p.label;
  top1_confidence = p.top1_confidence;
  top5_json = p.top5_json;
  relabel_label = some new_label;
  relabel_actor_id = some actor_id;
  relabel_at = some now;
  created_at = p.created_at;
}

-- What a client is shown of it.
abbrev pub shown : String → Uuid → ℕ → Prediction → PredictionOut
shown new_label actor_id now p = record {
  id = p.id;
  batch_id = p.batch_id;
  filename = p.filename;
  label = p.label;
  top1_confidence = p.top1_confidence;
  top5 = p.top5_json;
  minio_overlay_key = p.minio_overlay_key;
  relabel_label = some new_label;
  relabel_actor_id = some actor_id;
  relabel_at = some now;
  created_at = p.created_at;
}

module _ (env : Env) (pid : Uuid) (new_label : String) (actor_id : Uuid) (db : Db) where
  -- The prediction is given its new label, and the audit log one row of the actor.
  pub record Relabelled (out : PredictionOut) (db' : Db) : Type 0 where
    pub old : Prediction
    pub moment : ℕ
    pub entry : AuditLog
    pub found : row prediction_id pid db.predictions ≡ some old
    pub unsure : float_ge old.top1_confidence relabel_confidence_threshold ≡ false
    pub known : has user_id actor_id db.users ≡ true
    pub out_lem : out ≡ shown new_label actor_id (env.now moment) old
    pub actor : entry.actor_id ≡ actor_id
    pub action : entry.action ≡ "prediction_relabeled"
    pub target_type : entry.target_type ≡ "prediction"
    pub target : entry.target_id ≡ uuid_str pid
    pub logged : audit_clash entry db ≡ false
    pub db_lem : db' ≡ record db {
      predictions =
          replace prediction_id (with_label new_label actor_id (env.now moment) old) db.predictions;
      audit_log = db.audit_log ++ entry ∷ [];
    }

  abbrev rest : PredictionOut → Tx PredictionOut
  rest current = do
    replaced ← Predictions.relabel env pid new_label actor_id
    updated ← or_raise (prediction_not_found pid) replaced
    append env (relabel_entry pid current new_label actor_id)
    pure updated

  abbrev log : PredictionOut → PredictionOut → Tx PredictionOut
  log current updated = do append env (relabel_entry pid current new_label actor_id); pure updated

  guarded :
      (old : Prediction) (n : ℕ) (out : PredictionOut) (t : Session)
      → row prediction_id pid db.predictions ≡ some old
      → let s : Session = record { start = db; db = db; draws = n } in
        relabel_tx env pid new_label actor_id s ≡ (ok out, t)
        → (float_ge old.top1_confidence relabel_confidence_threshold ≡ false)
          × (rest (prediction_out old) s ≡ (ok out, t))
  guarded old n out t e h = ground arith

  logged-Relabelled :
      (old : Prediction) (current : PredictionOut) (s s' t : Session)
      (replaced : Option PredictionOut) (out : PredictionOut)
      → s.db ≡ db
      → row prediction_id pid db.predictions ≡ some old
      → float_ge old.top1_confidence relabel_confidence_threshold ≡ false
      → Predictions.relabel env pid new_label actor_id s ≡ (ok replaced, s')
      → (do updated ← or_raise (prediction_not_found pid) replaced; log current updated) s'
        ≡ (ok out, t)
      → Relabelled out t.db
  logged-Relabelled old current s s' t none out i e g c k = ground arith
  logged-Relabelled old current s s' t (some u) out i e g c k =
      let (old', e', known, out', db') = relabel-eq-ok env pid new_label actor_id s s' u c in
      let (o, t', a, l) =
        bind-eq-ok (append env (relabel_entry pid current new_label actor_id)) (λ _. pure u) s' k in
      let (fit, clash, after) =
        append-eq-ok env (relabel_entry pid current new_label actor_id) s' t' o a in
      record {
        old = old;
        moment = s.draws;
        entry = audit_row env (relabel_entry pid current new_label actor_id) s'.draws;
        found = e;
        unsure = g;
        known = ground arith;
        out_lem = ground arith;
        actor = refl;
        action = refl;
        target_type = refl;
        target = refl;
        logged = ground arith;
        db_lem = ground arith;
      }

  relabel_tx-Relabelled :
      (n : ℕ) (out : PredictionOut) (t : Session)
      → relabel_tx env pid new_label actor_id (record { start = db; db = db; draws = n })
        ≡ (ok out, t)
      → Relabelled out t.db
  relabel_tx-Relabelled n out t h = elim (Option-cases (row prediction_id pid db.predictions)) [
    | inl e ↦ ground arith
    | inr (old, e) ↦
        let s : Session = record { start = db; db = db; draws = n } in
        let (g, k) = guarded old n out t e h in
        let (replaced, s', c, l) =
          bind-eq-ok (Predictions.relabel env pid new_label actor_id) _ s k in
        logged-Relabelled old (prediction_out old) s s' t replaced out refl e g c l
  ]

module _ (env : Env) (clear : Clear) (pid : Uuid) (new_label : String) (actor_id : Uuid)
    (w : World) where
  -- `relabel` raises and leaves the tables, or the prediction of the identifier had a confidence below
  -- 0.7, the actor is a user, its three relabel columns take the new label, the actor and the time
  -- while its own label and every other column stay, the answer shows this row, and one audit row of
  -- the actor about the prediction is appended.
  pub relabel-Outcome :
      Outcome w.db
        (Relabelled env pid new_label actor_id w.db)
        (relabel env clear pid new_label actor_id w)
  unfolding relabel
  relabel-Outcome =
      let P = Relabelled env pid new_label actor_id w.db in
      let tx =
        begin-Outcome P (relabel_tx env pid new_label actor_id) w
          (λ out t h. relabel_tx-Relabelled env pid new_label actor_id w.db w.draws out t h) in
      let (r, w') = begin (relabel_tx env pid new_label actor_id) w in
      continue-Outcome w.db P P r w'
        (λ updated. do
          clear_cache clear (detail_namespace (uuid_str updated.batch_id))
          clear_cache clear "predictions-recent"
          pure updated)
        tx (λ out w'' h. h)
