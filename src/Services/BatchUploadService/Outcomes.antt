-- ===== src/Services/BatchUploadService/Outcomes.antt =====
-- services/batch_upload_service.py: the outcome of an upload.
use dropsort.Prelude.{
  eq_iff, Bool-cases, ◌≢◌, sym, ℕ, String, ◌≡◌, refl, ap, true, false, Option, none, some, List, [],
  ◌∷◌, ◌++◌, arith, format, any, inl, inr,
}
use dropsort.Prelude.Paths.{path_name, contains, path_name_whole, split}
use dropsort.Domain.{BatchOut}
use dropsort.Exec.{Result, ok, err, upload_rejected, ◌>>=◌, ◌>>◌}
use dropsort.Session.{Env}
use dropsort.Service.{World, Clear, Bytes, StoredObject, Job, ScannedFile, begin}
use dropsort.Infra.{upload_bytes, enqueue_classification_job}
use dropsort.Infra.Triples
use dropsort.Infra.Triples.{Triple, On, Post, Post-map}
use dropsort.Infra.Backing.{Backed, holds, holds_stored, Backed-store, Backed-push}
use dropsort.Pipeline.{Content, validate_tiff, validate_tiff_iff, IsAccepted}
use dropsort.Repositories.Batches.{upsert_external}
use dropsort.Services.BatchUploadService.{
  safe_filename, from_result, new_uuid_text, refuse, announce, store, accept, incoming_key,
  enqueue_browser_tiff,
}

module _ (env : Env) (clear : Clear) (content : Content) (bytes : Bytes) (before : List Job) where
  -- No job is added.
  abbrev pub Unchanged : List StoredObject → List Job → List ScannedFile → Type 0
  Unchanged objects jobs inbox = Backed content objects jobs × (jobs ≡ before)

  abbrev Stored : String → List StoredObject → List Job → List ScannedFile → Type 0
  Stored key objects jobs inbox =
      Unchanged objects jobs inbox × (any (holds content key (content.sha256 bytes)) objects ≡ true)

  -- One job is added, for the name and the content.
  abbrev pub Enqueued : String → List StoredObject → List Job → List ScannedFile → Type 0
  Enqueued name objects jobs inbox =
      Backed content objects jobs
      × ((j : Job) × (jobs ≡ before ++ j ∷ [])
          × (j.filename ≡ name)
          × (j.content_sha256 ≡ content.sha256 bytes))

  new_uuid_text-Triple :
      (R : List StoredObject → List Job → List ScannedFile → Type 0) {E : World → Type 0}
      → Triple (On R) (new_uuid_text env) (λ _. On R) E
  new_uuid_text-Triple R =
      Triples.Triple-bind _ _ (Triples.Triple-spin R) λ n. Triples.Triple-pure R _

  announce-Triple :
      (external_id request_id name : String) (batch : BatchOut)
      → Triple
          (On (Stored (incoming_key external_id name)))
          (announce env clear content external_id request_id name bytes batch)
          (λ _. On (Enqueued name))
          (On Unchanged)
  announce-Triple external_id request_id name batch =
      let key = incoming_key external_id name in
      Triples.Triple-bind
        (enqueue_classification_job env external_id name key (content.sha256 bytes) request_id) _
        (Triples.Triple-weaken (λ v h. h.0)
          (Triples.Triple-enqueue (Stored key) (Enqueued name) env external_id name key
            (content.sha256 bytes) request_id
            (λ objects jobs inbox id h.
              let j : Job = record {
                id = id;
                batch_id = external_id;
                filename = name;
                object_key = key;
                content_sha256 = content.sha256 bytes;
                request_id = request_id;
              } in
              (
                Backed-push content j objects jobs h.0.0 h.1,
                (j, ap (λ (js : List Job). js ++ j ∷ []) h.0.1, refl, refl),
              ))))
        (λ job_id. record { at = λ w h. h })

  store-Triple :
      (external_id request_id name : String)
      → Triple
          (On Unchanged)
          (store env clear content external_id request_id name bytes)
          (λ _. On (Enqueued name))
          (On Unchanged)
  store-Triple external_id request_id name =
      let key = incoming_key external_id name in
      Triples.Triple-bind (upload_bytes env key bytes "image/tiff") _
        (Triples.Triple-upload Unchanged (Stored key) env key "image/tiff" bytes
          (λ objects jobs inbox h.
            let o : StoredObject = record {
              key = key;
              content = bytes;
              content_type = "image/tiff";
            } in
            (
              (Backed-store content o objects jobs h.0, h.1),
              holds_stored content key "image/tiff" bytes objects,
            )))
        (λ _.
          Triples.Triple-bind (begin (upsert_external env external_id)) _
            (Triples.Triple-weaken (λ v h. h.0)
              (Triples.Triple-begin (Stored key) (upsert_external env external_id)))
            (announce-Triple external_id request_id name))

  accept-Triple :
      (name : String)
      → Triple
          (On Unchanged)
          (accept env clear content name bytes)
          (λ _. On (Enqueued name))
          (On Unchanged)
  accept-Triple name =
      Triples.Triple-bind (new_uuid_text env) _ (new_uuid_text-Triple Unchanged) λ external_id.
        Triples.Triple-bind (new_uuid_text env) _ (new_uuid_text-Triple Unchanged)
          λ request_id. store-Triple external_id request_id name

dots_refused : (name : String) → safe_filename ".." ≢ ok name
unfolding safe_filename path_name contains split
dots_refused name h = ground arith

-- A name that passes is the given one, and has no separator in it.
pub safe_filename-eq-ok :
    (raw name : String)
    → safe_filename raw ≡ ok name
    → (name ≡ raw)
      × (raw ≢ "")
      × (raw ≢ "..")
      × (contains 47 raw ≡ false)
      × (contains 92 raw ≡ false)
unfolding safe_filename
safe_filename-eq-ok raw name h = elim (Bool-cases (contains 47 raw)) [
  | inl slash ↦ ground arith
  | inr plain ↦ (
    ground (arith, path_name_whole raw plain, eq_iff (path_name raw) ""),
    λ e. ground (arith, e, eq_iff raw ""),
    λ e. dots_refused name (rw e at h),
    plain,
    ground arith,
  )
]

module _ (env : Env) (clear : Clear) (content : Content) (bytes : Bytes) (before : List Job) where
  abbrev None : World → Type 0
  None = On (Unchanged env clear content bytes before)

  -- A refused file is put under `failed/`, and the call raises.
  refuse-Triple :
      (name reason : String)
      → Triple None (refuse env name bytes (some reason)) (λ _ _. some reason ≡ none) None
  refuse-Triple name reason =
      let R = Unchanged env clear content bytes before in
      Triples.Triple-bind (new_uuid_text env) _
        (new_uuid_text-Triple env clear content bytes before R)
        (λ q.
          let key = format ("failed/" ∷ q ∷ "/" ∷ name ∷ []) in
          Triples.Triple-bind (upload_bytes env key bytes "application/octet-stream") _
            (Triples.Triple-upload R R env key "application/octet-stream" bytes
              (λ objects jobs inbox h.
                let o : StoredObject = record {
                  key = key;
                  content = bytes;
                  content_type = "application/octet-stream";
                } in
                (Backed-store content o objects jobs h.0, h.1)))
            (λ _. Triples.Triple-raise R (upload_rejected reason)))

  judge :
      (name : String) (reason : Option String) (w : World)
      → None w
      → Post
          (λ _ w'. (reason ≡ none) × On (Enqueued env clear content bytes before name) w')
          None
          ((refuse env name bytes reason >> accept env clear content name bytes) w)
  judge name none w h =
      let (r, w') = accept env clear content name bytes w in
      Post-map _ _ _ r w' (λ a v k. (refl, k))
        ((accept-Triple env clear content bytes before name).at w h)
  judge name (some reason) w h =
      (Triples.Triple-bind (refuse env name bytes (some reason))
          (λ _. accept env clear content name bytes) (refuse-Triple name reason)
          (λ _. record { at = λ v k. cc })).at
        w h

module _ (env : Env) (clear : Clear) (content : Content) (max_mb : ℕ) (bytes : Bytes)
    (filename : String) (w : World) where
  name_judged :
      (r : Result String)
      → safe_filename filename ≡ r
      → Backed content w.objects w.jobs
      → Post
          (λ _ w'.
            IsAccepted content max_mb filename bytes
            × On (Enqueued env clear content bytes w.jobs filename) w')
          (On (Unchanged env clear content bytes w.jobs))
          ((do
            safe_name ← from_result r
            refuse env safe_name bytes (validate_tiff content max_mb safe_name bytes)
            accept env clear content safe_name bytes)
            w)
  name_judged (err e) i h = (h, refl)
  name_judged (ok name) i h =
      let (same, _, _, _, _) = safe_filename-eq-ok filename name i in
      let reason = validate_tiff content max_mb name bytes in
      let (r, w') = (refuse env name bytes reason >> accept env clear content name bytes) w in
      Post-map _ _ _ r w'
        (λ a v k. (
          rw (sym same) ((validate_tiff_iff content max_mb name bytes).0 k.0),
          rw (sym same) (k.1),
        ))
        (judge env clear content bytes w.jobs name reason w (h, refl))

  -- When every job has had its object stored, an upload raises and leaves the queue, or the file has
  -- some bytes, at most the limit, a TIFF name and an image that Pillow verifies, and one job with its
  -- name and hash is appended; either way every job has had its object stored.
  pub enqueue_browser_tiff-Outcome :
      Backed content w.objects w.jobs
      → Post
          (λ _ w'.
            IsAccepted content max_mb filename bytes
            × On (Enqueued env clear content bytes w.jobs filename) w')
          (On (Unchanged env clear content bytes w.jobs))
          (enqueue_browser_tiff env clear content max_mb bytes filename w)
  unfolding enqueue_browser_tiff
  enqueue_browser_tiff-Outcome h = name_judged (safe_filename filename) refl h
