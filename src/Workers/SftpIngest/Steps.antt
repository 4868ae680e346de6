-- ===== src/Workers/SftpIngest/Steps.antt =====
-- workers/sftp_ingest.py: the steps that take one file from the folder into the bucket.
use dropsort.Prelude.{
  ℕ, String, ◌≡◌, refl, ◌∙◌, str_eq, Bool, true, false, Option, none, some, List, ◌∷◌, find?, any,
  eq_refl,
}
use dropsort.Session.{Env}
use dropsort.Service.{World, Bytes, StoredObject, Job, ScannedFile}
use dropsort.Infra.{
  attempt, upload_bytes, enqueue_classification_job, read_file, answer_file, delete_file,
  remove_scanned, has_name,
}
use dropsort.Infra.Triples
use dropsort.Infra.Triples.{Triple, On, Post}
use dropsort.Infra.Live.{IsUnused, AllReady-push, is_of, object_under, object_under-head}
use dropsort.Pipeline.{Content, validate_tiff}
use dropsort.Services.BatchUploadService.{incoming_key}
use dropsort.Workers.SftpIngest.{route, ingest, failed_key}
use dropsort.Workers.SftpIngest.Keys.{IsApart}
use dropsort.Workers.SftpIngest.Custody.{
  Custody, Reading, Holding, Custody-store, Custody-remove, Custody-read, IsNewBatch,
}

module _ (env : Env) (content : Content) (original : List ScannedFile) (limit from : ℕ) where
  abbrev Kept : List StoredObject → List Job → List ScannedFile → Type 0
  Kept = Custody env content original limit from

  abbrev Safe : World → Type 0
  Safe = On Kept

  module _ (batch_id filename : String) where
    abbrev Starting : List StoredObject → List Job → List ScannedFile → Type 0
    Starting objects jobs inbox = Kept objects jobs inbox × IsNewBatch batch_id objects

    abbrev Read : Bytes → List StoredObject → List Job → List ScannedFile → Type 0
    Read bytes = Reading env content original limit from batch_id filename bytes

    abbrev Held : Bytes → List StoredObject → List Job → List ScannedFile → Type 0
    Held bytes = Holding env content original limit from filename bytes

    answer_file-Post :
        (o : Option ScannedFile) (w : World)
        → find? (has_name filename) w.inbox ≡ o
        → On Starting w
        → Post (λ bytes. On (Read bytes)) Safe (answer_file o w)
    answer_file-Post none w e h = h.0
    answer_file-Post (some f) w e h =
        Custody-read env content original limit from batch_id filename f w.objects w.jobs w.inbox
          h.0 h.1 e

    read_file-Triple : Triple (On Starting) (read_file env filename) (λ bytes. On (Read bytes)) Safe
    unfolding read_file
    read_file-Triple =
        Triples.Triple-bind (attempt env "sftp") _
          (Triples.Triple-weaken (λ v h. h.0) (Triples.Triple-attempt Starting env "sftp"))
          (λ _. record {
            at = λ w h. answer_file-Post (find? (has_name filename) w.inbox) w refl h;
          })

    module _ (bytes : Bytes) where
      stored-Holding :
          (o : StoredObject) (objects : List StoredObject) (jobs : List Job)
          (inbox : List ScannedFile)
          → o.content ≡ bytes
          → IsUnused o.key objects
          → IsApart env from limit o.key
          → Read bytes objects jobs inbox
          → Held bytes (o ∷ objects) jobs inbox
      stored-Holding o objects jobs inbox e unused apart h = record {
        custody =
            Custody-store env content original limit from o objects jobs inbox unused apart
              h.custody;
        read = h.read;
        stored = (o.key, o, object_under-head o objects, e);
      }

      -- Held, and given back under the key of the job to come.
      abbrev Waiting : List StoredObject → List Job → List ScannedFile → Type 0
      Waiting objects jobs inbox =
          Held bytes objects jobs inbox
          × ((o : StoredObject) × (object_under (incoming_key batch_id filename) objects ≡ some o)
              × (o.content ≡ bytes))

      queued :
          (j : Job) (objects : List StoredObject)
          → ((o : StoredObject) × (object_under (incoming_key batch_id filename) objects ≡ some o)
              × (o.content ≡ bytes))
          → is_of content j (object_under (incoming_key batch_id filename) objects)
            ≡ str_eq (content.sha256 bytes) j.content_sha256
      queued j objects (o, e, same) = rw (e, same) refl

      enqueue-Triple :
          (request_id : String)
          → Triple
              (On Waiting)
              (enqueue_classification_job env batch_id filename
                (incoming_key batch_id filename)
                (content.sha256 bytes)
                request_id)
              (λ _. On (Held bytes))
              Safe
      enqueue-Triple request_id =
          Triples.Triple-weaken (λ v h. h.0.custody)
            (Triples.Triple-enqueue Waiting (Held bytes) env batch_id filename
              (incoming_key batch_id filename) (content.sha256 bytes) request_id
              (λ objects jobs inbox id h.
                let c = h.0.custody in
                let j : Job = record {
                  id = id;
                  batch_id = batch_id;
                  filename = filename;
                  object_key = incoming_key batch_id filename;
                  content_sha256 = content.sha256 bytes;
                  request_id = request_id;
                } in
                record {
                  custody = record {
                    ready =
                        AllReady-push content j objects jobs c.ready
                          (queued j objects h.1 ∙ eq_refl (content.sha256 bytes));
                    folder = c.folder;
                    future = c.future;
                    kept = c.kept;
                  };
                  read = h.0.read;
                  stored = h.0.stored;
                }))

      route-Triple :
          IsApart env from limit (incoming_key batch_id filename)
          → IsApart env from limit (failed_key batch_id filename)
          → (request_id : String) (reason : Option String)
          → Triple
              (On (Read bytes))
              (route env content batch_id request_id filename bytes reason)
              (λ _. On (Held bytes))
              Safe
      route-Triple incoming failed request_id (some reason) =
          Triples.Triple-weaken (λ v h. h.custody)
            (Triples.Triple-upload (Read bytes) (Held bytes) env (failed_key batch_id filename)
              "application/octet-stream" bytes
              (λ objects jobs inbox h.
                stored-Holding _ objects jobs inbox refl (h.new filename).1 failed h))
      route-Triple incoming failed request_id none =
          let key = incoming_key batch_id filename in
          Triples.Triple-bind (upload_bytes env key bytes "image/tiff") _
            (Triples.Triple-weaken (λ v h. h.custody)
              (Triples.Triple-upload (Read bytes) Waiting env key "image/tiff" bytes
                (λ objects jobs inbox h. (
                  stored-Holding _ objects jobs inbox refl (h.new filename).0 incoming h,
                  (_, object_under-head _ objects, refl),
                ))))
            (λ _.
              Triples.Triple-bind _ _ (enqueue-Triple request_id)
                (λ _. Triples.Triple-pure (Held bytes) tt))

      remove_scanned-Post :
          (b : Bool) (w : World)
          → any (has_name filename) w.inbox ≡ b
          → On (Held bytes) w
          → Post (λ _. Safe) Safe (remove_scanned filename w)
      remove_scanned-Post true w e h =
          rw e (
            Custody-remove env content original limit from filename bytes w.objects w.jobs w.inbox
              h)
      remove_scanned-Post false w e h = rw e (h.custody)

      delete_file-Triple : Triple (On (Held bytes)) (delete_file env filename) (λ _. Safe) Safe
      unfolding delete_file
      delete_file-Triple =
          Triples.Triple-bind (attempt env "sftp") _
            (Triples.Triple-weaken (λ v h. h.custody)
              (Triples.Triple-attempt (Held bytes) env "sftp"))
            (λ _. record {
              at = λ w h. remove_scanned-Post (any (has_name filename) w.inbox) w refl h;
            })

    pub ingest-Triple :
        IsApart env from limit (incoming_key batch_id filename)
        → IsApart env from limit (failed_key batch_id filename)
        → (max_mb : ℕ) (request_id : String)
        → Triple
            (On Starting)
            (ingest env content max_mb filename request_id batch_id)
            (λ _. Safe)
            Safe
    ingest-Triple incoming failed max_mb request_id =
        Triples.Triple-bind (read_file env filename) _ read_file-Triple λ bytes.
          Triples.Triple-bind
            (route env content batch_id request_id filename bytes
              (validate_tiff content max_mb filename bytes))
            _ (route-Triple bytes incoming failed request_id _) λ _. delete_file-Triple bytes
