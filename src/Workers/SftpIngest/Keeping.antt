-- ===== src/Workers/SftpIngest/Keeping.antt =====
-- workers/sftp_ingest.py: the tables under a round of the poller.
use dropsort.Prelude.{⊤, ℕ, String, Option, none, some, List, [], ◌∷◌}
use dropsort.Db.{Db}
use dropsort.Session.{Env}
use dropsort.Service.{Action, Bytes}
use dropsort.Service.Keeps.{KeepsDb, KeepsDb-bind, KeepsDb-pure}
use dropsort.Infra.{upload_bytes, list_files, read_file}
use dropsort.Infra.Keeps.{
  upload_bytes-KeepsDb, enqueue-KeepsDb, list_files-KeepsDb, read_file-KeepsDb, delete_file-KeepsDb,
}
use dropsort.Pipeline.{Content, validate_tiff}
use dropsort.Services.BatchUploadService.{new_uuid_text, incoming_key}
use dropsort.Services.BatchUploadService.Keeping.{new_uuid_text-KeepsDb}
use dropsort.Workers.SftpIngest.{route, ingest, ingest_file, ingest_all, ingest_once, swallow}

module _ {P : Db → Type 0} (env : Env) (content : Content) where
  route-KeepsDb :
      (batch_id request_id filename : String) (bytes : Bytes) (reason : Option String)
      → KeepsDb P (route env content batch_id request_id filename bytes reason)
  route-KeepsDb batch_id request_id filename bytes (some reason) =
      upload_bytes-KeepsDb env _ bytes _
  route-KeepsDb batch_id request_id filename bytes none =
      KeepsDb-bind (upload_bytes env (incoming_key batch_id filename) bytes "image/tiff") _
        (upload_bytes-KeepsDb env _ bytes _)
        λ _.
          KeepsDb-bind _ _ (enqueue-KeepsDb env batch_id filename _ _ request_id)
            λ _. KeepsDb-pure tt

  swallow-KeepsDb : (m : Action ⊤) → KeepsDb P m → KeepsDb P (swallow m)
  swallow-KeepsDb m k = record { at = λ w h. k.at w h }

  ingest-KeepsDb :
      (max_mb : ℕ) (filename request_id batch_id : String)
      → KeepsDb P (ingest env content max_mb filename request_id batch_id)
  ingest-KeepsDb max_mb filename request_id batch_id =
      KeepsDb-bind (read_file env filename) _ (read_file-KeepsDb env filename) λ bytes.
        KeepsDb-bind
          (route env content batch_id request_id filename bytes
            (validate_tiff content max_mb filename bytes))
          _ (route-KeepsDb batch_id request_id filename bytes _)
          λ _. delete_file-KeepsDb env filename

  ingest_all-KeepsDb :
      (max_mb : ℕ) (filenames : List String) → KeepsDb P (ingest_all env content max_mb filenames)
  ingest_all-KeepsDb max_mb [] = KeepsDb-pure tt
  ingest_all-KeepsDb max_mb (filename ∷ filenames) =
      KeepsDb-bind (ingest_file env content max_mb filename) _
        (KeepsDb-bind (new_uuid_text env) _ (new_uuid_text-KeepsDb env) λ request_id.
          KeepsDb-bind (new_uuid_text env) _ (new_uuid_text-KeepsDb env)
            λ batch_id. swallow-KeepsDb _ (ingest-KeepsDb max_mb filename request_id batch_id))
        (λ _. ingest_all-KeepsDb max_mb filenames)

  pub ingest_once-KeepsDb : (max_mb : ℕ) → KeepsDb P (ingest_once env content max_mb)
  unfolding ingest_once
  ingest_once-KeepsDb max_mb =
      KeepsDb-bind (list_files env) _ (list_files-KeepsDb env) (ingest_all-KeepsDb max_mb)
