-- ===== src/Workers/SftpIngest.antt =====
-- app/workers/sftp_ingest.py: one round over the scanner's folder.
pub mod Keys
pub mod Custody
pub mod Steps
pub mod Rounds
pub mod Keeping
pub mod Draining
use dropsort.Prelude.{⊤, ℕ, zero, suc, String, Option, none, some, List, [], ◌∷◌, format}
use dropsort.Domain.{Uuid}
use dropsort.Exec.{Result, ok, err, pure, ◌>>=◌, ◌>>◌}
use dropsort.Session.{Env}
use dropsort.Service.{World, Action, Bytes}
use dropsort.Infra.{upload_bytes, enqueue_classification_job, list_files, read_file, delete_file}
use dropsort.Pipeline.{Content, validate_tiff}
use dropsort.Services.BatchUploadService.{new_uuid_text, incoming_key}

abbrev pub failed_key : String → String → String
failed_key batch_id filename = format ("failed/" ∷ batch_id ∷ "/" ∷ filename ∷ [])

-- `try: … except Exception: logger.exception(…)`
abbrev pub swallow : Action ⊤ → Action ⊤
swallow m w = let (r, w') = m w in (ok tt, w')

module _ (env : Env) (content : Content) where
  -- Quarantine with a reason, ingestion without.
  abbrev pub route : String → String → String → Bytes → Option String → Action ⊤
  route batch_id request_id filename bytes (some reason) =
      upload_bytes env (failed_key batch_id filename) bytes "application/octet-stream"
  route batch_id request_id filename bytes none = do
    upload_bytes env (incoming_key batch_id filename) bytes "image/tiff"
    enqueue_classification_job env batch_id filename (incoming_key batch_id filename)
        (content.sha256 bytes) request_id
    pure tt

  abbrev pub ingest : ℕ → String → String → String → Action ⊤
  ingest max_mb filename request_id batch_id = do
    bytes ← read_file env filename
    route batch_id request_id filename bytes (validate_tiff content max_mb filename bytes)
    delete_file env filename

  abbrev pub ingest_file : ℕ → String → Action ⊤
  ingest_file max_mb filename = do
    request_id ← new_uuid_text env
    batch_id ← new_uuid_text env
    swallow (ingest max_mb filename request_id batch_id)

  abbrev pub ingest_all : ℕ → List String → Action ⊤
  ingest_all max_mb [] = pure tt
  ingest_all max_mb (filename ∷ filenames) = do
    ingest_file max_mb filename
    ingest_all max_mb filenames

  unfoldable pub ingest_once : ℕ → Action ⊤
  ingest_once max_mb = do filenames ← list_files env; ingest_all max_mb filenames

  -- `main`: the rounds of the endless loop, up to a number of them. A failed listing ends it.
  unfoldable pub poll : ℕ → ℕ → Action ⊤
  poll max_mb zero = pure tt
  poll max_mb (suc n) = do ingest_once max_mb; poll max_mb n
