-- ===== src/Services/BatchUploadService.antt =====
-- services/batch_upload_service.py
pub mod Outcomes
pub mod Keeping
use dropsort.Prelude.{
  ⊤, ℕ, String, Bool, true, false, not, ◌||◌, Option, none, some, List, [], ◌∷◌, str_eq,
  if◌then◌else◌, format, uuid_str,
}
use dropsort.Prelude.Paths.{path_name, contains}
use dropsort.Domain.{Uuid, BatchOut}
use dropsort.Exec.{Result, ok, err, upload_rejected, pure, raise, raise_if, ◌>>=◌, ◌>>◌}
use dropsort.Session.{Env}
use dropsort.Service.{Clear, Action, Bytes, begin, spin}
use dropsort.Infra.{upload_bytes, enqueue_classification_job}
use dropsort.Pipeline.{Content, validate_tiff}
use dropsort.Repositories.Batches.{upsert_external}
use dropsort.Services.BatchService.{invalidate_batch_caches}

-- `_safe_filename`; a missing name reaches the service as the empty one.
unfoldable pub safe_filename : String → Result String
unfolding path_name contains
safe_filename raw =
    let name = path_name raw in
    if str_eq raw ""
    then err (upload_rejected "missing_filename")
    else (if str_eq name "" || str_eq name "." || str_eq name ".."
        then err (upload_rejected "invalid_filename")
        else (if contains 47 raw || contains 92 raw
            then err (upload_rejected "invalid_filename")
            else ok name))

-- What was raised or returned before.
abbrev pub from_result {ℓ} : {A : Type ℓ} → Result A → Action A
from_result r w = (r, w)

module _ (env : Env) where
  -- `str(uuid.uuid4())`
  abbrev pub new_uuid_text : Action String
  new_uuid_text = do n ← spin; pure (uuid_str (env.uuid4 n))

  abbrev pub refuse : String → Bytes → Option String → Action ⊤
  refuse safe_name file_bytes none = pure tt
  refuse safe_name file_bytes (some reason) = do
    q_batch ← new_uuid_text
    upload_bytes env (format ("failed/" ∷ q_batch ∷ "/" ∷ safe_name ∷ [])) file_bytes
        "application/octet-stream"
    raise (upload_rejected reason)

abbrev pub incoming_key : String → String → String
incoming_key external_id name = format ("incoming/" ∷ external_id ∷ "/" ∷ name ∷ [])

module _ (env : Env) (clear : Clear) (content : Content) where
  abbrev pub announce : String → String → String → Bytes → BatchOut → Action (BatchOut × Uuid)
  announce external_id request_id safe_name file_bytes batch = do
    job_id ←
        enqueue_classification_job env external_id safe_name (incoming_key external_id safe_name)
          (content.sha256 file_bytes) request_id
    invalidate_batch_caches clear batch.id
    pure (batch, job_id)

  abbrev pub store : String → String → String → Bytes → Action (BatchOut × Uuid)
  store external_id request_id safe_name file_bytes = do
    upload_bytes env (incoming_key external_id safe_name) file_bytes "image/tiff"
    batch ← begin (upsert_external env external_id)
    announce external_id request_id safe_name file_bytes batch

  abbrev pub accept : String → Bytes → Action (BatchOut × Uuid)
  accept safe_name file_bytes = do
    external_id ← new_uuid_text env
    request_id ← new_uuid_text env
    store external_id request_id safe_name file_bytes

  unfoldable pub enqueue_browser_tiff : ℕ → Bytes → String → Action (BatchOut × Uuid)
  enqueue_browser_tiff max_mb file_bytes filename = do
    safe_name ← from_result (safe_filename filename)
    refuse env safe_name file_bytes (validate_tiff content max_mb safe_name file_bytes)
    accept safe_name file_bytes
