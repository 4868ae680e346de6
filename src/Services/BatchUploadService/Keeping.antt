-- ===== src/Services/BatchUploadService/Keeping.antt =====
-- services/batch_upload_service.py: the tables under an upload.
use dropsort.Prelude.{ℕ, String, Option, none, some, [], ◌∷◌, format}
use dropsort.Db.{Db}
use dropsort.Domain.{BatchOut}
use dropsort.Exec.{upload_rejected}
use dropsort.Session.{Env}
use dropsort.Session.Keeps.{Keeps}
use dropsort.Service.{Clear, Bytes, begin}
use dropsort.Service.Keeps.{KeepsDb, KeepsDb-bind, KeepsDb-begin, KeepsDb-pure, KeepsDb-raise}
use dropsort.Infra.{upload_bytes, enqueue_classification_job}
use dropsort.Infra.Keeps.{upload_bytes-KeepsDb, enqueue-KeepsDb}
use dropsort.Pipeline.{Content, validate_tiff}
use dropsort.Repositories.Batches.{upsert_external}
use dropsort.Services.BatchUploadService.{
  safe_filename, from_result, new_uuid_text, refuse, announce, store, incoming_key,
  enqueue_browser_tiff,
}

module _ {P : Db → Type 0} (env : Env) where
  pub new_uuid_text-KeepsDb : KeepsDb P (new_uuid_text env)
  new_uuid_text-KeepsDb = record { at = λ w h. h }

  pub refuse-KeepsDb :
      (name : String) (bytes : Bytes) (reason : Option String)
      → KeepsDb P (refuse env name bytes reason)
  refuse-KeepsDb name bytes none = KeepsDb-pure tt
  refuse-KeepsDb name bytes (some reason) =
      KeepsDb-bind (new_uuid_text env) _ new_uuid_text-KeepsDb λ q.
        KeepsDb-bind
          (upload_bytes env (format ("failed/" ∷ q ∷ "/" ∷ name ∷ [])) bytes
            "application/octet-stream")
          _ (upload_bytes-KeepsDb env _ bytes _) λ _. KeepsDb-raise (upload_rejected reason)

module _ {P : Db → Type 0} (env : Env) (clear : Clear) (content : Content)
    (upsert : (external_id : String) → Keeps P (upsert_external env external_id)) where
  announce-KeepsDb :
      (external_id request_id name : String) (bytes : Bytes) (batch : BatchOut)
      → KeepsDb P (announce env clear content external_id request_id name bytes batch)
  announce-KeepsDb external_id request_id name bytes batch =
      KeepsDb-bind
        (enqueue_classification_job env external_id name (incoming_key external_id name)
          (content.sha256 bytes) request_id)
        _ (enqueue-KeepsDb env external_id name _ _ request_id) (λ _. record { at = λ w h. h })

  store-KeepsDb :
      (external_id request_id name : String) (bytes : Bytes)
      → KeepsDb P (store env clear content external_id request_id name bytes)
  store-KeepsDb external_id request_id name bytes =
      KeepsDb-bind (upload_bytes env (incoming_key external_id name) bytes "image/tiff") _
        (upload_bytes-KeepsDb env _ bytes _)
        λ _.
          KeepsDb-bind (begin (upsert_external env external_id)) _
            (KeepsDb-begin (upsert_external env external_id) (upsert external_id))
            (announce-KeepsDb external_id request_id name bytes)

  pub enqueue_browser_tiff-KeepsDb :
      (max_mb : ℕ) (bytes : Bytes) (filename : String)
      → KeepsDb P (enqueue_browser_tiff env clear content max_mb bytes filename)
  unfolding enqueue_browser_tiff
  enqueue_browser_tiff-KeepsDb max_mb bytes filename =
      KeepsDb-bind (from_result (safe_filename filename)) _ (record { at = λ w h. h })
        λ name.
          KeepsDb-bind (refuse env name bytes (validate_tiff content max_mb name bytes)) _
            (refuse-KeepsDb env name bytes _)
            λ _. KeepsDb-bind (new_uuid_text env) _ (new_uuid_text-KeepsDb env) λ external_id.
              KeepsDb-bind (new_uuid_text env) _ (new_uuid_text-KeepsDb env)
                λ request_id. store-KeepsDb external_id request_id name bytes
