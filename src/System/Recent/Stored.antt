-- ===== src/System/Recent/Stored.antt =====
-- The stored answers under the events of the program: no event stores one.
use dropsort.Prelude.{
  ⊤, ℕ, String, ◌≡◌, inr, refl, ap, Option, none, some, List, [], ◌∷◌, find?, format, arith,
  uuid_str,
}
use dropsort.Domain.{Uuid, BatchOut}
use dropsort.Exec.{external, upload_rejected, raise_if}
use dropsort.Session.{Env}
use dropsort.Service.{
  World, Action, Cache, Clear, Bytes, ScannedFile, begin, clear_cache, load_policy, spin,
  detail_namespace,
}
use dropsort.Service.Thins.{
  IsClear, Thinner, Thins, Thins-pure, Thins-raise, Thins-begin, Thins-spin, Thins-raise_if,
  Thins-load_policy, Thins-clear, Thins-bind,
}
use dropsort.Infra.{
  attempt, upload_bytes, enqueue_classification_job, list_files, read_file, delete_file,
  answer_file, remove_scanned, has_name,
}
use dropsort.Pipeline.{Content, validate_tiff}
use dropsort.Repositories.Batches.{upsert_external}
use dropsort.Services.UserService.{
  change_role, set_user_active, remove_user_account, invite, change_role_tx, set_user_active_tx,
  remove_user_tx, invite_tx,
}
use dropsort.Services.UserService.History.{
  Command, role_change, activation, removal, invitation, execute,
}
use dropsort.Services.PredictionService.{mark_batch_failed, failed_tx}
use dropsort.Services.BatchUploadService.{
  safe_filename, from_result, new_uuid_text, refuse, announce, store, incoming_key,
  enqueue_browser_tiff,
}
use dropsort.Workers.SftpIngest.{route, ingest, ingest_file, ingest_all, ingest_once, swallow}

module _ (key : String) (env : Env) where
  attempt-Thins : (system : String) → Thins key (attempt env system)
  attempt-Thins system = Thins-bind key spin _ (Thins-spin key) λ n.
      Thins-bind key (raise_if (env.fails n) (external system)) _
        (Thins-raise_if key (env.fails n) (external system)) (λ _. Thins-pure key n)

  pub upload_bytes-Thins :
      (object_key : String) (content : Bytes) (content_type : String)
      → Thins key (upload_bytes env object_key content content_type)
  unfolding upload_bytes
  upload_bytes-Thins object_key content content_type =
      Thins-bind key (attempt env "minio") _ (attempt-Thins "minio")
        (λ _. record { at = λ w. inr refl })

  enqueue-Thins :
      (batch_id filename object_key content_sha256 request_id : String)
      → Thins key
          (enqueue_classification_job env batch_id filename object_key content_sha256 request_id)
  unfolding enqueue_classification_job
  enqueue-Thins batch_id filename object_key content_sha256 request_id =
      Thins-bind key (attempt env "redis") _ (attempt-Thins "redis")
        (λ _. record { at = λ w. inr refl })

  list_files-Thins : Thins key (list_files env)
  unfolding list_files
  list_files-Thins =
      Thins-bind key (attempt env "sftp") _ (attempt-Thins "sftp")
        (λ _. record { at = λ w. inr refl })

  answer_file-cache : (o : Option ScannedFile) (w : World) → (answer_file o w).1.cache ≡ w.cache
  answer_file-cache none w = refl
  answer_file-cache (some f) w = refl

  read_file-Thins : (filename : String) → Thins key (read_file env filename)
  unfolding read_file
  read_file-Thins filename = Thins-bind key (attempt env "sftp") _ (attempt-Thins "sftp") (λ _.
      record {
        at = λ w.
            inr
              (ap (λ (c : Cache). c key) (answer_file-cache (find? (has_name filename) w.inbox) w));
      })

  remove_scanned-cache :
      (filename : String) (w : World) → (remove_scanned filename w).1.cache ≡ w.cache
  remove_scanned-cache filename w = ground arith

  delete_file-Thins : (filename : String) → Thins key (delete_file env filename)
  unfolding delete_file
  delete_file-Thins filename =
      Thins-bind key (attempt env "sftp") _ (attempt-Thins "sftp") (λ _. record {
        at = λ w. inr (ap (λ (c : Cache). c key) (remove_scanned-cache filename w));
      })

  pub uuid-Thins : Thins key (new_uuid_text env)
  uuid-Thins = Thins-bind key spin _ (Thins-spin key) (λ n. Thins-pure key (uuid_str (env.uuid4 n)))

-- A round of the poller.
module _ (key : String) (env : Env) (content : Content) where
  route-Thins :
      (batch_id request_id filename : String) (bytes : Bytes) (reason : Option String)
      → Thins key (route env content batch_id request_id filename bytes reason)
  route-Thins batch_id request_id filename bytes (some reason) =
      upload_bytes-Thins key env _ bytes _
  route-Thins batch_id request_id filename bytes none =
      Thins-bind key (upload_bytes env (incoming_key batch_id filename) bytes "image/tiff") _
        (upload_bytes-Thins key env _ bytes _)
        λ _.
          Thins-bind key _ _ (enqueue-Thins key env batch_id filename _ _ request_id)
            (λ _. Thins-pure key tt)

  ingest-Thins :
      (max_mb : ℕ) (filename request_id batch_id : String)
      → Thins key (ingest env content max_mb filename request_id batch_id)
  ingest-Thins max_mb filename request_id batch_id =
      Thins-bind key (read_file env filename) _ (read_file-Thins key env filename) λ bytes.
        Thins-bind key
          (route env content batch_id request_id filename bytes
            (validate_tiff content max_mb filename bytes))
          _ (route-Thins batch_id request_id filename bytes _)
          (λ _. delete_file-Thins key env filename)

  swallow-Thins : (m : Action ⊤) → Thins key m → Thins key (swallow m)
  swallow-Thins m k = record { at = λ w. k.at w }

  ingest_all-Thins :
      (max_mb : ℕ) (filenames : List String) → Thins key (ingest_all env content max_mb filenames)
  ingest_all-Thins max_mb [] = Thins-pure key tt
  ingest_all-Thins max_mb (filename ∷ filenames) =
      Thins-bind key (ingest_file env content max_mb filename) _
        (Thins-bind key (new_uuid_text env) _ (uuid-Thins key env) λ request_id.
          Thins-bind key (new_uuid_text env) _ (uuid-Thins key env)
            λ batch_id. swallow-Thins _ (ingest-Thins max_mb filename request_id batch_id))
        (λ _. ingest_all-Thins max_mb filenames)

  pub ingest_once-Thins : (max_mb : ℕ) → Thins key (ingest_once env content max_mb)
  unfolding ingest_once
  ingest_once-Thins max_mb =
      Thins-bind key (list_files env) _ (list_files-Thins key env) (ingest_all-Thins max_mb)

module _ (key : String) (env : Env) (clear : Clear) (h : IsClear clear) where
  -- The administrative requests.
  pub execute-Thins :
      (actor_id : Uuid) (c : Command) (w : World) → Thinner key w (execute env clear actor_id c w).1
  unfolding execute change_role set_user_active remove_user_account invite
  execute-Thins actor_id (role_change target r) w =
      (Thins-bind key (begin (change_role_tx env clear target r actor_id)) _ (Thins-begin key _)
          (λ updated. Thins-bind key load_policy _ (Thins-load_policy key) (λ _.
            Thins-bind key (clear_cache clear "me") _ (Thins-clear key clear h "me")
              (λ _. Thins-pure key updated)))).at
        w
  execute-Thins actor_id (activation target b) w =
      (Thins-bind key (begin (set_user_active_tx env clear target b actor_id)) _ (Thins-begin key _)
          (λ updated.
            Thins-bind key (clear_cache clear "me") _ (Thins-clear key clear h "me")
              (λ _. Thins-pure key updated))).at
        w
  execute-Thins actor_id (removal target) w =
      (Thins-bind key (begin (remove_user_tx env clear target actor_id)) _ (Thins-begin key _)
          (λ updated. Thins-clear key clear h "me")).at
        w
  execute-Thins actor_id (invitation email secret r) w =
      (Thins-bind key spin _ (Thins-spin key)
          (λ n. Thins-begin key (invite_tx env email (env.argon2 n secret) r actor_id))).at
        w

  pub mark_batch_failed-Thins :
      (external_id filename reason : String)
      → Thins key (mark_batch_failed env clear external_id filename reason)
  unfolding mark_batch_failed
  mark_batch_failed-Thins external_id filename reason =
      Thins-bind key (begin (failed_tx env external_id filename reason)) _ (Thins-begin key _)
        (λ batch.
          Thins-bind key (clear_cache clear "batches-list") _
            (Thins-clear key clear h "batches-list")
            (λ _. Thins-clear key clear h (detail_namespace (uuid_str batch.id))))

  -- An upload.
  pub refuse-Thins :
      (name : String) (bytes : Bytes) (reason : Option String)
      → Thins key (refuse env name bytes reason)
  refuse-Thins name bytes none = Thins-pure key tt
  refuse-Thins name bytes (some reason) =
      Thins-bind key (new_uuid_text env) _ (uuid-Thins key env) λ q.
        Thins-bind key
          (upload_bytes env (format ("failed/" ∷ q ∷ "/" ∷ name ∷ [])) bytes
            "application/octet-stream")
          _ (upload_bytes-Thins key env _ bytes _) (λ _. Thins-raise key (upload_rejected reason))

  module _ (content : Content) where
    announce-Thins :
        (external_id request_id name : String) (bytes : Bytes) (batch : BatchOut)
        → Thins key (announce env clear content external_id request_id name bytes batch)
    announce-Thins external_id request_id name bytes batch =
        Thins-bind key
          (enqueue_classification_job env external_id name (incoming_key external_id name)
            (content.sha256 bytes) request_id)
          _ (enqueue-Thins key env external_id name _ _ request_id)
          (λ job_id.
            Thins-bind key _ _
              (Thins-bind key (clear_cache clear "batches-list") _
                (Thins-clear key clear h "batches-list")
                (λ _. Thins-clear key clear h (detail_namespace (uuid_str batch.id))))
              (λ _. Thins-pure key (batch, job_id)))

    store-Thins :
        (external_id request_id name : String) (bytes : Bytes)
        → Thins key (store env clear content external_id request_id name bytes)
    store-Thins external_id request_id name bytes =
        Thins-bind key (upload_bytes env (incoming_key external_id name) bytes "image/tiff") _
          (upload_bytes-Thins key env _ bytes _)
          (λ _.
            Thins-bind key (begin (upsert_external env external_id)) _ (Thins-begin key _)
              (announce-Thins external_id request_id name bytes))

    pub enqueue_browser_tiff-Thins :
        (max_mb : ℕ) (bytes : Bytes) (filename : String)
        → Thins key (enqueue_browser_tiff env clear content max_mb bytes filename)
    unfolding enqueue_browser_tiff
    enqueue_browser_tiff-Thins max_mb bytes filename =
        Thins-bind key (from_result (safe_filename filename)) _ (record { at = λ w. inr refl })
          λ name.
            Thins-bind key (refuse env name bytes (validate_tiff content max_mb name bytes)) _
              (refuse-Thins name bytes _)
              λ _. Thins-bind key (new_uuid_text env) _ (uuid-Thins key env) λ external_id.
                Thins-bind key (new_uuid_text env) _ (uuid-Thins key env)
                  λ request_id. store-Thins external_id request_id name bytes
