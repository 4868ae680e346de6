-- ===== src/Infra/Keeps.antt =====
-- The tables under the calls of MinIO, Redis and SFTP.
use dropsort.Prelude.{String, Option, none, some, find?, ◌≡◌, refl, arith}
use dropsort.Db.{Db}
use dropsort.Exec.{external, raise_if}
use dropsort.Session.{Env}
use dropsort.Service.{World, StoredObject, Bytes, ScannedFile, spin}
use dropsort.Service.Keeps.{KeepsDb, KeepsDb-bind, KeepsDb-raise_if, KeepsDb-pure}
use dropsort.Infra.{
  attempt, upload_bytes, download_bytes, answer_object, found_object, read_object,
  enqueue_classification_job, list_files, read_file, delete_file, answer_file, remove_scanned,
  has_name,
}

answer_object-db : (o : Option StoredObject) (w : World) → (answer_object o w).1.db ≡ w.db
answer_object-db none w = refl
answer_object-db (some o) w = refl

answer_file-db : (o : Option ScannedFile) (w : World) → (answer_file o w).1.db ≡ w.db
answer_file-db none w = refl
answer_file-db (some f) w = refl

read_object-db : (key : String) (w : World) → (read_object key w).1.db ≡ w.db
read_object-db key w = answer_object-db (found_object key w) w

remove_scanned-db : (filename : String) (w : World) → (remove_scanned filename w).1.db ≡ w.db
remove_scanned-db filename w = ground arith

module _ {P : Db → Type 0} (env : Env) where
  pub attempt-KeepsDb : (system : String) → KeepsDb P (attempt env system)
  attempt-KeepsDb system =
      KeepsDb-bind spin _ (record { at = λ w h. h })
        λ n.
          KeepsDb-bind (raise_if (env.fails n) (external system)) _ (KeepsDb-raise_if _ _)
            λ _. KeepsDb-pure n

  pub upload_bytes-KeepsDb :
      (key : String) (content : Bytes) (content_type : String)
      → KeepsDb P (upload_bytes env key content content_type)
  unfolding upload_bytes
  upload_bytes-KeepsDb key content content_type =
      KeepsDb-bind (attempt env "minio") _ (attempt-KeepsDb "minio") λ _. record { at = λ w h. h }

  pub enqueue-KeepsDb :
      (batch_id filename object_key content_sha256 request_id : String)
      → KeepsDb P
          (enqueue_classification_job env batch_id filename object_key content_sha256 request_id)
  unfolding enqueue_classification_job
  enqueue-KeepsDb batch_id filename object_key content_sha256 request_id =
      KeepsDb-bind (attempt env "redis") _ (attempt-KeepsDb "redis") λ _. record { at = λ w h. h }

  pub list_files-KeepsDb : KeepsDb P (list_files env)
  unfolding list_files
  list_files-KeepsDb =
      KeepsDb-bind (attempt env "sftp") _ (attempt-KeepsDb "sftp") λ _. record { at = λ w h. h }

  pub read_file-KeepsDb : (filename : String) → KeepsDb P (read_file env filename)
  unfolding read_file
  read_file-KeepsDb filename =
      KeepsDb-bind (attempt env "sftp") _ (attempt-KeepsDb "sftp")
        λ _. record { at = λ w h. rw (answer_file-db (find? (has_name filename) w.inbox) w) h }

  pub delete_file-KeepsDb : (filename : String) → KeepsDb P (delete_file env filename)
  unfolding delete_file
  delete_file-KeepsDb filename =
      KeepsDb-bind (attempt env "sftp") _ (attempt-KeepsDb "sftp")
        λ _. record { at = λ w h. rw (remove_scanned-db filename w) h }

  pub download_bytes-KeepsDb : (key : String) → KeepsDb P (download_bytes env key)
  unfolding download_bytes
  download_bytes-KeepsDb key =
      KeepsDb-bind (attempt env "minio") _ (attempt-KeepsDb "minio")
        λ _. record { at = λ w h. rw (read_object-db key w) h }
