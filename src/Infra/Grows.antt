-- ===== src/Infra/Grows.antt =====
-- The counter of the runtime under the calls of MinIO, Redis and SFTP: it never goes back.
use dropsort.Prelude.{ℕ, ◌≤◌, String, Bool, true, false, Option, none, some, find?, arith}
use dropsort.Exec.{Exc, external, Result, ok, err, pure, raise_if, continue, ◌>>=◌}
use dropsort.Session.{Env}
use dropsort.Service.{World, Action, Bytes, ScannedFile, spin}
use dropsort.Infra.{
  attempt, upload_bytes, enqueue_classification_job, list_files, read_file, delete_file,
  answer_file, remove_scanned, has_name,
}

pub record Grows {A : Type 0} (m : Action A) : Type 0 where
  pub at : (w : World) → w.draws ≤ (m w).1.draws

module _ {A B : Type 0} where
  continue-draws :
      (n : ℕ) (r : Result A) (w : World) (f : A → Action B)
      → n ≤ w.draws
      → ((a : A) → Grows (f a))
      → n ≤ (continue r f w).1.draws
  continue-draws n (ok a) w f h k = omega (arith, h, (k a).at w)
  continue-draws n (err e) w f h k = h

  pub Grows-bind :
      (m : Action A) (f : A → Action B) → Grows m → ((a : A) → Grows (f a)) → Grows (m >>= f)
  Grows-bind m f h k = record {
    at = λ w. let (r, v) = m w in continue-draws w.draws r v f (h.at w) k;
  }

pub Grows-pure : {A : Type 0} (a : A) → Grows (pure a)
Grows-pure a = record { at = λ w. omega arith }

raise_if-draws : (b : Bool) (e : Exc) (w : World) → w.draws ≤ (raise_if b e w).1.draws
raise_if-draws true e w = omega arith
raise_if-draws false e w = omega arith

answer_file-draws : (o : Option ScannedFile) (w : World) → w.draws ≤ (answer_file o w).1.draws
answer_file-draws none w = omega arith
answer_file-draws (some f) w = omega arith

remove_scanned-draws :
    (filename : String) (w : World) → w.draws ≤ (remove_scanned filename w).1.draws
remove_scanned-draws filename w = ground arith

module _ (env : Env) where
  pub Grows-spin : Grows spin
  Grows-spin = record { at = λ w. omega arith }

  attempt-Grows : (system : String) → Grows (attempt env system)
  attempt-Grows system = Grows-bind spin _ Grows-spin λ n.
      Grows-bind (raise_if (env.fails n) (external system)) _
        (record { at = raise_if-draws (env.fails n) (external system) }) λ _. Grows-pure n

  pub upload_bytes-Grows :
      (key : String) (content : Bytes) (content_type : String)
      → Grows (upload_bytes env key content content_type)
  unfolding upload_bytes
  upload_bytes-Grows key content content_type =
      Grows-bind (attempt env "minio") _ (attempt-Grows "minio")
        λ _. record { at = λ w. omega arith }

  pub enqueue-Grows :
      (batch_id filename object_key content_sha256 request_id : String)
      → Grows
          (enqueue_classification_job env batch_id filename object_key content_sha256 request_id)
  unfolding enqueue_classification_job
  enqueue-Grows batch_id filename object_key content_sha256 request_id =
      Grows-bind (attempt env "redis") _ (attempt-Grows "redis")
        λ _. record { at = λ w. omega arith }

  pub list_files-Grows : Grows (list_files env)
  unfolding list_files
  list_files-Grows =
      Grows-bind (attempt env "sftp") _ (attempt-Grows "sftp") λ _. record { at = λ w. omega arith }

  pub read_file-Grows : (filename : String) → Grows (read_file env filename)
  unfolding read_file
  read_file-Grows filename =
      Grows-bind (attempt env "sftp") _ (attempt-Grows "sftp")
        λ _. record { at = λ w. answer_file-draws (find? (has_name filename) w.inbox) w }

  pub delete_file-Grows : (filename : String) → Grows (delete_file env filename)
  unfolding delete_file
  delete_file-Grows filename =
      Grows-bind (attempt env "sftp") _ (attempt-Grows "sftp")
        λ _. record { at = remove_scanned-draws filename }
