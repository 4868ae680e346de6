-- ===== src/Infra.antt =====
-- app/infra/minio_storage.py, app/infra/queue.py and app/infra/sftp_client.py: the calls that the
-- services and the workers make. A call may
-- raise, and then it has stored nothing.
pub mod Triples
pub mod Keeps
pub mod Backing
pub mod Live
pub mod Grows
use dropsort.Prelude.{
  ⊤, ℕ, ◌≡◌, ◌+◌, String, List, [], ◌∷◌, ◌++◌, if◌then◌else◌, Option, none, some, str_eq, find?,
  any, map, select, not, Bool, true, false,
}
use dropsort.Exec.{Exc, Result, external, ok, err, raise, pure, ◌>>=◌, ◌>>◌, raise_if}
use dropsort.Domain.{Uuid}
use dropsort.Session.{Env}
use dropsort.Service.{World, ScannedFile, Action, Bytes, StoredObject, Job, spin}

-- No call of SFTP, MinIO and Redis raises.
abbrev pub IsUp : Env → Type 0
IsUp env = (n : ℕ) → env.fails n ≡ false

abbrev pub has_name : String → ScannedFile → Bool
has_name filename f = str_eq f.name filename

abbrev pub answer_file : Option ScannedFile → Action Bytes
answer_file none w = (err (external "sftp"), w)
answer_file (some f) w = (ok f.content, w)

abbrev pub read_scanned : String → Action Bytes
read_scanned filename w = answer_file (find? (has_name filename) w.inbox) w

abbrev pub others : String → List ScannedFile → List ScannedFile
others filename inbox = select (λ f. not (has_name filename f)) inbox

abbrev pub remove_scanned : String → Action ⊤
remove_scanned filename w =
    if any (has_name filename) w.inbox
    then (ok tt, record w { inbox = others filename w.inbox })
    else (err (external "sftp"), w)

abbrev pub found_object : String → World → Option StoredObject
found_object object_key w = find? (λ (o : StoredObject). str_eq o.key object_key) w.objects

abbrev pub answer_object : Option StoredObject → Action Bytes
answer_object none w = (err (external "minio"), w)
answer_object (some o) w = (ok o.content, w)

abbrev pub read_object : String → Action Bytes
read_object object_key w = answer_object (found_object object_key w) w

module _ (env : Env) where
  -- A call of an external system.
  abbrev pub attempt : String → Action ℕ
  attempt system = do n ← spin; raise_if (env.fails n) (external system); pure n

  abbrev pub store : StoredObject → Action ⊤
  store o w = (ok tt, record w { objects = o ∷ w.objects })

  -- `MinioStorage.upload_bytes`: the newest object of a key stands first and takes the place of the
  -- older ones, which no read gives back.
  unfoldable pub upload_bytes : String → Bytes → String → Action ⊤
  upload_bytes object_key content content_type = do
    attempt "minio"
    store (record { key = object_key; content = content; content_type = content_type })

  -- `MinioStorage.download_bytes`
  unfoldable pub download_bytes : String → Action Bytes
  download_bytes object_key = do attempt "minio"; read_object object_key

  abbrev pub push : Job → Action ⊤
  push j w = (ok tt, record w { jobs = w.jobs ++ j ∷ [] })

  -- `QueueClient.enqueue_classification_job`, which returns the job's identifier
  unfoldable pub enqueue_classification_job :
      String → String → String → String → String → Action Uuid
  enqueue_classification_job batch_id filename object_key content_sha256 request_id = do
    n ← attempt "redis"
    push (record {
      id = env.uuid4 n;
      batch_id = batch_id;
      filename = filename;
      object_key = object_key;
      content_sha256 = content_sha256;
      request_id = request_id;
    })
    pure (env.uuid4 n)

  -- `SftpClient.list_files`: the regular files of the folder.
  abbrev names : World → Result (List String) × World
  names w = (ok (map (λ (f : ScannedFile). f.name) w.inbox), w)

  unfoldable pub list_files : Action (List String)
  list_files = do attempt "sftp"; names

  -- `SftpClient.read_file`: the file may be gone.
  unfoldable pub read_file : String → Action Bytes
  read_file filename = do attempt "sftp"; read_scanned filename

  -- `SftpClient.delete_file`: a file that is gone cannot be removed.
  unfoldable pub delete_file : String → Action ⊤
  delete_file filename = do attempt "sftp"; remove_scanned filename
