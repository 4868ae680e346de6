-- ===== src/Service.antt =====
-- The state that a request or a job of a worker meets, and the actions of the service layer: a
-- transaction on the tables, and what is done after its commit (clearing caches, reloading the
-- policy). One request runs at a time.
pub mod Success
pub mod Keeps
pub mod Thins
use dropsort.Prelude.{⊤, ℕ, ◌+◌, String, Bool, Option, none, some, List, [], ◌∷◌, format}
use dropsort.Domain.{Uuid, UserOut, BatchOut, PredictionOut}
use dropsort.Db.{Db, CasbinRule}
use dropsort.Exec.{Result, ok, err, Exec}
use dropsort.Session.{Session, Tx}

-- What the cached endpoints answer, with the arguments of the endpoint.
pub data Response : Type 0 where
  me : UserOut → Response
  batches_list : ℕ → ℕ → List BatchOut → Response
  batch_detail : BatchOut → List PredictionOut → Response
  predictions_recent : ℕ → List PredictionOut → Response

-- The Redis keys of fastapi-cache.
abbrev pub Cache : Type 0
Cache = String → Option Response

abbrev pub Bytes : Type 0
Bytes = List ℕ

-- An object of the MinIO bucket.
pub record StoredObject : Type 0 where
  pub key : String
  pub content : Bytes
  pub content_type : String

-- A job of the RQ queue: the keyword arguments of `run_classification_job`.
pub record Job : Type 0 where
  pub id : Uuid
  pub batch_id : String
  pub filename : String
  pub object_key : String
  pub content_sha256 : String
  pub request_id : String

-- A file of the scanner's SFTP folder.
pub record ScannedFile : Type 0 where
  pub name : String
  pub content : Bytes

pub record World : Type 0 where
  pub db : Db
  pub cache : Cache
  pub policy : List CasbinRule
  pub objects : List StoredObject
  pub jobs : List Job
  pub inbox : List ScannedFile
  pub draws : ℕ

-- `FastAPICache.clear(namespace=…)`: the keys that it deletes.
abbrev pub Clear : Type 0
Clear = String → Cache → Cache

abbrev pub Action {ℓ} : Type ℓ → Type ℓ
Action A = Exec World A

abbrev pub session : World → Session
session w = record { start = w.db; db = w.db; draws = w.draws }

module _ {ℓ} {A : Type ℓ} where
  abbrev pub settle : Result A × Session → Action A
  settle (ok a, s) w = (ok a, record w { db = s.db; draws = s.draws })
  settle (err e, s) w = (err e, record w { draws = s.draws })

  -- `async with session.begin()`: the tables are written if the block returns, and are what they
  -- were if it raises.
  unfoldable pub begin : Tx A → Action A
  begin body w = settle (body (session w)) w

  -- A read outside a transaction.
  unfoldable pub query : Tx A → Action A
  query body w = settle (body (session w)) w

-- A number of the counter outside a transaction.
abbrev pub spin : Action ℕ
spin w = (ok w.draws, record w { draws = w.draws + 1 })

-- `await FastAPICache.clear(namespace=…)`
abbrev pub clear_cache : Clear → String → Action ⊤
clear_cache clear namespace w = (ok tt, record w { cache = clear namespace w.cache })

-- `enforcer.load_policy()`: the enforcer holds what the table holds.
abbrev pub load_policy : Action ⊤
load_policy w = (ok tt, record w { policy = w.db.casbin_rules })

-- `f"batches-detail:{batch_id}"` and the other namespaces
abbrev pub detail_namespace : String → String
detail_namespace batch_id = format ("batches-detail:" ∷ batch_id ∷ [])
