-- ===== src/Lib.antt =====
-- dropsort sorts scanned documents. A scanner drops TIFF files into an SFTP folder, or a user uploads
-- one; a file is validated, stored in MinIO and queued; a worker classifies it and records a
-- prediction in PostgreSQL; reviewers relabel unsure predictions, administrators manage accounts, and
-- an audit log says who did what. This library models the Python code of app/ and the policy rows of
-- alembic/versions/ by functions on explicit state, and proves what they promise.
--
-- Layers, as in the code:
--   Db                 app/db/models.py: tables as lists of rows. Db.Tables, Db.Distinct and Db.Order
--                      read and write them; Db.Invariant is what the schema promises.
--   Session, Exec      a SQLAlchemy session in a transaction: `Tx A` takes a session to a result or an
--                      exception and a session. A write is refused when a text is wider than its
--                      column or holds NUL (data_error) or a constraint is broken (integrity_error).
--   Service            `World` is the tables, the response cache, the loaded policy, the bucket, the
--                      queue and the scanner's folder; `Action A` runs on it; `begin` is
--                      `async with session.begin()`: commit on return, nothing on an exception.
--   Infra              app/infra/minio_storage.py, queue.py, sftp_client.py; each call may fail. The bucket is
--                      the objects that were put, the newest first; MinIO gives back the newest of a
--                      key, which Infra.Live is about, and the older ones of that key are lost.
--   Repositories.*     app/repositories: Users, Batches, Predictions, Audit
--   Services.*         app/services: UserService, PredictionService, BatchService, BatchUploadService and
--                      AuditService, with the queries of Repositories.Labels
--   Pipeline           app/pipeline/tiff_ingest.py
--   Workers.*          app/workers: SftpIngest (the poller), Jobs (run_classification_job),
--                      InferenceWorker (handle_worker_exception)
--   Classifier         app/classifier/classify.py around the network; Classifier.Golden is
--                      app/classifier/eval/golden.py
--   Access             app/infra/casbin, app/api/deps.py and the migrations' policy rows
--   Migrations.*       alembic/versions: the calls of `op` as data, run on a catalog of tables and indexes
--   Api.*              app/api: Admin, Predictions, Batches, Listings (the cached lists and the audit
--                      page), Users (the cached profile), Health; app/core/errors.py
--   Core.RequestId     app/core/request_id.py: the middleware around an application
--   Boot               app/main.py (lifespan), app/core/boot_checks.py, app/core/vault.py
--   System             the program as a whole: `perform` is one request or one call of a worker, and
--                      `Reachable` the states that any order of them leads to; System.Recent and
--                      System.Listing add the views of the two cached lists, and Api.Users.Coherent
--                      those of the profile.
-- A function keeps the name that it has in the code; `…_tx` is the block of its transaction.
-- Exec.Success, Session.Keeps, Service.Success, Service.Keeps, Infra.Triples and Infra.Grows are the
-- program logics: what a return tells, and what a statement or an action keeps; Service.Thins is
-- which stored answers an action can only delete. Prelude.Uuids is `UUID(text)` of Python. Tests
-- runs the model and applies the theorems at inputs that meet their hypotheses.
--
-- Identifiers and times are numbers; a double is an exact multiple of 2 ^ -1074 (Prelude.Float),
-- since the code only compares and prints them, but for one difference that Prelude.Rounding rounds.
-- What the runtime chooses (uuid4, the clock, salts, tokens, and which call of MinIO, Redis or SFTP
-- fails) is an `Env` on a counter, so the theorems hold for every choice, also where two identifiers
-- agree, unless they ask for fresh ones (IsFresh, IsUuid4 with IsFuture). Hashing, Pillow, PyTorch,
-- Casbin and the clearing of fastapi-cache are parameters; where a theorem needs their documented
-- behaviour, it is a hypothesis with its own name (IsCasbin, IsClear, IsTopk, IsListKey for the keys
-- of fastapi-cache, and IsUp where no call of SFTP, MinIO and Redis fails).
--
-- Bounds: nothing runs on fuel but the endless loop of the poller (`poll`), which is taken up to any
-- number of rounds, the printing of a number in at most 309 decimal digits, which a finite double never
-- exceeds, and the number of bits of a difference of doubles, at most 2,200 where 2,100 suffice.
--
-- Rows that `ORDER BY` leaves in any order keep the order of their table (Db.Order).
--
-- Requests and jobs run one after the other: interleavings within a request are not modelled. Neither
-- are logging, configuration, engines and clients, authentication, the rate limiter, the expiry of
-- cached answers, failures of a cache clearing, the columns is_superuser and is_verified, and the frontend.
-- `UUID(text)` also reads decimal digits of other scripts, which Prelude.Uuids refuses. Starlette sends
-- the answer to an unexpected exception outside the middlewares, so Core.RequestId is about the others.
pub mod Prelude
pub mod Domain
pub mod Db
pub mod Exec
pub mod Session
pub mod Repositories
pub mod Service
pub mod Infra
pub mod Pipeline
pub mod Services
pub mod Boot
pub mod Classifier
pub mod Core
pub mod Workers
pub mod Access
pub mod Api
pub mod System
pub mod Tests
pub mod Migrations
