-- ===== src/Workers/SftpIngest/Rounds.antt =====
-- workers/sftp_ingest.py: rounds of the poller.
use dropsort.Prelude.{
  ⊤, ℕ, zero, suc, ◌+◌, ◌≤◌, ◌<◌, String, Option, none, some, List, [], ◌∷◌, inl, inr, Bool-cases,
  uuid_str, arith,
}
use dropsort.Exec.{Result, ok, err, continue}
use dropsort.Session.{Env}
use dropsort.Service.{World, Action, Bytes, ScannedFile}
use dropsort.Infra.{list_files, read_file}
use dropsort.Infra.Triples.{On, Post}
use dropsort.Infra.Grows.{
  Grows, Grows-bind, Grows-pure, upload_bytes-Grows, enqueue-Grows, list_files-Grows,
  read_file-Grows, delete_file-Grows,
}
use dropsort.Infra.Live.{AllReady}
use dropsort.Pipeline.{Content}
use dropsort.Workers.SftpIngest.{route, ingest, ingest_file, ingest_all, ingest_once, poll}
use dropsort.Workers.SftpIngest.Keys.{IsUuid4, incoming_key-IsApart, failed_key-IsApart}
use dropsort.Workers.SftpIngest.Custody.{Custody, Custody-later, IsFolder, IsFuture}
use dropsort.Workers.SftpIngest.Steps.{ingest-Triple}

both : (P : World → Type 0) (r : Result ⊤) (w : World) → Post (λ _. P) P (r, w) → P w
both P (ok a) w h = h
both P (err e) w h = h

-- The counter of the runtime goes on.
module _ (env : Env) (content : Content) where
  route-Grows :
      (batch_id request_id filename : String) (bytes : Bytes) (reason : Option String)
      → Grows (route env content batch_id request_id filename bytes reason)
  route-Grows batch_id request_id filename bytes (some reason) = upload_bytes-Grows env _ bytes _
  route-Grows batch_id request_id filename bytes none =
      Grows-bind _ _ (upload_bytes-Grows env _ bytes _)
        λ _. Grows-bind _ _ (enqueue-Grows env batch_id filename _ _ request_id) λ _. Grows-pure tt

  ingest-Grows :
      (max_mb : ℕ) (filename request_id batch_id : String)
      → Grows (ingest env content max_mb filename request_id batch_id)
  ingest-Grows max_mb filename request_id batch_id =
      Grows-bind (read_file env filename) _ (read_file-Grows env filename) λ bytes.
        Grows-bind _ _ (route-Grows batch_id request_id filename bytes _)
          λ _. delete_file-Grows env filename

  ingest_file-Grows :
      (max_mb : ℕ) (filename : String) → Grows (ingest_file env content max_mb filename)
  ingest_file-Grows max_mb filename = record {
    at = λ w.
        let later =
          (ingest-Grows max_mb filename (uuid_str (env.uuid4 w.draws))
              (uuid_str (env.uuid4 (w.draws + 1)))).at
            (record w { draws = w.draws + 1 + 1 }) in
        omega arith;
  }

  ingest_all-Grows :
      (max_mb : ℕ) (filenames : List String) → Grows (ingest_all env content max_mb filenames)
  ingest_all-Grows max_mb [] = Grows-pure tt
  ingest_all-Grows max_mb (filename ∷ filenames) =
      Grows-bind _ _ (ingest_file-Grows max_mb filename) λ _. ingest_all-Grows max_mb filenames

  ingest_once-Grows : (max_mb : ℕ) → Grows (ingest_once env content max_mb)
  unfolding ingest_once
  ingest_once-Grows max_mb =
      Grows-bind (list_files env) _ (list_files-Grows env) (ingest_all-Grows max_mb)

  poll-Grows : (max_mb n : ℕ) → Grows (poll env content max_mb n)
  unfolding poll
  poll-Grows max_mb zero = Grows-pure tt
  poll-Grows max_mb (suc n) = Grows-bind _ _ (ingest_once-Grows max_mb) λ _. poll-Grows max_mb n

-- What holds before an action holds after it, as long as its identifiers are among the first.
module _ (env : Env) (content : Content) (original : List ScannedFile) (limit : ℕ)
    (law : IsUuid4 env limit) where
  abbrev Safe : World → Type 0
  Safe w = On (Custody env content original limit w.draws) w

  record Keeps (m : Action ⊤) : Type 0 where
    pub at : (w : World) → Safe w → (m w).1.draws ≤ limit → Safe (m w).1

  continue-Safe :
      (r : Result ⊤) (v : World) (m : Action ⊤)
      → (v.draws ≤ limit → Safe v)
      → Grows m
      → Keeps m
      → (continue r (λ _. m) v).1.draws ≤ limit
      → Safe (continue r (λ _. m) v).1
  continue-Safe (ok u) v m h g k below = let later = g.at v in k.at v (h (omega arith)) below
  continue-Safe (err e) v m h g k below = h below

  ingest_file-Keeps :
      (max_mb : ℕ) (filename : String) → Keeps (ingest_file env content max_mb filename)
  ingest_file-Keeps max_mb filename = record {
    at = λ w h below.
        let m = w.draws + 1 in
        let request_id = uuid_str (env.uuid4 w.draws) in
        let batch_id = uuid_str (env.uuid4 m) in
        let u : World = record w { draws = w.draws + 1 + 1 } in
        let (r, v) = ingest env content max_mb filename request_id batch_id u in
        let later : u.draws ≤ v.draws =
          (ingest-Grows env content max_mb filename request_id batch_id).at u in
        let inside : m < limit = omega arith in
        let started =
          Custody-later env content original limit w.draws (suc m) w.objects w.jobs w.inbox
            (omega arith) h in
        let done = both (On (Custody env content original limit (suc m))) r v (
          (ingest-Triple env content original limit (suc m) batch_id filename
              (incoming_key-IsApart env limit law m inside filename)
              (failed_key-IsApart env limit law m inside filename) max_mb request_id).at
            u (started, h.future m (omega arith) inside)) in
        Custody-later env content original limit (suc m) v.draws v.objects v.jobs v.inbox
          (omega arith) done;
  }

  ingest_all-Keeps :
      (max_mb : ℕ) (filenames : List String) → Keeps (ingest_all env content max_mb filenames)
  ingest_all-Keeps max_mb [] = record { at = λ w h below. h }
  ingest_all-Keeps max_mb (filename ∷ filenames) = record {
    at = λ w h below.
        let (r, v) = ingest_file env content max_mb filename w in
        continue-Safe r v (ingest_all env content max_mb filenames)
          ((ingest_file-Keeps max_mb filename).at w h)
          (ingest_all-Grows env content max_mb filenames) (ingest_all-Keeps max_mb filenames) below;
  }

  listed-Safe :
      (max_mb : ℕ) (r : Result (List String)) (v : World)
      → Safe v
      → (continue r (ingest_all env content max_mb) v).1.draws ≤ limit
      → Safe (continue r (ingest_all env content max_mb) v).1
  listed-Safe max_mb (ok filenames) v h below = (ingest_all-Keeps max_mb filenames).at v h below
  listed-Safe max_mb (err e) v h below = h

  list_files-Safe : (w : World) → Safe w → Safe (list_files env w).1
  unfolding list_files
  list_files-Safe w h =
      let later =
        Custody-later env content original limit w.draws (w.draws + 1) w.objects w.jobs w.inbox
          (omega arith) h in
      elim (Bool-cases (env.fails w.draws)) [ inl t ↦ rw t later | inr f ↦ rw f later ]

  ingest_once-Keeps : (max_mb : ℕ) → Keeps (ingest_once env content max_mb)
  unfolding ingest_once
  ingest_once-Keeps max_mb = record {
    at = λ w h below.
        let (r, v) = list_files env w in listed-Safe max_mb r v (list_files-Safe w h) below;
  }

  poll-Keeps : (max_mb n : ℕ) → Keeps (poll env content max_mb n)
  unfolding poll
  poll-Keeps max_mb zero = record { at = λ w h below. h }
  poll-Keeps max_mb (suc n) = record {
    at = λ w h below.
        let (r, v) = ingest_once env content max_mb w in
        continue-Safe r v (poll env content max_mb n) ((ingest_once-Keeps max_mb).at w h)
          (poll-Grows env content max_mb n) (poll-Keeps max_mb n) below;
  }

module _ (env : Env) (content : Content) (max_mb n : ℕ) (w : World) (limit : ℕ) where
  -- Where the first identifiers of the runtime, as many as are drawn, are different UUIDs of which the
  -- bucket holds no key yet, in a folder whose names are unique, and when MinIO gives back the object
  -- of every job: however many rounds run, and whatever call fails, every scanned file is still in the
  -- folder or MinIO gives back its content under some key, and MinIO gives back the object of every
  -- job under its key with the content of its hash.
  pub poll-Custody :
      let w' = (poll env content max_mb n w).1 in
      IsUuid4 env limit
      → w'.draws ≤ limit
      → IsFuture env w.draws limit w.objects
      → AllReady content w.objects w.jobs
      → IsFolder w.inbox
      → Custody env content w.inbox limit w'.draws w'.objects w'.jobs w'.inbox
  poll-Custody law below future ready folder =
      (poll-Keeps env content w.inbox limit law max_mb n).at w
        (record { ready = ready; folder = folder; future = future; kept = λ f i. inl i }) below
