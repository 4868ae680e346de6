-- ===== src/Workers/SftpIngest/Custody.antt =====
-- workers/sftp_ingest.py: the scanned files on their way from the folder into the bucket.
use dropsort.Prelude.{
  ℕ, ◌≤◌, ◌<◌, Memᴰ, select-Mem, Mem-select, find?-Mem, String, ◌≡◌, ◌≢◌, refl, sym, ◌∙◌, Bool, not,
  ◌⊎◌, inl, inr, some, List, ◌∷◌, ap, Bool-cases, find?, eq_iff, uuid_str, arith,
}
use dropsort.Session.{Env}
use dropsort.Service.{Bytes, StoredObject, Job, ScannedFile}
use dropsort.Infra.{has_name, others}
use dropsort.Infra.Live.{object_under, IsUnused, AllReady, AllReady-store, object_under-store}
use dropsort.Pipeline.{Content}
use dropsort.Services.BatchUploadService.{incoming_key}
use dropsort.Workers.SftpIngest.{failed_key}
use dropsort.Workers.SftpIngest.Keys.{IsApart}

-- The bytes are what MinIO gives back under some key.
abbrev pub IsStored : Bytes → List StoredObject → Type 0
IsStored bytes objects =
    (key : String) × (o : StoredObject) × (object_under key objects ≡ some o) × (o.content ≡ bytes)

-- A name stands for one file.
abbrev pub IsFolder : List ScannedFile → Type 0
IsFolder inbox = (f g : ScannedFile) → Memᴰ f inbox → Memᴰ g inbox → f.name ≡ g.name → f ≡ g

-- No object has a key of the batch.
abbrev pub IsNewBatch : String → List StoredObject → Type 0
IsNewBatch batch_id objects =
    (name : String)
    → IsUnused (incoming_key batch_id name) objects × IsUnused (failed_key batch_id name) objects

-- No object has a key of an identifier that is still to come.
abbrev pub IsFuture : Env → ℕ → ℕ → List StoredObject → Type 0
IsFuture env from limit objects =
    (n : ℕ) → from ≤ n → n < limit → IsNewBatch (uuid_str (env.uuid4 n)) objects

IsStored-store :
    (o : StoredObject) (bytes : Bytes) (objects : List StoredObject)
    → IsUnused o.key objects
    → IsStored bytes objects
    → IsStored bytes (o ∷ objects)
IsStored-store o bytes objects unused (key, found, e, same) =
    (key, found, object_under-store key o found objects unused e, same)

IsUnused-store :
    (key : String) (o : StoredObject) (objects : List StoredObject)
    → o.key ≢ key
    → IsUnused key objects
    → IsUnused key (o ∷ objects)
IsUnused-store key o objects other unused p (Memᴰ.head e) =
    λ k. other (sym (ap (λ (x : StoredObject). x.key) e) ∙ k)
IsUnused-store key o objects other unused p (Memᴰ.tail m) = unused p m

module _ (env : Env) (content : Content) (original : List ScannedFile) (limit : ℕ) where
  -- The identifiers up to `from` are used.
  pub record Custody (from : ℕ) (objects : List StoredObject) (jobs : List Job)
      (inbox : List ScannedFile) : Type 0 where
    pub ready : AllReady content objects jobs
    pub folder : IsFolder inbox
    pub future : IsFuture env from limit objects
    pub kept : (f : ScannedFile) → Memᴰ f original → Memᴰ f inbox ⊎ IsStored f.content objects

  pub Custody-later :
      (from from' : ℕ) (objects : List StoredObject) (jobs : List Job) (inbox : List ScannedFile)
      → from ≤ from'
      → Custody from objects jobs inbox
      → Custody from' objects jobs inbox
  Custody-later from from' objects jobs inbox le h = record {
    ready = h.ready;
    folder = h.folder;
    future = λ n later below. h.future n (omega arith) below;
    kept = h.kept;
  }

  module _ (from : ℕ) where
    -- The bytes are those of the file of the name, and no object has a key of the batch.
    pub record Reading (batch_id filename : String) (bytes : Bytes) (objects : List StoredObject)
        (jobs : List Job) (inbox : List ScannedFile) : Type 0 where
      pub custody : Custody from objects jobs inbox
      pub new : IsNewBatch batch_id objects
      pub read : (f : ScannedFile) → Memᴰ f inbox → f.name ≡ filename → f.content ≡ bytes

    -- They are stored.
    pub record Holding (filename : String) (bytes : Bytes) (objects : List StoredObject)
        (jobs : List Job) (inbox : List ScannedFile) : Type 0 where
      pub custody : Custody from objects jobs inbox
      pub read : (f : ScannedFile) → Memᴰ f inbox → f.name ≡ filename → f.content ≡ bytes
      pub stored : IsStored bytes objects

    pub Custody-store :
        (o : StoredObject) (objects : List StoredObject) (jobs : List Job)
        (inbox : List ScannedFile)
        → IsUnused o.key objects
        → IsApart env from limit o.key
        → Custody from objects jobs inbox
        → Custody from (o ∷ objects) jobs inbox
    Custody-store o objects jobs inbox unused apart h = record {
      ready = AllReady-store content o objects jobs unused h.ready;
      folder = h.folder;
      future = λ n later below name.
          let (incoming, failed) = h.future n later below name in
          let (not_incoming, not_failed) = apart n later below name in
          (
            IsUnused-store _ o objects not_incoming incoming,
            IsUnused-store _ o objects not_failed failed,
          );
      kept = λ f i. elim (h.kept f i) [
        | inl here ↦ inl here
        | inr stored ↦ inr (IsStored-store o f.content objects unused stored)
      ];
    }

    pub Custody-remove :
        (filename : String) (bytes : Bytes) (objects : List StoredObject) (jobs : List Job)
        (inbox : List ScannedFile)
        → Holding filename bytes objects jobs inbox
        → Custody from objects jobs (others filename inbox)
    Custody-remove filename bytes objects jobs inbox h =
        let c = h.custody in
        let other : ScannedFile → Bool = λ f. not (has_name filename f) in
        record {
          ready = c.ready;
          folder =
              λ f g i j. c.folder f g (select-Mem other f inbox i) (select-Mem other g inbox j);
          future = c.future;
          kept = λ f i. elim (c.kept f i) [
            | inr s ↦ inr s
            | inl here ↦ elim (Bool-cases (has_name filename f)) [
              | inl t ↦
                  let (key, o, e, same) = h.stored in
                  inr (key, o, e, same ∙ sym (h.read f here ((eq_iff f.name filename).0 t)))
              | inr n ↦ inl (Mem-select other f inbox here (rw n refl))
            ]
          ];
        }

    -- The bytes that are read are those of every file of the name.
    pub Custody-read :
        (batch_id filename : String) (f : ScannedFile) (objects : List StoredObject)
        (jobs : List Job) (inbox : List ScannedFile)
        → Custody from objects jobs inbox
        → IsNewBatch batch_id objects
        → find? (has_name filename) inbox ≡ some f
        → Reading batch_id filename f.content objects jobs inbox
    Custody-read batch_id filename f objects jobs inbox h new e =
        let (m, t) = find?-Mem (has_name filename) f inbox e in
        record {
          custody = h;
          new = new;
          read = λ g i n.
              ap (λ (x : ScannedFile). x.content)
                (h.folder g f i m (n ∙ sym ((eq_iff f.name filename).0 t)));
        }
