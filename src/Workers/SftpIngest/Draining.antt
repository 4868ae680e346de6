-- ===== src/Workers/SftpIngest/Draining.antt =====
-- workers/sftp_ingest.py: a round in which no call fails.
use dropsort.Prelude.{
  ⊤, ℕ, zero, suc, Memᴰ, ◌⊎◌, all, ◌+◌, ◌≤◌, String, ◌≡◌, refl, ap, ◌∙◌, sym, Bool, true, Option,
  none, some, List, [], ◌∷◌, map, find?, any, arith, str_eq, eq_refl, inl, inr, Option-cases,
}
use dropsort.Exec.{Result, ok, err, continue}
use dropsort.Session.{Env}
use dropsort.Service.{World, Bytes, StoredObject, ScannedFile}
use dropsort.Infra.{
  IsUp, has_name, others, read_file, delete_file, upload_bytes, enqueue_classification_job,
  list_files,
}
use dropsort.Pipeline.{Content, validate_tiff}
use dropsort.Workers.SftpIngest.{route, ingest, ingest_file, ingest_all, ingest_once, poll}
use dropsort.Workers.SftpIngest.Custody.{IsStored, IsFolder, IsFuture}
use dropsort.Workers.SftpIngest.Keys.{IsUuid4}
use dropsort.Workers.SftpIngest.Rounds.{poll-Custody}
use dropsort.Infra.Live.{AllReady}

stored :
    (bytes : Bytes) (objects : List StoredObject) (inbox : List ScannedFile) (f : ScannedFile)
    → inbox ≡ []
    → Memᴰ f inbox ⊎ IsStored bytes objects
    → IsStored bytes objects
stored bytes objects [] f e (inl m) = elim m [ ]
stored bytes objects (g ∷ inbox) f e (inl m) = cc
stored bytes objects inbox f e (inr s) = s

module _ (env : Env) (content : Content) (up : IsUp env) where
  -- Storing and queueing return, and leave the folder.
  route-inbox :
      (batch_id request_id filename : String) (bytes : Bytes) (reason : Option String) (w : World)
      → let (r, w') = route env content batch_id request_id filename bytes reason w in
        (r ≡ ok tt) × (w'.inbox ≡ w.inbox)
  unfolding upload_bytes enqueue_classification_job
  route-inbox batch_id request_id filename bytes none w =
      ground (arith, up w.draws, up (w.draws + 1))
  route-inbox batch_id request_id filename bytes (some reason) w = ground (arith, up w.draws)

  others_absent :
      (filename : String) (inbox : List ScannedFile)
      → find? (has_name filename) inbox ≡ none
      → others filename inbox ≡ inbox
  others_absent filename [] h = refl
  others_absent filename (f ∷ inbox) h = ground (arith, others_absent filename inbox)

  any_found :
      (filename : String) (inbox : List ScannedFile) (f : ScannedFile)
      → find? (has_name filename) inbox ≡ some f
      → any (has_name filename) inbox ≡ true
  any_found filename [] f h = cc
  any_found filename (g ∷ inbox) f h = ground (arith, any_found filename inbox f)

  delete_file-inbox :
      (filename : String) (f : ScannedFile) (w : World)
      → find? (has_name filename) w.inbox ≡ some f
      → (delete_file env filename w).1.inbox ≡ others filename w.inbox
  unfolding delete_file
  delete_file-inbox filename f w h = ground (arith, up w.draws, any_found filename w.inbox f h)

  after_route :
      (filename : String) (f : ScannedFile) (w : World) (r : Result ⊤) (v : World)
      → find? (has_name filename) w.inbox ≡ some f
      → (r ≡ ok tt) × (v.inbox ≡ w.inbox)
      → (continue r (λ _. delete_file env filename) v).1.inbox ≡ others filename w.inbox
  after_route filename f w (err e) v h k = cc (k.0)
  after_route filename f w (ok u) v h k =
      delete_file-inbox filename f v (ap (find? (has_name filename)) k.1 ∙ h)
      ∙ ap (others filename) k.1

  -- A file leaves the folder.
  ingest-inbox :
      (max_mb : ℕ) (filename request_id batch_id : String) (w : World)
      → (ingest env content max_mb filename request_id batch_id w).1.inbox ≡ others filename w.inbox
  unfolding read_file
  ingest-inbox max_mb filename request_id batch_id w =
      elim (Option-cases (find? (has_name filename) w.inbox)) [
        | inl e ↦ rw (up w.draws, e) (sym (others_absent filename w.inbox e))
        | inr (f, e) ↦
            let v = record w { draws = w.draws + 1 } in
            let (r, x) =
              route env content batch_id request_id filename f.content
                (validate_tiff content max_mb filename f.content) v in
            rw (up w.draws, e)
              (after_route filename f w r x e (
                route-inbox batch_id request_id filename f.content
                  (validate_tiff content max_mb filename f.content) v))
      ]

  ingest_file-returns :
      (max_mb : ℕ) (filename : String) (w : World)
      → let (r, w') = ingest_file env content max_mb filename w in
        (r ≡ ok tt) × (w'.inbox ≡ others filename w.inbox)
  ingest_file-returns max_mb filename w =
      (refl, ingest-inbox max_mb filename _ _ (record w { draws = w.draws + 1 + 1 }))

  -- The folder without the files of some names.
  without : List String → List ScannedFile → List ScannedFile
  without [] inbox = inbox
  without (filename ∷ filenames) inbox = without filenames (others filename inbox)

  ingest_all-returns :
      (max_mb : ℕ) (filenames : List String) (w : World)
      → let (r, w') = ingest_all env content max_mb filenames w in
        (r ≡ ok tt) × (w'.inbox ≡ without filenames w.inbox)
  unfolding without
  ingest_all-returns max_mb [] w = (refl, refl)
  ingest_all-returns max_mb (filename ∷ filenames) w =
      let (r, v) = ingest_file env content max_mb filename w in
      let (returned, left) = ingest_file-returns max_mb filename w in
      let (done, rest) = ingest_all-returns max_mb filenames v in
      (done, rest ∙ ap (without filenames) left)

  abbrev is_listed : List String → ScannedFile → Bool
  is_listed filenames f = any (str_eq f.name) filenames

  others-listed :
      (filename : String) (filenames : List String) (inbox : List ScannedFile)
      → all (is_listed (filename ∷ filenames)) inbox ≡ true
      → all (is_listed filenames) (others filename inbox) ≡ true
  others-listed filename filenames [] h = refl
  others-listed filename filenames (f ∷ inbox) h =
      ground (arith, others-listed filename filenames inbox)

  without-listed :
      (filenames : List String) (inbox : List ScannedFile)
      → all (is_listed filenames) inbox ≡ true
      → without filenames inbox ≡ []
  unfolding without
  without-listed [] [] h = refl
  without-listed [] (f ∷ inbox) h = cc
  without-listed (filename ∷ filenames) inbox h =
      without-listed filenames (others filename inbox) (others-listed filename filenames inbox h)

  listed_weaken :
      (filename : String) (filenames : List String) (inbox : List ScannedFile)
      → all (is_listed filenames) inbox ≡ true
      → all (is_listed (filename ∷ filenames)) inbox ≡ true
  listed_weaken filename filenames [] h = refl
  listed_weaken filename filenames (f ∷ inbox) h =
      ground (arith, listed_weaken filename filenames inbox)

  all_listed :
      (inbox : List ScannedFile)
      → all (is_listed (map (λ (f : ScannedFile). f.name) inbox)) inbox ≡ true
  all_listed [] = refl
  all_listed (f ∷ inbox) = ground (
    arith,
    eq_refl f.name,
    listed_weaken f.name (map (λ (g : ScannedFile). g.name) inbox) inbox (all_listed inbox),
  )

  -- A round returns and leaves the folder empty.
  ingest_once-returns :
      (max_mb : ℕ) (w : World)
      → let (r, w') = ingest_once env content max_mb w in (r ≡ ok tt) × (w'.inbox ≡ [])
  unfolding ingest_once list_files
  ingest_once-returns max_mb w =
      let names = map (λ (f : ScannedFile). f.name) w.inbox in
      let v = record w { draws = w.draws + 1 } in
      let (done, left) = ingest_all-returns max_mb names v in
      rw (up w.draws) (done, left ∙ without-listed names w.inbox (all_listed w.inbox))

  after_round :
      (max_mb n : ℕ) (r : Result ⊤) (v : World)
      → (r ≡ ok tt) × (v.inbox ≡ [])
      → let (r', w') = continue r (λ _. poll env content max_mb n) v in
        (r' ≡ ok tt) × (w'.inbox ≡ [])
  unfolding poll
  after_round max_mb n (err e) v h = cc (h.0)
  after_round max_mb zero (ok u) v h = (refl, h.1)
  after_round max_mb (suc n) (ok u) v h =
      let (r, x) = ingest_once env content max_mb v in
      after_round max_mb n r x (ingest_once-returns max_mb v)

  -- Where no call of SFTP, MinIO and Redis fails, the first identifiers of the runtime, as many as are
  -- drawn, are different UUIDs of which the bucket holds no key yet, in a folder whose names are unique,
  -- and when MinIO gives back the object of every job: one round or more of the poller returns, leaves
  -- the folder empty, and MinIO gives back the content of any file that was scanned under some key.
  pub poll-drains :
      (max_mb n limit : ℕ) (w : World) (f : ScannedFile)
      → IsUuid4 env limit
      → (poll env content max_mb (suc n) w).1.draws ≤ limit
      → IsFuture env w.draws limit w.objects
      → AllReady content w.objects w.jobs
      → IsFolder w.inbox
      → Memᴰ f w.inbox
      → let (r, w') = poll env content max_mb (suc n) w in
        (r ≡ ok tt) × (w'.inbox ≡ []) × IsStored f.content w'.objects
  unfolding poll
  poll-drains max_mb n limit w f law below future ready folder m =
      let (r, v) = ingest_once env content max_mb w in
      let (done, empty) = after_round max_mb n r v (ingest_once-returns max_mb w) in
      let custody = poll-Custody env content max_mb (suc n) w limit law below future ready folder in
      (done, empty, stored f.content _ _ f empty (custody.kept f m))
