-- ===== src/Infra/Triples.antt =====
-- Pre- and postconditions of actions: one for a return and one for an exception.
use dropsort.Prelude.{String, Bool, true, false, List, [], ◌∷◌, ◌++◌}
use dropsort.Domain.{Uuid}
use dropsort.Exec.{Exc, external, Result, ok, err, pure, raise, raise_if, continue, ◌>>=◌}
use dropsort.Session.{Env, Session, Tx}
use dropsort.Service.{
  World, Action, Clear, StoredObject, Job, ScannedFile, begin, session, settle, spin, clear_cache,
  Bytes,
}
use dropsort.Infra.{attempt, upload_bytes, enqueue_classification_job}

abbrev pub Post {ℓ} :
    {A : Type ℓ} → (A → World → Type 0) → (World → Type 0) → Result A × World → Type 0
Post Q E (ok a, w) = Q a w
Post Q E (err _, w) = E w

pub record Triple {ℓ} {A : Type ℓ} (P : World → Type 0) (m : Action A) (Q : A → World → Type 0)
    (E : World → Type 0) : Type ℓ where
  pub at : (w : World) → P w → Post Q E (m w)

module _ {ℓ κ} {A : Type ℓ} {B : Type κ} {E : World → Type 0} {R : A → World → Type 0}
    {Q : B → World → Type 0} where
  Post-continue :
      (r : Result A) (w : World) (f : A → Action B)
      → Post R E (r, w)
      → ((a : A) → Triple (R a) (f a) Q E)
      → Post Q E (continue r f w)
  Post-continue (ok a) w f h k = (k a).at w h
  Post-continue (err e) w f h k = h

  pub Triple-bind :
      {P : World → Type 0} (m : Action A) (f : A → Action B)
      → Triple P m R E
      → ((a : A) → Triple (R a) (f a) Q E)
      → Triple P (m >>= f) Q E
  Triple-bind m f hm hf = record {
    at = λ w h. let (r, w') = m w in Post-continue r w' f (hm.at w h) hf;
  }

-- A statement about the bucket, the queue and the folder.
abbrev pub On : (List StoredObject → List Job → List ScannedFile → Type 0) → World → Type 0
On R w = R w.objects w.jobs w.inbox

Post-weaken {ℓ} :
    {A : Type ℓ} {E E' : World → Type 0} (Q : A → World → Type 0) (r : Result A) (w : World)
    → ((v : World) → E v → E' v)
    → Post Q E (r, w)
    → Post Q E' (r, w)
Post-weaken Q (ok a) w f h = h
Post-weaken Q (err e) w f h = f w h

pub Post-map {ℓ} :
    {A : Type ℓ} (Q Q' : A → World → Type 0) (E : World → Type 0) (r : Result A) (w : World)
    → ((a : A) (v : World) → Q a v → Q' a v)
    → Post Q E (r, w)
    → Post Q' E (r, w)
Post-map Q Q' E (ok a) w f h = f a w h
Post-map Q Q' E (err e) w f h = h

pub Triple-weaken {ℓ} :
    {A : Type ℓ} {P E E' : World → Type 0} {Q : A → World → Type 0} {m : Action A}
    → ((v : World) → E v → E' v)
    → Triple P m Q E
    → Triple P m Q E'
Triple-weaken {Q = Q} {m = m} f t = record {
  at = λ w h. let (r, w') = m w in Post-weaken Q r w' f (t.at w h);
}

module _ (R : List StoredObject → List Job → List ScannedFile → Type 0) {E : World → Type 0} where
  -- What cannot raise.
  pub Triple-pure {ℓ} : {A : Type ℓ} (a : A) → Triple (On R) (pure a) (λ _. On R) E
  Triple-pure a = record { at = λ w h. h }

  pub Triple-spin : Triple (On R) spin (λ _. On R) E
  Triple-spin = record { at = λ w h. h }

  pub Triple-clear :
      (clear : Clear) (n : String) → Triple (On R) (clear_cache clear n) (λ _. On R) E
  Triple-clear clear n = record { at = λ w h. h }

module _ (R : List StoredObject → List Job → List ScannedFile → Type 0) where
  pub Triple-raise {ℓ} :
      {A : Type ℓ} {Q : A → World → Type 0} (e : Exc) → Triple (On R) (raise {A = A} e) Q (On R)
  Triple-raise e = record { at = λ w h. h }

  Post-raise_if :
      (b : Bool) (e : Exc) (w : World) → On R w → Post (λ _. On R) (On R) (raise_if b e w)
  Post-raise_if true e w h = h
  Post-raise_if false e w h = h

  pub Triple-raise_if : (b : Bool) (e : Exc) → Triple (On R) (raise_if b e) (λ _. On R) (On R)
  Triple-raise_if b e = record { at = Post-raise_if b e }

  Post-settle {ℓ} :
      {A : Type ℓ} (r : Result A × Session) (w : World)
      → On R w
      → Post (λ _. On R) (On R) (settle r w)
  Post-settle (ok a, s) w h = h
  Post-settle (err e, s) w h = h

  -- A transaction touches neither.
  pub Triple-begin {ℓ} : {A : Type ℓ} (m : Tx A) → Triple (On R) (begin m) (λ _. On R) (On R)
  unfolding begin
  Triple-begin m = record { at = λ w h. Post-settle (m (session w)) w h }

  pub Triple-attempt :
      (env : Env) (system : String) → Triple (On R) (attempt env system) (λ _. On R) (On R)
  Triple-attempt env system = Triple-bind spin _ (Triple-spin R) λ n.
      Triple-bind (raise_if (env.fails n) (external system)) _ (Triple-raise_if _ _)
        λ _. Triple-pure R n

module _ (R R' : List StoredObject → List Job → List ScannedFile → Type 0) (env : Env) where
  -- An upload that returns has put its object first; one that raises has stored nothing.
  pub Triple-upload :
      (key content_type : String) (content : Bytes)
      → ((objects : List StoredObject) (jobs : List Job) (inbox : List ScannedFile)
          → R objects jobs inbox
          → R'
              (record { key = key; content = content; content_type = content_type } ∷ objects)
              jobs
              inbox)
      → Triple (On R) (upload_bytes env key content content_type) (λ _. On R') (On R)
  unfolding upload_bytes
  Triple-upload key content_type content f =
      Triple-bind (attempt env "minio") _ (Triple-attempt R env "minio")
        λ _. record { at = λ w h. f w.objects w.jobs w.inbox h }

  -- An enqueued job stands last.
  pub Triple-enqueue :
      (batch_id filename object_key content_sha256 request_id : String)
      → ((objects : List StoredObject) (jobs : List Job) (inbox : List ScannedFile) (id : Uuid)
          → R objects jobs inbox
          → R' objects
              (jobs
                ++ record {
                  id = id;
                  batch_id = batch_id;
                  filename = filename;
                  object_key = object_key;
                  content_sha256 = content_sha256;
                  request_id = request_id;
                }
                  ∷ [])
              inbox)
      → Triple
          (On R)
          (enqueue_classification_job env batch_id filename object_key content_sha256 request_id)
          (λ _. On R')
          (On R)
  unfolding enqueue_classification_job
  Triple-enqueue batch_id filename object_key content_sha256 request_id f =
      Triple-bind (attempt env "redis") _ (Triple-attempt R env "redis")
        λ n. record { at = λ w h. f w.objects w.jobs w.inbox (env.uuid4 n) h }
