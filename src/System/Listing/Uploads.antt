-- ===== src/System/Listing/Uploads.antt =====
-- services/batch_upload_service.py: the stored lists of batches under an upload, where no call fails.
use dropsort.Prelude.{ℕ, String, ◌≡◌, ◌⊎◌, inl, inr, refl, ap, ◌∙◌, uuid_str}
use dropsort.Domain.{BatchOut}
use dropsort.Db.{Db}
use dropsort.Exec.{Result, ok, err, continue, ◌>>=◌}
use dropsort.Session.{Env}
use dropsort.Service.{World, Action, Bytes, Cache, Clear, begin, detail_namespace}
use dropsort.Service.Thins.{IsClear, Thinner, Thinner-trans, Thins, Spared, begin-Spared}
use dropsort.Service.Keeps.{KeepsDb}
use dropsort.Infra.{IsUp, upload_bytes, enqueue_classification_job}
use dropsort.Infra.Keeps.{upload_bytes-KeepsDb}
use dropsort.Pipeline.{Content, validate_tiff}
use dropsort.Repositories.Batches.{upsert_external}
use dropsort.Services.BatchUploadService.{
  safe_filename, from_result, new_uuid_text, refuse, announce, store, incoming_key,
  enqueue_browser_tiff,
}
use dropsort.Services.BatchUploadService.Keeping.{refuse-KeepsDb, new_uuid_text-KeepsDb}
use dropsort.Api.Listings.{ListKey, batches_key}
use dropsort.System.Recent.{IsListKey}
use dropsort.System.Recent.Stored.{refuse-Thins, upload_bytes-Thins, uuid-Thins}
use dropsort.System.Listing.{batch_rows, Dry, Effect, clear-Dry, more-Dry}

module _ (list_key : ListKey) where
  -- The lists are gone, or the tables are the same and no list is new.
  abbrev Settled : World → World → Type 0
  Settled w w' =
      Dry list_key w'.cache
      ⊎ ((w'.db ≡ w.db) × ((o l : ℕ) → Thinner (batches_key list_key o l) w w'))

  thin-Dry :
      (v w : World)
      → ((o l : ℕ) → Thinner (batches_key list_key o l) v w)
      → Dry list_key v.cache
      → Dry list_key w.cache
  thin-Dry v w thin dry o l = elim (thin o l) [ inl gone ↦ gone | inr same ↦ same ∙ dry o l ]

  Settled-trans : (u v w : World) → Settled u v → Settled v w → Settled u w
  Settled-trans u v w a (inl dry) = inl dry
  Settled-trans u v w (inl dry) (inr (db, thin)) = inl (thin-Dry v w thin dry)
  Settled-trans u v w (inr (db, thin)) (inr (db', thin')) =
      inr (db' ∙ db, λ o l. Thinner-trans (batches_key list_key o l) u v w (thin o l) (thin' o l))

  record Settles {A : Type 0} (m : Action A) : Type 0 where
    at : (w : World) → Settled w (m w).1

  continue-Settled :
      {A B : Type 0} (r : Result A) (f : A → Action B) (u v : World)
      → Settled u v
      → ((a : A) → Settles (f a))
      → Settled u (continue r f v).1
  continue-Settled (ok a) f u v s k = Settled-trans u v (f a v).1 s ((k a).at v)
  continue-Settled (err e) f u v s k = s

  Settles-bind :
      {A B : Type 0} (m : Action A) (f : A → Action B)
      → Settles m
      → ((a : A) → Settles (f a))
      → Settles (m >>= f)
  Settles-bind m f km kf = record {
    at = λ w. let (r, v) = m w in continue-Settled r f w v (km.at w) kf;
  }

  -- What leaves the tables and stores nothing.
  quiet-Settles :
      {A : Type 0} (m : Action A)
      → ((db : Db) → KeepsDb (λ d. d ≡ db) m)
      → ((key : String) → Thins key m)
      → Settles m
  quiet-Settles m keeps thins = record {
    at = λ w. inr ((keeps w.db).at w refl, λ o l. (thins (batches_key list_key o l)).at w);
  }

  module _ (k : IsListKey list_key) (env : Env) (clear : Clear) (h : IsClear clear) (up : IsUp env)
      (content : Content) where
    -- The job is queued, and the lists are cleared.
    announce-Dry :
        (external_id request_id name : String) (bytes : Bytes) (batch : BatchOut) (w : World)
        → Dry list_key
            (announce env clear content external_id request_id name bytes batch w).1.cache
    unfolding enqueue_classification_job
    announce-Dry external_id request_id name bytes batch w = rw (up w.draws) (
        more-Dry list_key k clear h (detail_namespace (uuid_str batch.id)) _
          (clear-Dry list_key k clear h w.cache))

    published :
        (external_id request_id name : String) (bytes : Bytes) (r : Result BatchOut) (w v : World)
        → Spared r w v
        → Settled w (continue r (announce env clear content external_id request_id name bytes) v).1
    published external_id request_id name bytes (ok batch) w v s =
        inl (announce-Dry external_id request_id name bytes batch v)
    published external_id request_id name bytes (err e) w v (cache, db) =
        inr (db, λ o l. inr (ap (λ (c : Cache). c (batches_key list_key o l)) cache))

    store-Settles :
        (external_id request_id name : String) (bytes : Bytes)
        → Settles (store env clear content external_id request_id name bytes)
    store-Settles external_id request_id name bytes =
        Settles-bind (upload_bytes env (incoming_key external_id name) bytes "image/tiff") _
          (quiet-Settles _ (λ db. upload_bytes-KeepsDb env _ bytes _)
            (λ key. upload_bytes-Thins key env _ bytes _))
          λ _. record {
            at = λ w.
                let (r, v) = begin (upsert_external env external_id) w in
                published external_id request_id name bytes r w v
                  (begin-Spared (upsert_external env external_id) w);
          }

    uuid-Settles : Settles (new_uuid_text env)
    uuid-Settles = quiet-Settles _ (λ db. new_uuid_text-KeepsDb env) (λ key. uuid-Thins key env)

    enqueue_browser_tiff-Settles :
        (max_mb : ℕ) (bytes : Bytes) (filename : String)
        → Settles (enqueue_browser_tiff env clear content max_mb bytes filename)
    unfolding enqueue_browser_tiff
    enqueue_browser_tiff-Settles max_mb bytes filename =
        Settles-bind (from_result (safe_filename filename)) _
          (record { at = λ w. inr (refl, λ o l. inr refl) })
          λ name.
            let reason = validate_tiff content max_mb name bytes in
            Settles-bind (refuse env name bytes reason) _
              (quiet-Settles _ (λ db. refuse-KeepsDb env name bytes reason)
                (λ key. refuse-Thins key env clear h name bytes reason))
              λ _. Settles-bind (new_uuid_text env) _ uuid-Settles λ external_id.
                Settles-bind (new_uuid_text env) _ uuid-Settles
                  λ request_id. store-Settles external_id request_id name bytes

    pub enqueue_browser_tiff-Effect :
        (max_mb : ℕ) (bytes : Bytes) (filename : String) (w : World)
        → Effect list_key w (enqueue_browser_tiff env clear content max_mb bytes filename w).1
    enqueue_browser_tiff-Effect max_mb bytes filename w =
        elim ((enqueue_browser_tiff-Settles max_mb bytes filename).at w) [
          | inl dry ↦ inl dry
          | inr (db, thin) ↦ inr ((λ o l. ap (batch_rows o l) db), thin)
        ]
