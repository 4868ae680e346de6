-- ===== src/Tests/Listings.antt =====
-- The stored lists of batches at small inputs, and an upload whose job cannot be
-- queued.
use dropsort.Prelude.{◌≡◌, refl, none, List, [], ◌∷◌, length, ◌==◌, uuid_str}
use dropsort.Exec.{err, external}
use dropsort.Session.{Env}
use dropsort.Infra.{enqueue_classification_job, upload_bytes}
use dropsort.Service.{begin}
use dropsort.Db.{batch_fits}
use dropsort.Prelude.Paths.{from_dot}
use dropsort.Pipeline.{validate_tiff}
use dropsort.Repositories.Batches.{upsert_external}
use dropsort.Services.BatchService.{list_batches}
use dropsort.Services.BatchUploadService.{enqueue_browser_tiff, safe_filename}
use dropsort.Access.{Endpoint}
use dropsort.Api.{endpoint}
use dropsort.Api.Listings.{list_batches_endpoint}
use dropsort.System.{upload, failure}
use dropsort.System.Listing.Refines.{Visit, event, view, visit_all, batches-refines}
use dropsort.Tests.Fixture.{test_env, clear_prefix, world, jane, tables-IsValid}
use dropsort.Tests.Access.{casbin, loaded}
use dropsort.Tests.System.{setting}
use dropsort.Tests.Worker.{clear_prefix-IsClear}
use dropsort.Tests.Caches.{list_key, list_key-IsListKey}

abbrev visits : List Visit
visits =
    view jane 0 5
    ∷ event (upload (1 ∷ []) "x.tif")
    ∷ view jane 0 5
    ∷ event (failure "scan-1" "a.tif" "unreadable")
    ∷ []

batches-refines_example :
    let w = visit_all setting list_key casbin visits loaded in
    (list_batches_endpoint list_key casbin jane 0 5 w).0
    ≡ (endpoint casbin Endpoint.list_batches jane 200 (λ _. none) (list_batches 0 5) w).0
batches-refines_example =
    batches-refines setting list_key casbin clear_prefix-IsClear list_key-IsListKey (λ n. refl)
      visits loaded jane 0 5 tables-IsValid (λ key. refl)

-- A runtime whose call of Redis fails once the batch is committed.
abbrev without_redis : Env
without_redis = record test_env { fails = λ n. n == 4 }

-- The caller gets an error, no job is queued, and the batch stays.
batch_left :
    let (r, w') =
      enqueue_browser_tiff without_redis clear_prefix setting.content 25 (1 ∷ []) "x.tif" world in
    (r ≡ err (external "redis")) × (length w'.jobs ≡ 0) × (length w'.db.batches ≡ 2)
unfolding enqueue_browser_tiff safe_filename upload_bytes enqueue_classification_job begin
    upsert_external batch_fits validate_tiff from_dot uuid_str
batch_left = (refl, refl, refl)
