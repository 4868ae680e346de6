-- ===== src/Tests/Requests.antt =====
-- The answers of endpoints and of a recording at small inputs.
use dropsort.Prelude.Paths.{contains}
use dropsort.Prelude.{false, List, [], ◌∷◌, map, ◌≡◌, refl, arith, some, all, true}
use dropsort.Db.Tables.{row}
use dropsort.Db.Invariant.{prediction_id}
use dropsort.Db.{prediction_fits}
use dropsort.Domain.{admin, auditor, reviewer, PredictionOut}
use dropsort.Access.{relabel_prediction, change_user_role, set_active, remove_user}
use dropsort.Api.{refused}
use dropsort.Api.Admin.{change_role_endpoint, set_user_active_endpoint, remove_user_endpoint}
use dropsort.Api.Admin.Obstacles.{own_account, obstacles-refused}
use dropsort.Access.Matrix.{permitted-granted}
use dropsort.Api.Predictions.{relabel_endpoint}
use dropsort.Api.Predictions.Answers.{Answered, relabel_endpoint-Answered}
use dropsort.Tests.Fixture.{
  test_env, clear_prefix, jane, root, batch, tables, world, tables-IsValid,
}
use dropsort.Exec.{ok}
use dropsort.Repositories.Predictions.{new_prediction}
use dropsort.Services.PredictionService.{record_prediction}
use dropsort.Services.PredictionService.Recording.{Recorded}
use dropsort.Services.PredictionService.Returning.{IsFresh, record_prediction-returns}
use dropsort.Tests.Pipeline.{scan}
use mathlib.Core.List.{Perm}
use dropsort.Db.{Batch}
use dropsort.Db.Order.Sorted.{IsStrictlyNewestFirst}
use dropsort.Service.{World}
use dropsort.Repositories.Batches.{counted}
use dropsort.Services.BatchService.Paging.{read_pages, read_pages-all}
use dropsort.Tests.Access.{casbin, casbin-IsCasbin, loaded}

fitting : all prediction_fits loaded.db.predictions ≡ true
unfolding prediction_fits contains
fitting = refl

relabel_endpoint-Answered_example :
    let (answer, w') = relabel_endpoint test_env clear_prefix casbin jane 30 "letter" loaded in
    Answered test_env clear_prefix casbin jane 30 "letter" loaded
      (row prediction_id 30 loaded.db.predictions)
      answer
      w'
relabel_endpoint-Answered_example =
    relabel_endpoint-Answered test_env clear_prefix casbin jane 30 "letter" loaded
      (permitted-granted casbin casbin-IsCasbin reviewer relabel_prediction) refl refl fitting

scan-fits : prediction_fits (new_prediction test_env 0 scan 0) ≡ true
unfolding prediction_fits contains
scan-fits = refl

test_env-IsFresh : IsFresh test_env world.db
test_env-IsFresh n = (ground arith, ground arith)

record_prediction-returns_example :
    let (r, w') = record_prediction test_env clear_prefix "scan-2" scan world in
    (created : PredictionOut) × (r ≡ ok (some created))
    × Recorded test_env "scan-2" scan world.db created w'.db
unfolding contains
record_prediction-returns_example =
    record_prediction-returns test_env clear_prefix "scan-2" scan world tables-IsValid.batches
      test_env-IsFresh refl refl scan-fits

-- Three batches.
abbrev scans : World
scans = record world {
  db = record tables {
    batches =
        batch
        ∷ record batch { id = 21; external_id = some "scan-2"; created_at = 9 }
        ∷ record batch { id = 22; external_id = some "scan-3"; created_at = 7 }
        ∷ [];
  };
}

read_pages-all_example :
    (batches : List Batch) × (read_pages 2 2 0 scans ≡ (ok (map (counted scans.db) batches), scans))
    × Perm batches scans.db.batches
    × IsStrictlyNewestFirst (λ (b : Batch). b.created_at) batches
read_pages-all_example =
    read_pages-all 2 scans 2 (omega arith)
      ((ground arith, (ground arith, tt)), ((ground arith, tt), (tt, tt)))

-- The administrator's own account, by the administrator.
obstacles-refused_example :
    (change_role_endpoint test_env clear_prefix casbin root 1 auditor loaded
      ≡ (refused 400 "You cannot change your own access level here", loaded))
    × (set_user_active_endpoint test_env clear_prefix casbin root 1 false loaded
        ≡ (refused 400 "You cannot change your own access status here", loaded))
    × (remove_user_endpoint test_env clear_prefix casbin root 1 loaded
        ≡ (refused 400 "You cannot remove your own account here", loaded))
obstacles-refused_example =
    obstacles-refused casbin root 1 loaded test_env clear_prefix (own_account root refl refl refl)
      auditor false (permitted-granted casbin casbin-IsCasbin admin change_user_role)
      (permitted-granted casbin casbin-IsCasbin admin set_active)
      (permitted-granted casbin casbin-IsCasbin admin remove_user)
