-- ===== src/Tests/Jobs.antt =====
-- The poller, failed jobs, the five best classes and the golden set at small inputs.
use dropsort.Prelude.{
  ◌≡◌, ◌↔◌, refl, Memᴰ, String, true, none, some, Option, List, [], ◌∷◌, map, take, All,
}
use dropsort.Prelude.Float.{Float, scaled}
use dropsort.Exec.{ok}
use dropsort.Service.{Bytes}
use dropsort.Service.Success.{Outcome}
use dropsort.Classifier.Golden.{Expected, IsReplayed, golden_failures, golden_failures_iff}
use dropsort.Workers.SftpIngest.{poll}
use dropsort.Workers.SftpIngest.Custody.{IsStored}
use dropsort.Workers.SftpIngest.Draining.{poll-drains}
use dropsort.Workers.Jobs.{pair, dict, other, normalise_top5, as_pair}
use dropsort.Workers.Jobs.Five.{Bounded, IsScore, top_item, normalise_top5_bounds}
use dropsort.Workers.InferenceWorker.{handle_worker_exception}
use dropsort.Workers.InferenceWorker.Reports.{Reported, handle_worker_exception-Outcome}
use dropsort.Tests.Fixture.{test_env, clear_prefix, world, tables-IsValid}
use dropsort.Tests.Pipeline.{content, good, one_file, test_env-IsUuid4, good_draws}
use dropsort.Tests.Worker.{net, letter, job}

poll-drains_example :
    let w = record world { inbox = good ∷ [] } in
    let (r, w') = poll test_env content 25 1 w in
    (r ≡ ok tt) × (w'.inbox ≡ []) × IsStored good.content w'.objects
poll-drains_example =
    poll-drains test_env content (λ n. refl) 25 0 100 (record world { inbox = good ∷ [] }) good
      test_env-IsUuid4 good_draws (λ n later below name. ((λ o m. elim m [ ]), (λ o m. elim m [ ])))
      refl one_file (Memᴰ.head refl)

handle_worker_exception-Outcome_example :
    Outcome world.db
      (λ done db'. (done ≡ true) × Reported test_env 0 job "no image" world.db db')
      (handle_worker_exception test_env clear_prefix 0 job "no image" world)
handle_worker_exception-Outcome_example =
    handle_worker_exception-Outcome test_env clear_prefix 0 job "no image" world
      tables-IsValid.batches

normalise_top5_bounds_example :
    Bounded 5 (
      normalise_top5
        (dict (some "memo") none (some (scaled 1 1)) ∷ other ∷ pair "form" (scaled 3 1) ∷ []))
    × ((normalise_top5 (map as_pair letter.top5) ≡ ok (map top_item (take 5 letter.top5)))
        ↔ All (λ (x : String × Float). IsScore x.1) (take 5 letter.top5))
normalise_top5_bounds_example =
    normalise_top5_bounds
      (dict (some "memo") none (some (scaled 1 1)) ∷ other ∷ pair "form" (scaled 3 1) ∷ [])
      letter.top5

abbrev expected : List Expected
expected = record { filename = "a.tif"; pred_label = "letter"; top1_confidence = scaled 1 0 } ∷ []

abbrev images : String → Option Bytes
images filename = some (7 ∷ [])

golden_failures_iff_example :
    (golden_failures net images expected ≡ ok []) ↔ All (IsReplayed net images) expected
golden_failures_iff_example = golden_failures_iff net images expected
