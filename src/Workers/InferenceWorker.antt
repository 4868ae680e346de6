-- ===== src/Workers/InferenceWorker.antt =====
-- app/workers/inference_worker.py: the handler of a job that raised.
pub mod Reports
use dropsort.Prelude.{ℕ, String, Bool, true, false, ◌&&◌, not, str_eq, ltb, if◌then◌else◌}
use dropsort.Exec.{pure, ◌>>◌}
use dropsort.Session.{Env}
use dropsort.Service.{Clear, Action, Job}
use dropsort.Services.PredictionService.{mark_batch_failed}

module _ (env : Env) (clear : Clear) where
  abbrev pub give_up : Bool → Job → String → Action Bool
  give_up false job reason = pure true
  give_up true job reason = do
    mark_batch_failed env clear job.batch_id job.filename reason
    pure true

  -- `handle_worker_exception`, with the number of retries left and the text of the exception
  unfoldable pub handle_worker_exception : ℕ → Job → String → Action Bool
  handle_worker_exception retries_left job reason =
      if ltb 0 retries_left
      then pure true
      else give_up (not (str_eq job.batch_id "") && not (str_eq job.filename "")) job reason
