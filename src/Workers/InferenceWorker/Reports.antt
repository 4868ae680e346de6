-- ===== src/Workers/InferenceWorker/Reports.antt =====
-- app/workers/inference_worker.py: what the handler of a failed job leaves behind.
use dropsort.Prelude.{
  ℕ, String, ◌≡◌, ◌≢◌, ◌⊎◌, inl, inr, refl, Bool, true, false, not, ◌&&◌, Bool-cases, str_eq, arith,
  ltb,
}
use dropsort.Db.{Db}
use dropsort.Db.Invariant.{BatchesValid}
use dropsort.Exec.{pure}
use dropsort.Session.{Env}
use dropsort.Service.{World, Clear, Job}
use dropsort.Service.Success.{Outcome, continue-Outcome}
use dropsort.Services.PredictionService.{mark_batch_failed}
use dropsort.Services.PredictionService.Failing.{Failed, mark_batch_failed-Outcome}
use dropsort.Workers.InferenceWorker.{handle_worker_exception, give_up}

-- The job names its batch and its file.
abbrev pub is_named : Job → Bool
is_named job = not (str_eq job.batch_id "") && not (str_eq job.filename "")

-- With retries left, or for a job without a name, nothing is written; otherwise the batch has
-- failed.
abbrev pub Reported : Env → ℕ → Job → String → Db → Db → Type 0
Reported env retries_left job reason db db' =
    ((retries_left ≢ 0) × (db' ≡ db))
    ⊎ (((is_named job ≡ false) × (db' ≡ db))
        ⊎ ((retries_left ≡ 0)
            × (is_named job ≡ true)
            × Failed env job.batch_id job.filename reason db db'))

module _ (env : Env) (clear : Clear) (retries_left : ℕ) (job : Job) (reason : String)
    (w : World) where
  give_up-Outcome :
      (named : Bool)
      → is_named job ≡ named
      → retries_left ≡ 0
      → BatchesValid w.db.batches
      → Outcome w.db
          (λ done db'. (done ≡ true) × Reported env retries_left job reason w.db db')
          (give_up env clear named job reason w)
  give_up-Outcome false named last v = (refl, inr (inl (named, refl)))
  give_up-Outcome true named last v =
      let (r, w') = mark_batch_failed env clear job.batch_id job.filename reason w in
      continue-Outcome w.db (λ _ db'. Failed env job.batch_id job.filename reason w.db db')
        (λ done db'. (done ≡ true) × Reported env retries_left job reason w.db db') r w'
        (λ _. pure true) (mark_batch_failed-Outcome env clear job.batch_id job.filename reason w v)
        (λ _ w'' h. (refl, inr (inr (last, named, h))))

  -- On tables whose batch keys and names are unique, the handler of a failed job raises and leaves
  -- the tables, or returns true: then they are as before where a retry is left or the job does not
  -- name its batch and its file, and otherwise the batch of the job is failed, every other batch as
  -- it was, with the audit row of the administrator where that account exists.
  pub handle_worker_exception-Outcome :
      BatchesValid w.db.batches
      → Outcome w.db
          (λ done db'. (done ≡ true) × Reported env retries_left job reason w.db db')
          (handle_worker_exception env clear retries_left job reason w)
  unfolding handle_worker_exception
  handle_worker_exception-Outcome v = elim (Bool-cases (ltb 0 retries_left)) [
    | inl more ↦ rw more (refl, inl ((λ e. ground arith), refl))
    | inr last ↦ rw last (give_up-Outcome (is_named job) refl (ground arith) v)
  ]
