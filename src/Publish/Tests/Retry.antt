-- ===== src/Publish/Tests/Retry.antt =====
-- A retry of the publish workflow after its first step has failed.
use imgsrv.Prelude.{ℕ, List, [], ◌∷◌, none, some, true, ◌≡◌, refl, is_blank}
use imgsrv.Publish.Domain.{JobState, StepState, is_job}
use imgsrv.Publish.Tables.{Job, Step}
use imgsrv.Publish.Statements.{StepView, claimed, finished, find_job}
use imgsrv.Publish.Enqueue.{JobView, enqueue_version}
use imgsrv.Publish.Retry.{first_failed, requeued, retry_job}
use imgsrv.Publish.Steps.{claim, fail_step}
use imgsrv.Publish.JobOutcomes.{validate_row, index_row, finalize_row}
use imgsrv.Publish.Moves.{Op, claim_next, fail, apply, run}
use imgsrv.Publish.Retrying.{retry_job-restarts}
use imgsrv.Publish.Tests.{start, ids, enqueued, worker, lease, unlocked}

abbrev failing : List Op
failing =
    enqueued
    ∷ claim_next unlocked 101 (worker 50)
    ∷ fail 102 (record { lease = lease 11 1; failure_message = "bad" })
    ∷ []

abbrev row_view : Step → StepView
row_view s = record { step = s; version_id = 2; image_name = "debian"; version = "12" }

abbrev queued_job : JobView
queued_job = record {
  job = record {
    id = 10;
    version_id = 2;
    state = JobState.queued;
    started_at = some 101;
    finished_at = none;
    failure_message = none;
  };
  image_name = "debian";
  version = "12";
  steps =
      row_view (
        requeued 200
          (finished StepState.failed (some "bad") 102 (claimed "w" 101 (validate_row 100 ids))))
      ∷ row_view (requeued 200 (index_row 100 ids))
      ∷ row_view (requeued 200 (finalize_row 100 ids))
      ∷ [];
}

retry_job-restarts_example :
    (j : Job) × (n : ℕ) × (find_job (run failing start) 10 ≡ some j)
    × (is_job j.state JobState.failed ≡ true)
    × (first_failed 10 (run failing start).steps ≡ some n)
    × (find_job (retry_job 200 10 (run failing start)).1 10
        ≡ some (record j { state = JobState.queued; finished_at = none; failure_message = none }))
    × (first_failed 10 (retry_job 200 10 (run failing start)).1.steps ≡ none)
unfolding run apply enqueue_version claim fail_step retry_job is_blank
retry_job-restarts_example = retry_job-restarts 200 10 (run failing start) queued_job refl
