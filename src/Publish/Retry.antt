-- ===== src/Publish/Retry.antt =====
-- RetryJob of internal/store/postgres/publish/store.go, one transaction.
use imgsrv.Prelude.{
  ℕ, Bool, ◌&&◌, not, Option, none, some, List, [], ◌∷◌, ◌==◌, ltb, leb, if◌then◌else◌,
  update_where, Result, ok, err, publish_failed_precondition,
}
use imgsrv.Publish.Domain.{
  Uuid, Time, JobState, StepState, publishing, is_job, is_step, is_version, validate_job_id,
}
use imgsrv.Publish.Tables.{Step, Db, Tx, ◌>>=◌, ◌>>◌, require, row, modify, with_tx, validated}
use imgsrv.Publish.Statements.{find_version, find_job, update_jobs, one_row}
use imgsrv.Publish.Enqueue.{JobView, job_view, get_job_by_id}

-- lockJobForRetry: the job has failed and its version is publishing.
unfoldable pub lock_job_for_retry : Uuid → Tx (Unit {0})
unfolding find_job find_version
lock_job_for_retry id = do
  j ← row (λ db. find_job db id)
  v ← row (λ db. find_version db j.version_id)
  require (is_job j.state JobState.failed) (publish_failed_precondition ∷ [])
  require (is_version v.state publishing) (publish_failed_precondition ∷ [])

abbrev pub lesser : ℕ → Option ℕ → ℕ
lesser n none = n
lesser n (some m) = if ltb m n then m else n

-- SELECT sequence ... ORDER BY sequence LIMIT 1.
unfoldable pub first_failed : Uuid → List Step → Option ℕ
first_failed id [] = none
first_failed id (s ∷ ss) =
    let best = first_failed id ss in
    if s.job_id == id && s.blocking && is_step s.state StepState.failed
    then some (lesser s.sequence best)
    else best

unfoldable pub first_failed_blocking_step_sequence : Uuid → Tx ℕ
unfolding first_failed
first_failed_blocking_step_sequence id db = elim (first_failed id db.steps) [
  | none ↦ err (publish_failed_precondition ∷ [])
  | some n ↦ ok (n, db)
]

unfoldable pub mark_job_queued_for_retry : Uuid → Tx (Unit {0})
mark_job_queued_for_retry id = one_row (
    update_jobs (λ j. j.id == id && is_job j.state JobState.failed)
      (λ j. record j { state = JobState.queued; finished_at = none; failure_message = none }))

abbrev pub requeued : Time → Step → Step
requeued now s = record s {
  state = StepState.queued;
  run_after = now;
  locked_by = none;
  locked_at = none;
  finished_at = none;
  failure_message = none;
}

abbrev pub to_requeue : Uuid → ℕ → Step → Bool
to_requeue id sequence s =
    s.job_id == id && leb sequence s.sequence && not (is_step s.state StepState.succeeded)

unfoldable pub requeue_steps_for_retry : Time → Uuid → ℕ → Tx (Unit {0})
unfolding update_where
requeue_steps_for_retry now id sequence =
    modify
      (λ db. record db { steps = update_where (to_requeue id sequence) (requeued now) db.steps })

unfoldable pub retry_tx : Time → Uuid → Tx JobView
unfolding lock_job_for_retry first_failed_blocking_step_sequence mark_job_queued_for_retry
    requeue_steps_for_retry job_view
retry_tx now id = do
  lock_job_for_retry id
  sequence ← first_failed_blocking_step_sequence id
  mark_job_queued_for_retry id
  requeue_steps_for_retry now id sequence
  get_job_by_id id

unfoldable pub retry_job : Time → Uuid → Db → Result JobView × Db
unfolding validate_job_id retry_tx with_tx
retry_job now id = validated (validate_job_id id) (with_tx (retry_tx now id))
