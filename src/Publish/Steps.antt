-- ===== src/Publish/Steps.antt =====
-- ClaimStep and the operations that end a step, of internal/store/postgres/publish/store.go, each one
-- transaction. The rows that other transactions lock are an argument of the claim.
use imgsrv.Prelude.{Bool, [], ◌∷◌, ◌==◌, Result, publish_invalid}
use imgsrv.Publish.Domain.{
  Uuid, Time, validate_catalog, incus_index, finalize_publish, Lease, ClaimStepParams,
  FailStepParams, SucceedIncusIndexStepParams, validate_claim_step_params, validate_step_lease,
  validate_succeed_incus_index_step_params, validate_fail_step_params,
}
use imgsrv.Publish.Tables.{Db, Tx, ◌>>=◌, ◌>>◌, pure, require, with_tx, validated}
use imgsrv.Publish.Statements.{
  StepView, claim_step, mark_job_running, lock_running_step, require_step_name, mark_step_succeeded,
  mark_step_failed, require_previous_blocking_steps_succeeded, mark_job_succeeded, mark_job_failed,
}
use imgsrv.Publish.Versions.{
  require_publishable_version, mark_version_published, replace_incus_rows,
}
use imgsrv.Publish.Enqueue.{JobView, job_view, get_job_by_id}

unfoldable pub claim_tx : (Uuid → Bool) → Time → ClaimStepParams → Tx StepView
unfolding claim_step mark_job_running
claim_tx locked now p = do v ← claim_step locked now p; mark_job_running now v.step.job_id; pure v

-- ClaimStep.
unfoldable pub claim : (Uuid → Bool) → Time → ClaimStepParams → Db → Result StepView × Db
unfolding validate_claim_step_params claim_tx with_tx
claim locked now p = validated (validate_claim_step_params p) (with_tx (claim_tx locked now p))

unfoldable pub succeed_validate_catalog_tx : Time → Lease → Tx StepView
unfolding lock_running_step require_publishable_version mark_step_succeeded
succeed_validate_catalog_tx now l = do
  v ← lock_running_step l
  require_step_name v validate_catalog
  require_publishable_version v.version_id
  mark_step_succeeded now v.step.id

unfoldable pub succeed_validate_catalog_step : Time → Lease → Db → Result StepView × Db
unfolding validate_step_lease succeed_validate_catalog_tx with_tx
succeed_validate_catalog_step now l =
    validated (validate_step_lease l) (with_tx (succeed_validate_catalog_tx now l))

unfoldable pub succeed_incus_index_tx : Time → SucceedIncusIndexStepParams → Tx StepView
unfolding lock_running_step replace_incus_rows mark_step_succeeded
succeed_incus_index_tx now p = do
  v ← lock_running_step p.lease
  require_step_name v incus_index
  require (v.version_id == p.version_id) (publish_invalid ∷ [])
  replace_incus_rows p.version_id p.rows
  mark_step_succeeded now v.step.id

unfoldable pub succeed_incus_index_step :
    Time → SucceedIncusIndexStepParams → Db → Result StepView × Db
unfolding validate_succeed_incus_index_step_params succeed_incus_index_tx with_tx
succeed_incus_index_step now p =
    validated (validate_succeed_incus_index_step_params p) (with_tx (succeed_incus_index_tx now p))

unfoldable pub finalize_publish_tx : Time → Lease → Tx JobView
unfolding lock_running_step require_previous_blocking_steps_succeeded mark_version_published
    mark_step_succeeded mark_job_succeeded job_view
finalize_publish_tx now l = do
  v ← lock_running_step l
  require_step_name v finalize_publish
  require_previous_blocking_steps_succeeded v
  mark_version_published now v.version_id
  mark_step_succeeded now v.step.id
  mark_job_succeeded now v.step.job_id
  get_job_by_id v.step.job_id

unfoldable pub finalize_publish_step : Time → Lease → Db → Result JobView × Db
unfolding validate_step_lease finalize_publish_tx with_tx
finalize_publish_step now l =
    validated (validate_step_lease l) (with_tx (finalize_publish_tx now l))

unfoldable pub fail_tx : Time → FailStepParams → Tx StepView
unfolding lock_running_step mark_step_failed mark_job_failed
fail_tx now p = do
  v ← lock_running_step p.lease
  w ← mark_step_failed now v.step.id p.failure_message
  mark_job_failed now w.step.job_id p.failure_message
  pure w

unfoldable pub fail_step : Time → FailStepParams → Db → Result StepView × Db
unfolding validate_fail_step_params fail_tx with_tx
fail_step now p = validated (validate_fail_step_params p) (with_tx (fail_tx now p))
