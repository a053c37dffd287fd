-- ===== src/Uploads/Ingest.antt =====
-- internal/store/postgres/uploads/ingest.go: the operations on CAS ingest jobs, each one transaction.
-- The rows that other transactions lock are an argument of the claim.
use imgsrv.Prelude.{String, Bool, ◌>>=◌, ◌>>◌, pure, Result}
use imgsrv.Publish.Domain.{Uuid, Time}
use imgsrv.Uploads.Domain.{
  SucceedIngestJobParams, FailIngestJobParams, validate_required_text,
  validate_succeed_ingest_job_params, validate_fail_ingest_job_params,
}
use imgsrv.Uploads.Tables.{IngestJob, UploadDb, Tx, call}
use imgsrv.Uploads.Statements.{
  claim_job, mark_session_ingesting, lock_running_job, ensure_cas_blob, mark_session_ready,
  mark_job_succeeded, mark_session_failed, mark_job_failed,
}

unfoldable pub claim_ingest_tx : (Uuid → Bool) → Time → String → Tx IngestJob
unfolding claim_job mark_session_ingesting
claim_ingest_tx locked now worker = do
  j ← claim_job locked now worker
  mark_session_ingesting now j.upload_id
  pure j

-- ClaimIngestJob.
unfoldable pub claim_ingest_job :
    (Uuid → Bool) → Time → String → UploadDb → Result IngestJob × UploadDb
unfolding validate_required_text claim_ingest_tx
claim_ingest_job locked now worker =
    call (validate_required_text worker) (claim_ingest_tx locked now worker)

unfoldable pub succeed_ingest_tx : Time → SucceedIngestJobParams → Tx IngestJob
unfolding lock_running_job ensure_cas_blob mark_session_ready mark_job_succeeded
succeed_ingest_tx now p = do
  j ← lock_running_job p.id
  ensure_cas_blob now p
  mark_session_ready now j.upload_id p
  mark_job_succeeded now p.id p.digest

-- SucceedIngestJob.
unfoldable pub succeed_ingest_job :
    Time → SucceedIngestJobParams → UploadDb → Result IngestJob × UploadDb
unfolding validate_succeed_ingest_job_params succeed_ingest_tx
succeed_ingest_job now p = call (validate_succeed_ingest_job_params p) (succeed_ingest_tx now p)

unfoldable pub fail_ingest_tx : Time → FailIngestJobParams → Tx IngestJob
unfolding lock_running_job mark_session_failed mark_job_failed
fail_ingest_tx now p = do
  j ← lock_running_job p.id
  mark_session_failed now j.upload_id p.failure_message
  mark_job_failed now p.id p.failure_message

-- FailIngestJob.
unfoldable pub fail_ingest_job : Time → FailIngestJobParams → UploadDb → Result IngestJob × UploadDb
unfolding validate_fail_ingest_job_params fail_ingest_tx
fail_ingest_job now p = call (validate_fail_ingest_job_params p) (fail_ingest_tx now p)
