-- ===== src/Promote/Job.antt =====
-- RunOnce of internal/jobs/promote/job.go, over the modelled upload store and content-addressed storage. The
-- rows that other transactions lock and the time of the claim are arguments.
use imgsrv.Prelude.{
  String, Bool, true, false, none, some, if◌then◌else◌, Result, errors_is, ok, err,
  upload_not_found,
}
use imgsrv.Publish.Domain.{Uuid, Time}
use imgsrv.Uploads.Domain.{validate_required_text}
use imgsrv.Uploads.Tables.{Session, IngestJob}
use imgsrv.Uploads.Sessions.{get_session}
use imgsrv.Uploads.Ingest.{claim_ingest_job}
use imgsrv.Cas.World.{Environment, World, CommitStagedUploadParams, CommitStagedUploadResult, on_db}
use imgsrv.Cas.Commit.{commit_staged_upload}
use imgsrv.Worker.Flow.{Outcome}

abbrev pub commit_params : IngestJob → Session → CommitStagedUploadParams
commit_params j s = record {
  job_id = j.id;
  upload_id = s.id;
  staging_key = s.staging_key;
  expected_digest = s.expected_digest;
  expected_size_bytes = s.expected_size_bytes;
  media_type = s.media_type_hint;
}

module _ {O : Type 0} (env : Environment O) where
  -- What follows CommitStagedUpload.
  abbrev pub after_commit : Result CommitStagedUploadResult × World O → Outcome × World O
  after_commit (ok _, w) = (record { worked = true; failure = none }, w)
  after_commit (err e, w) = (record { worked = false; failure = some e }, w)

  -- What follows GetSession.
  unfoldable pub after_session : IngestJob → Result Session × World O → Outcome × World O
  unfolding commit_staged_upload
  after_session j (ok s, w) = after_commit (commit_staged_upload env (commit_params j s) w)
  after_session j (err e, w) = (record { worked = false; failure = some e }, w)

  -- What follows ClaimIngestJob.
  unfoldable pub after_claim : Result IngestJob × World O → Outcome × World O
  unfolding get_session after_session
  after_claim (ok j, w) = after_session j (on_db (get_session j.upload_id) w)
  after_claim (err e, w) =
      if errors_is e upload_not_found
      then (record { worked = false; failure = none }, w)
      else (record { worked = false; failure = some e }, w)

  -- RunOnce.
  unfoldable pub promote_once : (Uuid → Bool) → Time → String → World O → Outcome × World O
  unfolding validate_required_text claim_ingest_job after_claim
  promote_once locked now worker_id w = elim (validate_required_text worker_id) [
    | err e ↦ (record { worked = false; failure = some e }, w)
    | ok _ ↦ after_claim (on_db (claim_ingest_job locked now worker_id) w)
  ]
