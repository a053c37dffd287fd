-- ===== src/Promote/Readied.antt =====
-- What CommitStagedUpload of internal/cas/service.go leaves in the tables when it succeeds.
use imgsrv.Prelude.{String, ◌≡◌, refl, sym, subst, inl, inr, Result, ok, err, Result-cases, arith}
use imgsrv.Uploads.Tables.{IngestJob}
use imgsrv.Uploads.Ingest.{succeed_ingest_job}
use imgsrv.Uploads.Consistent.{IsConsistent}
use imgsrv.Uploads.Readied.{IsReadied, succeed_ingest_job-IsReadied}
use imgsrv.Cas.World.{
  Environment, World, CommitStagedUploadParams, CommitStagedUploadResult, on_db, on_objects,
  validate_commit_staged_upload_params,
}
use imgsrv.Cas.Commit.{
  verify_staged_upload, ensure_committed_cas_object, after_succeed, record_commit,
  commit_staged_upload,
}
use imgsrv.Cas.Promises.{outcome}
use imgsrv.Promote.Leads.{equal-Leads}
use imgsrv.Promote.Commits.{cleanup-db, after_open-Follows, ensure_committed-Follows}

module _ {O : Type 0} (env : Environment O) (p : CommitStagedUploadParams) where
  after_succeed-ok :
      (key : String) (y : Result IngestJob × World O) {r : CommitStagedUploadResult}
      → (after_succeed env p key y).0 ≡ ok r
      → (y.0 ≡ ok r.job) × ((after_succeed env p key y).1.db ≡ y.1.db)
  unfolding after_succeed
  after_succeed-ok key (ok j, w) h = (ground (arith, h), cleanup-db env w.db p.staging_key w)
  after_succeed-ok key (err e, w) h = absurd (cc)

  record_commit-IsReadied :
      (x : Result String × World O) {r : CommitStagedUploadResult}
      → IsConsistent x.1.db
      → (record_commit env p x).0 ≡ ok r
      → IsReadied p.job_id p.expected_digest p.expected_size_bytes r.job
          (record_commit env p x).1.db
  unfolding record_commit
  record_commit-IsReadied (err e, w) c h = absurd (cc)
  record_commit-IsReadied (ok key, w) {r} c h =
      let y = on_db (succeed_ingest_job env.now (outcome p key)) w in
      let (good, same) = after_succeed-ok key y h in
      subst (IsReadied p.job_id p.expected_digest p.expected_size_bytes r.job) (sym same)
        (succeed_ingest_job-IsReadied env.now (outcome p key) w.db c good)

  -- A call of CommitStagedUpload that succeeds leaves the job that it was asked to end succeeded with the
  -- declared blob, as it returns it, and the session of the job ready for that blob, which it declared with
  -- that size; and a trusted blob of the digest and the size is in the tables. The tables are consistent
  -- before.
  pub commit_staged_upload-IsReadied :
      (w : World O) {r : CommitStagedUploadResult}
      → IsConsistent w.db
      → (commit_staged_upload env p w).0 ≡ ok r
      → IsReadied p.job_id p.expected_digest p.expected_size_bytes r.job
          (commit_staged_upload env p w).1.db
  unfolding commit_staged_upload verify_staged_upload
  commit_staged_upload-IsReadied w {r} c h =
      elim (Result-cases (validate_commit_staged_upload_params env.uuid_text p)) [
        | inr (e, n) ↦ absurd (cc (rw (commit_staged_upload, n) at h))
        | inl (_, n) ↦
            let verified = verify_staged_upload env p w in
            let x = ensure_committed_cas_object env p verified in
            let (kept, _) =
              ensure_committed-Follows env w.db p verified
                (after_open-Follows env w.db p
                  (on_objects (env.objects.open_object p.staging_key) w) (equal-Leads refl))
                c in
            rw (commit_staged_upload, n)
              (record_commit-IsReadied x kept (rw (commit_staged_upload, n) at h))
      ]
