-- ===== src/Promote/Worked.antt =====
-- What RunOnce of internal/jobs/promote/job.go has done when it reports work.
use imgsrv.Prelude.{
  String, Bool, true, some, ◌≡◌, refl, ap, ◌∙◌, inl, inr, Result, errors_is, ok, err, Bool-cases,
  Result-cases, upload_not_found, sym, subst,
}
use imgsrv.Publish.Domain.{Uuid, Time}
use imgsrv.Uploads.Domain.{validate_required_text}
use imgsrv.Uploads.Tables.{Session, IngestJob}
use imgsrv.Uploads.Statements.{find_session}
use imgsrv.Uploads.Sessions.{get_session}
use imgsrv.Uploads.Ingest.{claim_ingest_job}
use imgsrv.Cas.Objects.{IsLawful}
use imgsrv.Cas.World.{Environment, World, CommitStagedUploadResult, on_db}
use imgsrv.Cas.Commit.{commit_staged_upload}
use imgsrv.Cas.Faithful.{Holds, IsFaithful}
use imgsrv.Cas.Trust.{commit_staged_upload-Holds}
use imgsrv.Worker.Flow.{Outcome}
use imgsrv.Staging.Evidence.{get_session-ok}
use imgsrv.Staging.Once.{get_session-keeps}
use imgsrv.Promote.Job.{commit_params, after_commit, after_session, after_claim, promote_once}
use imgsrv.Promote.Runs.{runs, after_commit-same, claimed-IsFaithful}

module _ {O : Type 0} (env : Environment O) (laws : IsLawful env.objects) where
  -- A job, its session, and an object of the session's digest and size.
  abbrev pub IsPromoted : Result IngestJob × World O → World O → Type 0
  IsPromoted claimed after =
      (j : IngestJob) × (claimed.0 ≡ ok j)
      × (s : Session) × (find_session claimed.1.db j.upload_id ≡ some s)
      × (key : String) × Holds env laws after.objects key s.expected_digest s.expected_size_bytes

  after_commit-worked :
      (r : Result CommitStagedUploadResult × World O)
      → (after_commit env r).0.worked ≡ true
      → (c : CommitStagedUploadResult) × (r.0 ≡ ok c)
  after_commit-worked (ok c, v) h = (c, refl)
  after_commit-worked (err e, v) h = absurd (cc)

  after_session-worked :
      (j : IngestJob) (r : Result Session × World O)
      → IsFaithful env laws r.1
      → (after_session env j r).0.worked ≡ true
      → (s : Session) × (r.0 ≡ ok s)
        × (key : String) × Holds env laws
            (after_session env j r).1.objects
            key
            s.expected_digest
            s.expected_size_bytes
  unfolding after_session
  after_session-worked j (err e, v) g h = absurd (cc)
  after_session-worked j (ok s, v) g h =
      let done = commit_staged_upload env (commit_params j s) v in
      let (c, good) = after_commit-worked done h in
      let (_, _, held) = commit_staged_upload-Holds env laws (commit_params j s) v g c good in
      (
        s,
        refl,
        c.storage_key,
        subst
            (λ (u : World O).
              Holds env laws u.objects c.storage_key s.expected_digest s.expected_size_bytes)
            (sym (after_commit-same env done)) held,
      )

  after_claim-IsPromoted :
      (r : Result IngestJob × World O)
      → IsFaithful env laws r.1
      → (after_claim env r).0.worked ≡ true
      → IsPromoted r (after_claim env r).1
  unfolding after_claim
  after_claim-IsPromoted (err e, v) g h = elim (Bool-cases (errors_is e upload_not_found)) [
    | inl t ↦ absurd (cc (rw (after_claim, t) at h))
    | inr n ↦ absurd (cc (rw (after_claim, n) at h))
  ]
  after_claim-IsPromoted (ok j, v) g h =
      let read = on_db (get_session j.upload_id) v in
      let kept =
        subst (λ d. IsFaithful env laws (record v { db = d }))
          (sym (get_session-keeps j.upload_id v.db)) g in
      let (s, at_s, key, held) = after_session-worked j read kept h in
      (j, refl, s, (get_session-ok j.upload_id v.db at_s).0, key, held)

  module _ (locked : Uuid → Bool) (now : Time) (worker_id : String) (w : World O)
      (f : IsFaithful env laws w) where
    -- A run of the promotion job that reports work has claimed a job, and the object store then has an object of
    -- the digest and the size that its session declares; every trusted blob is there before, the object store
    -- is lawful, and no other call comes between those of the run.
    pub promote_once-IsPromoted :
        (promote_once env locked now worker_id w).0.worked ≡ true
        → IsPromoted
            (on_db (claim_ingest_job locked now worker_id) w)
            (promote_once env locked now worker_id w).1
    unfolding promote_once
    promote_once-IsPromoted h = elim (Result-cases (validate_required_text worker_id)) [
      | inr (e, n) ↦ absurd (cc (rw (promote_once, n) at h))
      | inl (tt, n) ↦
          subst (λ r. IsPromoted (on_db (claim_ingest_job locked now worker_id) w) r.1)
            (sym (runs env locked now worker_id w n))
            (after_claim-IsPromoted (on_db (claim_ingest_job locked now worker_id) w)
              (claimed-IsFaithful env locked now worker_id w laws f)
              (sym (ap (λ (r : Outcome × World O). r.0.worked) (runs env locked now worker_id w n))
                ∙ h))
    ]
