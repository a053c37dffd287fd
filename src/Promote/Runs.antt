-- ===== src/Promote/Runs.antt =====
-- The steps of RunOnce of internal/jobs/promote/job.go: what follows a claim, and the blobs at that point.
use imgsrv.Prelude.{String, Bool, false, some, ◌≡◌, refl, ap, Result, ok, err, sym, subst, All}
use imgsrv.Publish.Domain.{Uuid, Time}
use imgsrv.Uploads.Domain.{validate_required_text}
use imgsrv.Uploads.Ingest.{claim_ingest_job}
use imgsrv.Uploads.Blobs.{claim_ingest_job-blobs}
use imgsrv.Cas.Objects.{IsLawful}
use imgsrv.Cas.World.{Environment, World, CommitStagedUploadResult, on_db}
use imgsrv.Cas.Faithful.{IsKept, IsFaithful}
use imgsrv.Promote.Job.{after_commit, after_claim, promote_once}

module _ {O : Type 0} (env : Environment O) where
  pub after_commit-same :
      (r : Result CommitStagedUploadResult × World O) → (after_commit env r).1 ≡ r.1
  after_commit-same (ok _, w) = refl
  after_commit-same (err e, w) = refl

  module _ (locked : Uuid → Bool) (now : Time) (worker_id : String) (w : World O) where
    -- A worker with a name claims.
    pub runs :
        validate_required_text worker_id ≡ ok tt
        → promote_once env locked now worker_id w
          ≡ after_claim env (on_db (claim_ingest_job locked now worker_id) w)
    unfolding promote_once
    runs n =
        ap
          (λ (r : Result (Unit {0})). elim r [
            | err e ↦ (record { worked = false; failure = some e }, w)
            | ok _ ↦ after_claim env (on_db (claim_ingest_job locked now worker_id) w)
          ])
          n

    pub claimed-IsFaithful :
        (laws : IsLawful env.objects)
        → IsFaithful env laws w
        → IsFaithful env laws (on_db (claim_ingest_job locked now worker_id) w).1
    claimed-IsFaithful laws f =
        subst (All (IsKept env laws w.objects))
          (sym (claim_ingest_job-blobs locked now worker_id w.db)) f
