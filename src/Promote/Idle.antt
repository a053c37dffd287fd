-- ===== src/Promote/Idle.antt =====
-- RunOnce of internal/jobs/promote/job.go when there is nothing to promote.
use imgsrv.Prelude.{String, Bool, false, none, ◌≡◌, ap, ◌∙◌, All, Result, ok}
use imgsrv.Publish.Domain.{Uuid, Time}
use imgsrv.Uploads.Domain.{validate_required_text}
use imgsrv.Uploads.Tables.{UploadDb}
use imgsrv.Uploads.Tables.{IngestJob}
use imgsrv.Uploads.Claiming.{IsDue, claim_ingest_job-none}
use imgsrv.Cas.World.{Environment, World}
use imgsrv.Promote.Job.{after_claim, promote_once}
use imgsrv.Promote.Runs.{runs}

-- When no ingest job is due, a run of the promotion job by a worker with a name does no work, reports no
-- error, and changes neither the tables nor the object store.
pub promote_once-idle :
    {O : Type 0} (env : Environment O) (locked : Uuid → Bool) (now : Time) (worker_id : String)
    (w : World O)
    → validate_required_text worker_id ≡ ok tt
    → All (λ j. IsDue locked now j → ⊥) w.db.jobs
    → promote_once env locked now worker_id w ≡ (record { worked = false; failure = none }, w)
unfolding promote_once after_claim
promote_once-idle {O} env locked now worker_id w fine idle =
    runs env locked now worker_id w fine
    ∙ ap (λ (r : Result IngestJob × UploadDb). after_claim env (r.0, record w { db = r.1 }))
        (claim_ingest_job-none locked now worker_id w.db fine idle)
