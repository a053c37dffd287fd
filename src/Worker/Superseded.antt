-- ===== src/Worker/Superseded.antt =====
-- A worker of internal/jobs/publishflow/job.go whose step another has claimed, or that finds none.
use imgsrv.Prelude.{String, true, false, none, List, ◌≡◌, ◌∙◌, ap, ◌==◌, ℤ, ok, All}
use imgsrv.Publish.Domain.{
  StepName, validate_catalog, incus_index, finalize_publish, ProjectionRow, validate_step_lease,
  validate_claim_step_params,
}
use imgsrv.Publish.Tables.{Db}
use imgsrv.Publish.Statements.{StepView, claimable}
use imgsrv.Publish.Steps.{claim}
use imgsrv.Publish.Moves.{run}
use imgsrv.Publish.Fencing.{IsOverdue}
use imgsrv.Publish.Leases.{lost, succeed_validate-lost, finalize-lost, succeed_index-lost}
use imgsrv.Publish.Claiming.{claim-not_found}
use imgsrv.Worker.Flow.{
  Surroundings, claim_params, lease_of, forget, index_step, run_named, run_step, record_failure,
  end_step, carry_out, run_once,
}

run_named-lost :
    (n : StepName) (e : Surroundings) (v : StepView) (w : String) (rows : List ProjectionRow)
    (db : Db)
    → IsOverdue (lease_of v w) db.steps
    → validate_step_lease (lease_of v w) ≡ ok tt
    → (v.version_id == 0) ≡ false
    → e.index_version v ≡ ok rows
    → run_named n e v w db ≡ lost db
unfolding run_named index_step
run_named-lost validate_catalog e v w rows db o fine known indexed =
    ap forget (succeed_validate-lost (lease_of v w) db o e.end_time fine)
run_named-lost finalize_publish e v w rows db o fine known indexed =
    ap forget (finalize-lost (lease_of v w) db o e.end_time fine)
run_named-lost incus_index e v w rows db o fine known indexed =
    ap (λ x. index_step e (lease_of v w) v.version_id x db) indexed
    ∙ ap forget (succeed_index-lost (lease_of v w) db o e.end_time v.version_id rows fine known)

-- When others have claimed the step of a worker again before it ends the step, whichever step it is,
-- the run counts as work without an error, and leaves the database as the others left it. The lease and
-- the version are valid parameters, and the indexer succeeds.
pub run_once-superseded :
    (e : Surroundings) (timeout : ℤ) (worker_id : String) (db : Db) (v : StepView)
    (rows : List ProjectionRow)
    → (claim e.locked e.claim_time (claim_params e timeout worker_id) db).0 ≡ ok v
    → validate_step_lease (lease_of v worker_id) ≡ ok tt
    → (v.version_id == 0) ≡ false
    → e.index_version v ≡ ok rows
    → IsOverdue
        (lease_of v worker_id)
        (run e.before_end
          (claim e.locked e.claim_time (claim_params e timeout worker_id) db).1).steps
    → run_once e timeout worker_id db ≡ (
      record { worked = true; failure = none },
      run e.before_end (claim e.locked e.claim_time (claim_params e timeout worker_id) db).1,
    )
unfolding run_once carry_out end_step record_failure run_step
run_once-superseded e timeout worker_id db v rows h fine known indexed o =
    let next = (claim e.locked e.claim_time (claim_params e timeout worker_id) db).1 in
    let mid = run e.before_end next in
    ap (λ r. carry_out e worker_id (r, next)) h
    ∙ ap (end_step e v worker_id)
        (run_named-lost v.step.name e v worker_id rows mid o fine known indexed)

-- When no step may be claimed, a run does no work, reports no error and writes nothing. The worker's
-- name and the time before which running steps are stale are valid parameters.
pub run_once-idle :
    (e : Surroundings) (timeout : ℤ) (worker_id : String) (db : Db)
    → validate_claim_step_params (claim_params e timeout worker_id) ≡ ok tt
    → All
        (λ s.
          claimable db e.claim_time
            (claim_params e timeout worker_id).stale_running_before
            e.locked
            s
          ≡ false)
        db.steps
    → run_once e timeout worker_id db ≡ (record { worked = false; failure = none }, db)
unfolding run_once carry_out
run_once-idle e timeout worker_id db fine h =
    ap (carry_out e worker_id)
      (claim-not_found e.locked e.claim_time (claim_params e timeout worker_id) db fine h)
