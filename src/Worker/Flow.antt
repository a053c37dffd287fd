-- ===== src/Worker/Flow.antt =====
-- RunOnce of internal/jobs/publishflow/job.go. The calls of the store that others make between those of
-- the worker are an argument, and so are the clocks and the indexer of Incus.
use imgsrv.Prelude.{
  ℕ, ◌-◌, String, Bool, true, false, Option, none, some, List, ◌++◌, if◌then◌else◌, ℤ, pos,
  pos_part, leb_ℤ, Result, Error, errors_is, ok, err, publish_not_found, publish_lease_lost,
}
use imgsrv.Publish.Domain.{
  Uuid, Time, StepName, validate_catalog, incus_index, finalize_publish, Lease, ClaimStepParams,
  ProjectionRow,
}
use imgsrv.Publish.Tables.{Db}
use imgsrv.Publish.Statements.{StepView}
use imgsrv.Publish.Steps.{
  claim, succeed_validate_catalog_step, succeed_incus_index_step, finalize_publish_step, fail_step,
}
use imgsrv.Publish.Moves.{Op, run}

-- Five minutes, in nanoseconds.
abbrev pub default_stale_step_timeout : ℕ
default_stale_step_timeout = 300000000000

-- The timeout that New chooses.
unfoldable pub stale_step_timeout : ℤ → ℕ
stale_step_timeout configured =
    if leb_ℤ configured (pos 0) then default_stale_step_timeout else pos_part configured

-- What surrounds one run: the worker's clock, the times of its transactions, the calls of others before
-- it ends the step and before it records a failure, the indexer, and the text of an error.
pub record Surroundings : Type 0 where
  pub clock : Time
  pub locked : Uuid → Bool
  pub claim_time : Time
  pub before_end : List Op
  pub end_time : Time
  pub before_fail : List Op
  pub fail_time : Time
  pub index_version : StepView → Result (List ProjectionRow)
  pub text : Error → String

-- `time.Now().Add(-staleStepTimeout)`; a time before the zero time is the zero time.
unfoldable pub claim_params : Surroundings → ℤ → String → ClaimStepParams
unfolding stale_step_timeout
claim_params e timeout worker_id = record {
  worker_id = worker_id;
  stale_running_before = e.clock - stale_step_timeout timeout;
}

abbrev pub lease_of : StepView → String → Lease
lease_of v worker_id = record {
  id = v.step.id;
  worker_id = worker_id;
  attempt_count = v.step.attempt_count;
}

abbrev pub forget : {A : Type 0} → Result A × Db → Result (Unit {0}) × Db
forget (ok _, db) = (ok tt, db)
forget (err e, db) = (err e, db)

unfoldable pub index_step :
    Surroundings → Lease → Uuid → Result (List ProjectionRow) → Db → Result (Unit {0}) × Db
unfolding succeed_incus_index_step
index_step e l version_id (err x) db = (err x, db)
index_step e l version_id (ok rows) db = forget (
    succeed_incus_index_step e.end_time (record { lease = l; version_id = version_id; rows = rows })
      db)

-- runStep; the table admits no name that the default of the switch would meet.
unfoldable pub run_named : StepName → Surroundings → StepView → String → Db → Result (Unit {0}) × Db
unfolding succeed_validate_catalog_step finalize_publish_step index_step
run_named validate_catalog e v worker_id db =
    forget (succeed_validate_catalog_step e.end_time (lease_of v worker_id) db)
run_named incus_index e v worker_id db =
    index_step e (lease_of v worker_id) v.version_id (e.index_version v) db
run_named finalize_publish e v worker_id db =
    forget (finalize_publish_step e.end_time (lease_of v worker_id) db)

unfoldable pub run_step : Surroundings → StepView → String → Db → Result (Unit {0}) × Db
unfolding run_named
run_step e v worker_id db = run_named v.step.name e v worker_id db

-- jobs.Result's Worked, and the error.
pub record Outcome : Type 0 where
  pub worked : Bool
  pub failure : Option Error

abbrev pub unless_lost : Error → Error → Outcome
unless_lost e report =
    if errors_is e publish_lease_lost
    then record { worked = true; failure = none }
    else record { worked = true; failure = some report }

-- What follows FailStep, after the error of runStep.
abbrev pub after_fail : Error → Result StepView × Db → Outcome × Db
after_fail x (ok _, db) = (record { worked = true; failure = none }, db)
after_fail x (err y, db) = (unless_lost y (x ++ y), db)

-- What follows an error of runStep.
unfoldable pub record_failure : Surroundings → StepView → String → Error → Db → Outcome × Db
unfolding fail_step run
record_failure e v worker_id x db =
    if errors_is x publish_lease_lost
    then (record { worked = true; failure = none }, db)
    else after_fail x (
        fail_step e.fail_time (record { lease = lease_of v worker_id; failure_message = e.text x })
          (run e.before_fail db))

unfoldable pub end_step : Surroundings → StepView → String → Result (Unit {0}) × Db → Outcome × Db
unfolding record_failure
end_step e v worker_id (ok _, db) = (record { worked = true; failure = none }, db)
end_step e v worker_id (err x, db) = record_failure e v worker_id x db

-- After the claim.
unfoldable pub carry_out : Surroundings → String → Result StepView × Db → Outcome × Db
unfolding run_step record_failure end_step run
carry_out e worker_id (ok v, db) =
    end_step e v worker_id (run_step e v worker_id (run e.before_end db))
carry_out e worker_id (err x, db) =
    if errors_is x publish_not_found
    then (record { worked = false; failure = none }, db)
    else (record { worked = false; failure = some x }, db)

unfoldable pub run_once : Surroundings → ℤ → String → Db → Outcome × Db
unfolding claim claim_params carry_out
run_once e timeout worker_id db =
    carry_out e worker_id (claim e.locked e.claim_time (claim_params e timeout worker_id) db)
