-- ===== src/Publish/EndOutcomes.antt =====
-- What FinalizePublishStep and FailStep of internal/store/postgres/publish/store.go have done, when their
-- transactions commit.
use imgsrv.Prelude.{true, false, ◌&&◌, count_where, some, ◌≡◌, ◌==◌, ok, trim_space}
use imgsrv.Publish.Domain.{
  Time, StepState, JobState, is_name, finalize_publish, publishing, is_job, Lease, FailStepParams,
}
use imgsrv.Publish.Tables.{Db, bind-at, bind-require, row-ok, pure-ok}
use imgsrv.Publish.Statements.{
  StepView, find_step, mark_step_succeeded, mark_step_failed, mark_job_succeeded, mark_job_failed,
  has_pending_before, require_previous_blocking_steps_succeeded,
}
use imgsrv.Publish.Versions.{mark_version_published}
use imgsrv.Publish.Enqueue.{JobView, job_view}
use imgsrv.Publish.Steps.{finalize_publish_tx, fail_tx}
use imgsrv.Publish.Effects.{mark_step_succeeded-ok, mark_step_failed-ok, with_steps, ended_steps}
use imgsrv.Publish.RowEffects.{
  with_jobs, with_versions, succeeded_jobs, failed_jobs, published_versions, mark_job_succeeded-ok,
  mark_job_failed-ok, mark_version_published-ok, require_previous-ok, is_at,
}
use imgsrv.Publish.Outcomes.{Held, with_lease}

pub record Finalized (now : Time) (l : Lease) (db db' : Db) : Type 0 where
  pub target : StepView
  pub lease : Held l db target
  pub named : is_name target.step.name finalize_publish ≡ true
  pub in_order : has_pending_before db.steps target.step.job_id target.step.sequence ≡ false
  pub was_publishing : count_where (is_at target.version_id publishing) db.versions ≡ 1
  pub was_running :
      count_where (λ j. j.id == target.step.job_id && is_job j.state JobState.running) db.jobs ≡ 1
  pub after : db' ≡ record db {
    versions = published_versions db now target.version_id;
    steps = ended_steps db target.step StepState.succeeded (λ o. o.failure_message) now;
    jobs = succeeded_jobs db now target.step.job_id;
  }

pub finalize_publish_tx-ok :
    (now : Time) (l : Lease) (db : Db) {v : JobView} {db' : Db}
    → finalize_publish_tx now l db ≡ ok (v, db')
    → Finalized now l db db'
unfolding finalize_publish_tx
finalize_publish_tx-ok now l db {v} {db'} h = with_lease l _ db h (λ w lease h1.
    bind-require _ _ _ db h1 (λ name h2.
      bind-at (require_previous_blocking_steps_succeeded w) _ db db
        (λ _ _ e. (require_previous-ok w db e).1) h2
        (λ _ order h3.
          let d1 = with_versions db (published_versions db now w.version_id) in
          let d2 =
            with_steps d1
              (ended_steps db w.step StepState.succeeded (λ o. o.failure_message) now) in
          let d3 = with_jobs d2 (succeeded_jobs db now w.step.job_id) in
          bind-at (mark_version_published now w.version_id) _ db d1
            (λ _ _ e. (mark_version_published-ok now w.version_id db e).1) h3
            (λ _ pub_ok h4.
              bind-at (mark_step_succeeded now w.step.id) _ d1 d2
                (λ _ _ e. mark_step_succeeded-ok now w.step.id d1 e) h4
                (λ _ _ h5.
                  bind-at (mark_job_succeeded now w.step.job_id) _ d2 d3
                    (λ _ _ e. (mark_job_succeeded-ok now w.step.job_id d2 e).1) h5
                    (λ _ job_ok h6. record {
                      target = w;
                      lease = lease;
                      named = name;
                      in_order = (require_previous-ok w db order).0;
                      was_publishing = (mark_version_published-ok now w.version_id db pub_ok).0;
                      was_running = (mark_job_succeeded-ok now w.step.job_id d2 job_ok).0;
                      after = (row-ok (λ d. job_view d w.step.job_id) d3 h6).1;
                    }))))))

pub record Failed (now : Time) (p : FailStepParams) (db db' : Db) : Type 0 where
  pub target : StepView
  pub lease : Held p.lease db target
  pub returned : StepView
  pub found :
      find_step
        (with_steps db (
          ended_steps db target.step StepState.failed
            (λ _. some (trim_space p.failure_message))
            now))
        target.step.id
      ≡ some returned.step
  pub after : db' ≡ record db {
    steps =
        ended_steps db target.step StepState.failed (λ _. some (trim_space p.failure_message)) now;
    jobs = failed_jobs db now returned.step.job_id p.failure_message;
  }

pub fail_tx-ok :
    (now : Time) (p : FailStepParams) (db : Db) {v : StepView} {db' : Db}
    → fail_tx now p db ≡ ok (v, db')
    → Failed now p db db'
unfolding fail_tx
fail_tx-ok now p db {v} {db'} h = with_lease p.lease _ db h (λ w lease h1.
    let d1 =
      with_steps db
        (ended_steps db w.step StepState.failed (λ _. some (trim_space p.failure_message)) now) in
    bind-at (mark_step_failed now w.step.id p.failure_message) _ db d1
      (λ _ _ e. (mark_step_failed-ok now w.step.id p.failure_message db e).1) h1
      (λ x marked h2.
        bind-at (mark_job_failed now x.step.job_id p.failure_message) _ d1
          (with_jobs d1 (failed_jobs db now x.step.job_id p.failure_message))
          (λ _ _ e. mark_job_failed-ok now x.step.job_id p.failure_message d1 e) h2
          (λ _ _ h3. record {
            target = w;
            lease = lease;
            returned = x;
            found = (mark_step_failed-ok now w.step.id p.failure_message db marked).0;
            after = (pure-ok x _ h3).1;
          })))
