-- ===== src/Publish/RetryOutcome.antt =====
-- What RetryJob of internal/store/postgres/publish/store.go has done, when its transaction commits.
use imgsrv.Prelude.{
  ℕ, List, [], ◌∷◌, true, ◌&&◌, none, some, ◌≡◌, ◌==◌, update_where, ok,
  publish_failed_precondition, arith, Option-cases, inl, inr,
}
use imgsrv.Publish.Domain.{Uuid, Time, JobState, publishing, is_job, is_version}
use imgsrv.Publish.Tables.{Job, Version, Db, row, bind-at, bind-require, row-ok, require-ok}
use imgsrv.Publish.Statements.{find_job, find_version, update_jobs}
use imgsrv.Publish.Enqueue.{JobView, job_view, get_job_by_id}
use imgsrv.Publish.Retry.{
  lock_job_for_retry, first_failed, first_failed_blocking_step_sequence, mark_job_queued_for_retry,
  requeue_steps_for_retry, to_requeue, requeued, retry_tx,
}
use imgsrv.Publish.Effects.{with_steps}
use imgsrv.Publish.RowEffects.{with_jobs, one_row-ok, update_jobs-ok}

abbrev pub requeued_jobs : Db → Uuid → List Job
requeued_jobs db id =
    update_where (λ j. j.id == id && is_job j.state JobState.failed)
      (λ j. record j { state = JobState.queued; finished_at = none; failure_message = none })
      db.jobs

pub record Retried (now : Time) (id : Uuid) (db db' : Db) : Type 0 where
  pub job : Job
  pub version : Version
  pub found : find_job db id ≡ some job
  pub joined : find_version db job.version_id ≡ some version
  pub has_failed : is_job job.state JobState.failed ≡ true
  pub is_publishing : is_version version.state publishing ≡ true
  pub sequence : ℕ
  pub is_first : first_failed id db.steps ≡ some sequence
  pub after : db' ≡ record db {
    jobs = requeued_jobs db id;
    steps = update_where (to_requeue id sequence) (requeued now) db.steps;
  }

mark_job_queued_for_retry-ok :
    (id : Uuid) (db : Db) {u : Unit {0}} {db' : Db}
    → mark_job_queued_for_retry id db ≡ ok (u, db')
    → db' ≡ with_jobs db (requeued_jobs db id)
unfolding mark_job_queued_for_retry
mark_job_queued_for_retry-ok id db h =
    let (n, done, one) = one_row-ok (update_jobs _ _) db h in (update_jobs-ok _ _ db done).1

first_failed-ok :
    (id : Uuid) (db : Db) {n : ℕ} {db' : Db}
    → first_failed_blocking_step_sequence id db ≡ ok (n, db')
    → (first_failed id db.steps ≡ some n) × (db' ≡ db)
unfolding first_failed_blocking_step_sequence
first_failed-ok id db h = elim (Option-cases (first_failed id db.steps)) [
  | inl e ↦ absurd (ground (arith, e, h))
  | inr (n, e) ↦ (ground (arith, e, h), ground (arith, e, h))
]

pub record Locked (id : Uuid) (db : Db) : Type 0 where
  pub job : Job
  pub version : Version
  pub found : find_job db id ≡ some job
  pub joined : find_version db job.version_id ≡ some version
  pub has_failed : is_job job.state JobState.failed ≡ true
  pub is_publishing : is_version version.state publishing ≡ true

lock_job_for_retry-ok :
    (id : Uuid) (db : Db) {u : Unit {0}} {db' : Db}
    → lock_job_for_retry id db ≡ ok (u, db')
    → Locked id db × (db' ≡ db)
unfolding lock_job_for_retry
lock_job_for_retry-ok id db h =
    bind-at (row (λ d. find_job d id)) _ db db (λ j d e. (row-ok (λ x. find_job x id) db e).1) h
      (λ j got h1.
        bind-at (row (λ d. find_version d j.version_id)) _ db db
          (λ _ d e. (row-ok (λ x. find_version x j.version_id) db e).1) h1
          (λ v seen h2. bind-require _ _ _ db h2 (λ failed h3.
            let last =
              require-ok (is_version v.state publishing) (publish_failed_precondition ∷ []) db h3 in
            (
              record {
                job = j;
                version = v;
                found = (row-ok (λ x. find_job x id) db got).0;
                joined = (row-ok (λ x. find_version x j.version_id) db seen).0;
                has_failed = failed;
                is_publishing = last.0;
              },
              last.1,
            ))))

requeue_steps-ok :
    (now : Time) (id : Uuid) (n : ℕ) (db : Db) {u : Unit {0}} {db' : Db}
    → requeue_steps_for_retry now id n db ≡ ok (u, db')
    → db' ≡ with_steps db (update_where (to_requeue id n) (requeued now) db.steps)
unfolding requeue_steps_for_retry
requeue_steps-ok now id n db h = ground (arith, h)

pub retry_tx-ok :
    (now : Time) (id : Uuid) (db : Db) {v : JobView} {db' : Db}
    → retry_tx now id db ≡ ok (v, db')
    → Retried now id db db'
unfolding retry_tx
retry_tx-ok now id db {v} {db'} h =
    bind-at (lock_job_for_retry id) _ db db (λ _ _ e. (lock_job_for_retry-ok id db e).1) h
      (λ _ got h1.
        let l = (lock_job_for_retry-ok id db got).0 in
        bind-at (first_failed_blocking_step_sequence id) _ db db
          (λ _ _ e. (first_failed-ok id db e).1) h1
          (λ n first h2.
            let d1 = with_jobs db (requeued_jobs db id) in
            bind-at (mark_job_queued_for_retry id) _ db d1
              (λ _ _ e. mark_job_queued_for_retry-ok id db e) h2
              (λ _ _ h3.
                bind-at (requeue_steps_for_retry now id n) (λ _. get_job_by_id id) d1
                  (with_steps d1 (update_where (to_requeue id n) (requeued now) db.steps))
                  (λ _ _ e. requeue_steps-ok now id n d1 e) h3
                  (λ _ _ h4. record {
                    job = l.job;
                    version = l.version;
                    found = l.found;
                    joined = l.joined;
                    has_failed = l.has_failed;
                    is_publishing = l.is_publishing;
                    sequence = n;
                    is_first = (first_failed-ok id db first).0;
                    after = (row-ok (λ x. job_view x id) _ h4).1;
                  }))))
