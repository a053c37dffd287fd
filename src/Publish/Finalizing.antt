-- ===== src/Publish/Finalizing.antt =====
-- FinalizePublishStep of internal/store/postgres/publish/store.go: what it needs and what it does.
use imgsrv.Prelude.{
  ℕ, true, false, ◌&&◌, some, ◌≡◌, refl, ◌∙◌, subst, ap, ◌==◌, ==_refl, ok, find, find-update_where,
  find-by_key, find-IsSole, count_where-find, All-find, everywhere, arith, if◌then◌else◌,
}
use imgsrv.Publish.Domain.{
  Time, JobState, StepState, published, publishing, is_job, is_name, finalize_publish, Lease,
  validate_step_lease,
}
use imgsrv.Publish.Tables.{Version, Job, Step, Db, validated-ok}
use imgsrv.Publish.Statements.{
  leased, has_pending_before, finished, find_step, find_job, find_version,
}
use imgsrv.Publish.Enqueue.{JobView}
use imgsrv.Publish.Steps.{finalize_publish_tx, finalize_publish_step}
use imgsrv.Publish.RowEffects.{is_at, succeeded_jobs, published_versions}
use imgsrv.Publish.Effects.{ended_steps}
use imgsrv.Publish.EndOutcomes.{finalize_publish_tx-ok}
use imgsrv.Publish.Moves.{IsOnly-found}
use imgsrv.Publish.Next.{IsSound}
use imgsrv.Publish.Coupling.{job_key, found_id, version_state}
use imgsrv.Publish.Coupled.{view-job, is_job-eq}
use imgsrv.Publish.Agreement.{AreCoupled}

-- The rows before and after.
pub record Publication (now : Time) (l : Lease) (db db' : Db) : Type 0 where
  pub step : Step
  pub job : Job
  pub version : Version
  pub held : find (leased l) db.steps ≡ some step
  pub last : is_name step.name finalize_publish ≡ true
  pub in_order : has_pending_before db.steps step.job_id step.sequence ≡ false
  pub of_step : find_job db step.job_id ≡ some job
  pub of_job : find_version db job.version_id ≡ some version
  pub was_running : job.state ≡ JobState.running
  pub was_publishing : version.state ≡ publishing
  pub step_after :
      find_step db' step.id ≡ some (finished StepState.succeeded step.failure_message now step)
  pub job_after :
      find_job db' step.job_id
      ≡ some (record job { state = JobState.succeeded; finished_at = some now })
  pub version_after :
      find_version db' job.version_id
      ≡ some (record version { state = published; published_at = some now })

ended-find :
    (db : Db) (now : Time) (l : Lease) (s : Step)
    → IsSound db
    → find (leased l) db.steps ≡ some s
    → find (λ o. o.id == s.id) (ended_steps db s StepState.succeeded (λ o. o.failure_message) now)
      ≡ some (finished StepState.succeeded s.failure_message now s)
ended-find db now l s sound held =
    let at_id =
      find-by_key (λ (o : Step). o.id) (leased l) db.steps
        (IsOnly-found (leased l) db.steps sound.0 held) held in
    let moved : find (λ o. o.id == s.id)
          (ended_steps db s StepState.succeeded (λ o. o.failure_message) now)
        ≡ some (if s.id == s.id then finished StepState.succeeded s.failure_message now s else s) =
      find-update_where (λ o. o.id == s.id) (λ o. o.id == s.id)
        (λ o. finished StepState.succeeded o.failure_message now o) db.steps (λ _. refl) at_id in
    rw (==_refl s.id) at moved

running-find :
    (db : Db) (now : Time) (id : ℕ) (j : Job)
    → (is_job j.state JobState.running ≡ true)
    → find (λ o. o.id == id) db.jobs ≡ some j
    → find (λ o. o.id == id) (succeeded_jobs db now id)
      ≡ some (record j { state = JobState.succeeded; finished_at = some now })
running-find db now id j running found =
    let at_id : (j.id == id) ≡ true =
      (All-find (λ _. Unit {0}) (λ o. o.id == id) db.jobs (everywhere _ (λ _. tt) db.jobs)
        found).1 in
    let moved : find (λ o. o.id == id) (succeeded_jobs db now id)
        ≡ some (
            if j.id == id && is_job j.state JobState.running
            then record j { state = JobState.succeeded; finished_at = some now }
            else j) =
      find-update_where (λ o. o.id == id) (λ o. o.id == id && is_job o.state JobState.running)
        (λ o. record o { state = JobState.succeeded; finished_at = some now }) db.jobs (λ _. refl)
        found in
    rw (at_id, running) at moved

publishing-find :
    (db : Db) (now : Time) (id : ℕ) (w : Version)
    → w.state ≡ publishing
    → find (λ o. o.id == id) db.versions ≡ some w
    → find (λ o. o.id == id) (published_versions db now id)
      ≡ some (record w { state = published; published_at = some now })
publishing-find db now id w st found =
    let yes : is_at id publishing w ≡ true =
      rw (found_id db.versions w id found, ==_refl id, st) refl in
    let moved : find (λ o. o.id == id) (published_versions db now id)
        ≡ some (
            if is_at id publishing w
            then record w { state = published; published_at = some now }
            else w) =
      find-update_where (λ o. o.id == id) (is_at id publishing)
        (λ o. record o { state = published; published_at = some now }) db.versions (λ _. refl)
        found in
    rw yes at moved

-- On a sound and coupled database, a call of FinalizePublishStep that succeeds had the lease of a
-- finalizing step whose earlier blocking steps have all succeeded, of a running job of a publishing
-- version; after it the step and the job have succeeded, and the version is published at that time.
pub finalize_publish_step-Publication :
    (now : Time) (l : Lease) (db : Db) (v : JobView)
    → IsSound db
    → AreCoupled db
    → (finalize_publish_step now l db).0 ≡ ok v
    → Publication now l db (finalize_publish_step now l db).1
unfolding finalize_publish_step find_job find_version find_step
finalize_publish_step-Publication now l db v sound (dv, dj, dn, c) h =
    let done = (validated-ok (validate_step_lease l) (finalize_publish_tx now l) db h).1 in
    let r = finalize_publish_tx-ok now l db done in
    let s = r.target.step in
    let (j, found, same) = view-job db s r.lease.joined in
    let sole = find-IsSole job_key (λ o. o.id == s.job_id) db.jobs dj found in
    let runs = λ (o : Job). o.id == s.job_id && is_job o.state JobState.running in
    let (k, found_k) = count_where-find runs db.jobs r.was_running in
    let (k_is, k_runs) = All-find (λ o. (o.id == j.id) ≡ true → o ≡ j) runs db.jobs sole found_k in
    let at_id =
      (All-find (λ _. Unit {0}) (λ o. o.id == s.job_id) db.jobs (everywhere _ (λ _. tt) db.jobs)
        found).1 in
    let running = ran j k s.job_id k_is k_runs at_id in
    let (w, of_job, st) = (All-find _ (λ o. o.id == s.job_id) db.jobs c found).0 in
    let w_publishing = st ∙ ap version_state (is_job-eq j.state running) in
    record {
      step = s;
      job = j;
      version = w;
      held = r.lease.held;
      last = r.named;
      in_order = r.in_order;
      of_step = found;
      of_job = of_job;
      was_running = is_job-eq j.state running;
      was_publishing = w_publishing;
      step_after =
          ap (λ (d : Db). find (λ o. o.id == s.id) d.steps) r.after
          ∙ ended-find db now l s sound r.lease.held;
      job_after =
          ap (λ (d : Db). find (λ o. o.id == s.job_id) d.jobs) r.after
          ∙ running-find db now s.job_id j running found;
      version_after =
          ap (λ (d : Db). find (λ o. o.id == j.version_id) d.versions) r.after
          ∙ subst
              (λ i.
                find (λ o. o.id == j.version_id) (published_versions db now i)
                ≡ some (record w { state = published; published_at = some now }))
              same (publishing-find db now j.version_id w w_publishing of_job);
    }
  where
    ran :
        (j k : Job) (id : ℕ)
        → ((k.id == j.id) ≡ true → k ≡ j)
        → (k.id == id && is_job k.state JobState.running) ≡ true
        → (j.id == id) ≡ true
        → is_job j.state JobState.running ≡ true
    ran j k id e t a =
        let same : (k.id == j.id) ≡ true = ground (arith, t, a) in
        let running : is_job k.state JobState.running ≡ true = ground (arith, t) in
        subst (λ (x : Job). is_job x.state JobState.running ≡ true) (e same) running
