-- ===== src/Publish/Agreement.antt =====
-- Jobs and versions of internal/store/postgres/publish/store.go after any sequence of calls.
use imgsrv.Prelude.{List, [], ◌∷◌, Bool, true, ◌&&◌, ◌≡◌, refl, sym, subst, ◌==◌, arith}
use imgsrv.Publish.Domain.{
  JobState, publishing, is_job, validate_claim_step_params, validate_step_lease,
  validate_fail_step_params, validate_succeed_incus_index_step_params, validate_job_id,
}
use imgsrv.Publish.Tables.{Db}
use imgsrv.Publish.Statements.{find_job, is_active}
use imgsrv.Publish.Versions.{has_ref}
use imgsrv.Publish.Enqueue.{enqueue_version, enqueue_tx, validate_enqueue_version_params}
use imgsrv.Publish.Retry.{retry_tx, retry_job}
use imgsrv.Publish.Steps.{
  claim_tx, claim, succeed_validate_catalog_tx, succeed_validate_catalog_step,
  succeed_incus_index_tx, succeed_incus_index_step, finalize_publish_tx, finalize_publish_step,
  fail_tx, fail_step,
}
use imgsrv.Publish.Outcomes.{claim_tx-ok, succeed_validate_catalog_tx-ok, succeed_incus_index_tx-ok}
use imgsrv.Publish.EndOutcomes.{finalize_publish_tx-ok, fail_tx-ok}
use imgsrv.Publish.JobOutcomes.{enqueue_tx-ok}
use imgsrv.Publish.RetryOutcome.{retry_tx-ok}
use imgsrv.Publish.Moves.{
  Op, enqueue, retry, claim_next, succeed_validate, succeed_index, finalize, fail, apply, run,
  committed,
}
use imgsrv.Publish.Coupling.{version_state, IsCoupled, update_jobs-IsCoupled}
use imgsrv.Publish.Coupled.{view-job, enqueue-IsCoupled, finalize-IsCoupled}

abbrev pub AreCoupled : Db → Type 0
AreCoupled db = IsCoupled db.versions db.jobs

active_unsettled :
    (b : Bool) (s : JobState) → (b && is_active s) ≡ true → publishing ≡ version_state s
active_unsettled b JobState.queued h = refl
active_unsettled b JobState.running h = refl
active_unsettled b JobState.failed h = refl
active_unsettled b JobState.succeeded h = absurd (ground (arith, h))

queued_unsettled :
    (b : Bool) (s : JobState)
    → (b && is_job s JobState.queued) ≡ true
    → publishing ≡ version_state s
queued_unsettled b JobState.queued h = refl
queued_unsettled b JobState.running h = refl
queued_unsettled b JobState.failed h = refl
queued_unsettled b JobState.succeeded h = absurd (ground (arith, h))

failed_unsettled :
    (b : Bool) (s : JobState)
    → (b && is_job s JobState.failed) ≡ true
    → publishing ≡ version_state s
failed_unsettled b JobState.queued h = refl
failed_unsettled b JobState.running h = refl
failed_unsettled b JobState.failed h = refl
failed_unsettled b JobState.succeeded h = absurd (ground (arith, h))

apply-AreCoupled : (op : Op) (db : Db) → AreCoupled db → AreCoupled (apply op db)
unfolding apply enqueue_version retry_job claim succeed_validate_catalog_step
    succeed_incus_index_step finalize_publish_step fail_step find_job
apply-AreCoupled (enqueue now ids name version) db h =
    committed (validate_enqueue_version_params name version) (enqueue_tx now ids name version) db
      {C = AreCoupled} h
      (λ _ _ e.
        let r = enqueue_tx-ok now ids name version db e in
        subst AreCoupled (sym r.after) (
          enqueue-IsCoupled db (has_ref db name version) r.target ids.job h r.found r.was_draft
            r.no_job))
apply-AreCoupled (retry now id) db h =
    committed (validate_job_id id) (retry_tx now id) db {C = AreCoupled} h (λ _ _ e.
      subst AreCoupled (sym (retry_tx-ok now id db e).after) (
        update_jobs-IsCoupled (λ j. j.id == id && is_job j.state JobState.failed) _ db.versions
          db.jobs (λ _. refl) (λ _. refl) (λ j. failed_unsettled (j.id == id) j.state) h))
apply-AreCoupled (claim_next locked now p) db h =
    committed (validate_claim_step_params p) (claim_tx locked now p) db {C = AreCoupled} h (λ v _ e.
      subst AreCoupled (sym (claim_tx-ok locked now p db e).after) (
        update_jobs-IsCoupled (λ j. j.id == v.step.job_id && is_job j.state JobState.queued) _
          db.versions db.jobs (λ _. refl) (λ _. refl)
          (λ j. queued_unsettled (j.id == v.step.job_id) j.state) h))
apply-AreCoupled (succeed_validate now l) db h =
    committed (validate_step_lease l) (succeed_validate_catalog_tx now l) db {C = AreCoupled} h
      (λ _ _ e. subst AreCoupled (sym (succeed_validate_catalog_tx-ok now l db e).after) h)
apply-AreCoupled (succeed_index now p) db h =
    committed (validate_succeed_incus_index_step_params p) (succeed_incus_index_tx now p) db
      {C = AreCoupled} h
      (λ _ _ e. subst AreCoupled (sym (succeed_incus_index_tx-ok now p db e).after) h)
apply-AreCoupled (finalize now l) db h =
    committed (validate_step_lease l) (finalize_publish_tx now l) db {C = AreCoupled} h (λ _ _ e.
      let r = finalize_publish_tx-ok now l db e in
      let (j, found, same) = view-job db r.target.step r.lease.joined in
      subst AreCoupled (sym r.after) (
        finalize-IsCoupled db now r.target.step.job_id r.target.version_id j h found same
          r.was_running))
apply-AreCoupled (fail now p) db h =
    committed (validate_fail_step_params p) (fail_tx now p) db {C = AreCoupled} h (λ _ _ e.
      let r = fail_tx-ok now p db e in
      subst AreCoupled (sym r.after) (
        update_jobs-IsCoupled (λ j. j.id == r.returned.step.job_id && is_active j.state) _
          db.versions db.jobs (λ _. refl) (λ _. refl)
          (λ j. active_unsettled (j.id == r.returned.step.job_id) j.state) h))

-- Any sequence of calls keeps the identities of versions and jobs unique, gives a version one job at
-- most, and keeps the states together: the version of a job is published when the job has succeeded,
-- and publishing as long as it has not.
pub run-AreCoupled : (ops : List Op) (db : Db) → AreCoupled db → AreCoupled (run ops db)
unfolding run
run-AreCoupled [] db h = h
run-AreCoupled (op ∷ ops) db h = run-AreCoupled ops (apply op db) (apply-AreCoupled op db h)
