-- ===== src/Publish/Next.antt =====
-- What one call of internal/store/postgres/publish/store.go does to the table of steps.
use imgsrv.Prelude.{
  String, List, ◌∷◌, Bool, true, false, Option, some, ◌≡◌, refl, sym, subst, ap, ◌==◌, any,
  any-false, any-false_of_All, find, All, All-map, All-update_where, update_where, ok, arith,
  trim_space,
}
use imgsrv.Publish.Domain.{
  Uuid, Time, StepState, is_step, Lease, ClaimStepParams, FailStepParams,
  SucceedIncusIndexStepParams, validate_claim_step_params, validate_step_lease,
  validate_fail_step_params, validate_succeed_incus_index_step_params, validate_job_id,
}
use imgsrv.Publish.Tables.{Job, Step, Db}
use imgsrv.Publish.Statements.{StepView, claimed, finished, leased}
use imgsrv.Publish.Enqueue.{
  FreshIds, JobView, new_job, enqueue_version, enqueue_tx, validate_enqueue_version_params,
}
use imgsrv.Publish.Retry.{retry_tx, retry_job, to_requeue, requeued}
use imgsrv.Publish.Steps.{
  claim_tx, claim, succeed_validate_catalog_tx, succeed_validate_catalog_step,
  succeed_incus_index_tx, succeed_incus_index_step, finalize_publish_tx, finalize_publish_step,
  fail_tx, fail_step,
}
use imgsrv.Publish.Change
use imgsrv.Publish.Change.{Change, Changes, done, ◌then◌, as_succeeded, as_failed}
use imgsrv.Publish.Attached.{IsAttachedTo, has_job, no_steps_of, has_job-update_where}
use imgsrv.Publish.Keys.{IsKeyed}
use imgsrv.Publish.Order.{IsOrdered}
use imgsrv.Publish.Effects.{claimed_steps, ended_steps}
use imgsrv.Publish.Outcomes.{claim_tx-ok, succeed_validate_catalog_tx-ok, succeed_incus_index_tx-ok}
use imgsrv.Publish.EndOutcomes.{finalize_publish_tx-ok, fail_tx-ok}
use imgsrv.Publish.RowEffects.{succeeded_jobs, failed_jobs}
use imgsrv.Publish.JobOutcomes.{
  Inserted, is_same_step, is_same_job, validate_row, index_row, finalize_row, enqueue_tx-ok,
}
use imgsrv.Publish.RetryOutcome.{retry_tx-ok}
use imgsrv.Publish.Moves.{
  Op, enqueue, retry, claim_next, succeed_validate, succeed_index, finalize, fail, apply, committed,
  end_Change, claim_Change,
}

-- Identities are unique, every step has its job, and the steps of a job are taken in order.
abbrev pub IsSound : Db → Type 0
IsSound db = IsKeyed db.steps × IsAttachedTo db.jobs db.steps × IsOrdered db.steps

-- What every change keeps, a sequence of changes keeps.
pub Changes-elim :
    (P : List Step → Type 0) {xs ys : List Step}
    → ((us vs : List Step) → Change us vs → P us → P vs)
    → Changes xs ys
    → P xs
    → P ys
Changes-elim P keep done h = h
Changes-elim P {xs} {ys} keep (◌then◌ {ys = mid} cs c) h = keep mid ys c (Changes-elim P keep cs h)

attached_jobs :
    (p : Job → Bool) (f : Job → Job) (js : List Job) (ss : List Step)
    → ((j : Job) → (f j).id ≡ j.id)
    → IsAttachedTo js ss
    → IsAttachedTo (update_where p f js) ss
attached_jobs p f js ss same =
    All-map _ _ ss (λ s h. rw (has_job-update_where p f js s.job_id same) h)

attached_steps :
    (p : Step → Bool) (f : Step → Step) (js : List Job) (ss : List Step)
    → ((s : Step) → (f s).job_id ≡ s.job_id)
    → IsAttachedTo js ss
    → IsAttachedTo js (update_where p f ss)
attached_steps p f js ss same =
    All-update_where (λ s. has_job js s.job_id ≡ true) (λ s. has_job js s.job_id ≡ true) p f ss
      (λ s h _. rw same h) (λ s h _. h)

-- The steps change by statements, and stay attached.
abbrev pub IsNext : Db → Db → Type 0
IsNext db db' = Changes db.steps db'.steps × IsAttachedTo db'.jobs db'.steps

not_same :
    (row : Step) (xs : List Step)
    → any (is_same_step row) xs ≡ false
    → All (λ o. (o.id == row.id) ≡ false) xs
not_same row xs h =
    All-map (λ o. is_same_step row o ≡ false) (λ o. (o.id == row.id) ≡ false) xs
      (λ o e. ground (arith, e)) (any-false (is_same_step row) xs h)

-- The rows that enqueueing inserts are new, and stand in the queue.
insert_Changes :
    (now : Time) (ids : FreshIds) (js : List Job) (xs ys : List Step)
    → has_job js ids.job ≡ false
    → IsAttachedTo js xs
    → Inserted now ids xs ys
    → Changes xs ys
insert_Changes now ids js xs ys none_has a i =
    let idle =
      All-map (λ s. (s.job_id == ids.job) ≡ false)
        (λ o. (o.job_id == ids.job) ≡ true → is_step o.state StepState.queued ≡ true) xs
        (λ o e t. absurd (cc (e, t))) (no_steps_of ids.job js xs none_has a) in
    let first : Change xs (validate_row now ids ∷ xs) =
      Change.insert (validate_row now ids) refl (not_same (validate_row now ids) xs i.first) idle
        refl in
    let second : Change (validate_row now ids ∷ xs)
        (index_row now ids ∷ validate_row now ids ∷ xs) =
      Change.insert (index_row now ids) refl (not_same (index_row now ids) _ i.second)
        ((λ _. refl), idle) refl in
    let third : Change (index_row now ids ∷ validate_row now ids ∷ xs) ys =
      Change.insert (finalize_row now ids) refl (not_same (finalize_row now ids) _ i.third)
        ((λ _. refl), ((λ _. refl), idle)) i.after in
    ◌then◌ (◌then◌ (◌then◌ done first) second) third

attached_new :
    (j : Job) (js : List Job) (ss : List Step) → IsAttachedTo js ss → IsAttachedTo (j ∷ js) ss
unfolding any
attached_new j js ss = All-map _ _ ss (λ s h. ground (arith, h))

has_job-head : (j : Job) (js : List Job) (id : Uuid) → j.id ≡ id → has_job (j ∷ js) id ≡ true
unfolding any
has_job-head j js id same = rw same (ground arith)

no_job-has_job :
    (j : Job) (js : List Job) → any (is_same_job j) js ≡ false → has_job js j.id ≡ false
no_job-has_job j js h =
    any-false_of_All (λ o. o.id == j.id) js
      (All-map (λ o. is_same_job j o ≡ false) (λ o. (o.id == j.id) ≡ false) js
        (λ o e. ground (arith, e)) (any-false (is_same_job j) js h))

module _ (db : Db) (sound : IsSound db) where
  enqueue_Next :
      (now : Time) (ids : FreshIds) (image_name version : String) (v : JobView) (db' : Db)
      → enqueue_tx now ids image_name version db ≡ ok (v, db')
      → IsNext db db'
  enqueue_Next now ids image_name version v db' h =
      let r = enqueue_tx-ok now ids image_name version db h in
      let none_has = no_job-has_job (new_job ids.job r.target.id) db.jobs r.no_job in
      let changes = insert_Changes now ids db.jobs db.steps r.steps none_has sound.1 r.inserted in
      subst (IsNext db) (sym r.after)
        (changes, attached_rows (new_job ids.job r.target.id) r.steps refl r.inserted)
    where
      attached_rows :
          (j : Job) (ys : List Step)
          → j.id ≡ ids.job
          → Inserted now ids db.steps ys
          → IsAttachedTo (j ∷ db.jobs) ys
      attached_rows j ys same i =
          let mine : has_job (j ∷ db.jobs) ids.job ≡ true = has_job-head j db.jobs ids.job same in
          subst (IsAttachedTo (j ∷ db.jobs)) (sym i.after)
            (mine, (mine, (mine, attached_new j db.jobs db.steps sound.1)))

  -- The jobs keep their identities and the steps their jobs.
  ended_Next :
      (l : Lease) (s : Step) (st : StepState) (message : Step → Option String) (now : Time)
      (js : List Job) (db' : Db)
      → Change.IsEnd st
      → find (leased l) db.steps ≡ some s
      → IsAttachedTo js db.steps
      → db'.steps ≡ ended_steps db s st message now
      → db'.jobs ≡ js
      → IsNext db db'
  ended_Next l s st message now js db' ended held a es ej =
      let next = ended_steps db s st message now in
      subst (λ ss. Changes db.steps ss × IsAttachedTo db'.jobs ss) (sym es)
        (
          ◌then◌ done (end_Change l db s st message now ended sound.0 held),
          (subst (λ x. IsAttachedTo x next) (sym ej)
              (attached_steps _ (λ o. finished st (message o) now o) js db.steps (λ _. refl) a)),
        )

  retry_Next :
      (now : Time) (id : Uuid) (v : JobView) (db' : Db)
      → retry_tx now id db ≡ ok (v, db')
      → IsNext db db'
  retry_Next now id v db' h =
      let r = retry_tx-ok now id db h in
      let next = update_where (to_requeue id r.sequence) (requeued now) db.steps in
      subst (IsNext db) (sym r.after) (
        (◌then◌ done (Change.requeue id r.sequence now refl)),
        (attached_steps _ (requeued now) _ db.steps (λ _. refl)
            (attached_jobs _ _ db.jobs db.steps (λ _. refl) sound.1)),
      )

  claim_Next :
      (locked : Uuid → Bool) (now : Time) (p : ClaimStepParams) (v : StepView) (db' : Db)
      → claim_tx locked now p db ≡ ok (v, db')
      → IsNext db db'
  claim_Next locked now p v db' h =
      let r = claim_tx-ok locked now p db h in
      let next = claimed_steps db r.chosen p.worker_id now in
      subst (IsNext db) (sym r.after) (
        (◌then◌ done (claim_Change locked now p db r.chosen sound.0 r.is_first)),
        (attached_steps _ (claimed p.worker_id now) _ db.steps (λ _. refl)
            (attached_jobs _ _ db.jobs db.steps (λ _. refl) sound.1)),
      )

  succeed_validate_Next :
      (now : Time) (l : Lease) (v : StepView) (db' : Db)
      → succeed_validate_catalog_tx now l db ≡ ok (v, db')
      → IsNext db db'
  succeed_validate_Next now l v db' h =
      let r = succeed_validate_catalog_tx-ok now l db h in
      ended_Next l r.target.step StepState.succeeded (λ o. o.failure_message) now db.jobs db'
        as_succeeded r.lease.held sound.1 (ap (λ (x : Db). x.steps) r.after)
        (ap (λ (x : Db). x.jobs) r.after)

  succeed_index_Next :
      (now : Time) (p : SucceedIncusIndexStepParams) (v : StepView) (db' : Db)
      → succeed_incus_index_tx now p db ≡ ok (v, db')
      → IsNext db db'
  succeed_index_Next now p v db' h =
      let r = succeed_incus_index_tx-ok now p db h in
      ended_Next p.lease r.target.step StepState.succeeded (λ o. o.failure_message) now db.jobs db'
        as_succeeded r.lease.held sound.1 (ap (λ (x : Db). x.steps) r.after)
        (ap (λ (x : Db). x.jobs) r.after)

  finalize_Next :
      (now : Time) (l : Lease) (v : JobView) (db' : Db)
      → finalize_publish_tx now l db ≡ ok (v, db')
      → IsNext db db'
  finalize_Next now l v db' h =
      let r = finalize_publish_tx-ok now l db h in
      ended_Next l r.target.step StepState.succeeded (λ o. o.failure_message) now
        (succeeded_jobs db now r.target.step.job_id) db' as_succeeded r.lease.held
        (attached_jobs _ _ db.jobs db.steps (λ _. refl) sound.1) (ap (λ (x : Db). x.steps) r.after)
        (ap (λ (x : Db). x.jobs) r.after)

  fail_Next :
      (now : Time) (p : FailStepParams) (v : StepView) (db' : Db)
      → fail_tx now p db ≡ ok (v, db')
      → IsNext db db'
  fail_Next now p v db' h =
      let r = fail_tx-ok now p db h in
      ended_Next p.lease r.target.step StepState.failed (λ _. some (trim_space p.failure_message))
        now (failed_jobs db now r.returned.step.job_id p.failure_message) db' as_failed r.lease.held
        (attached_jobs _ _ db.jobs db.steps (λ _. refl) sound.1) (ap (λ (x : Db). x.steps) r.after)
        (ap (λ (x : Db). x.jobs) r.after)

pub apply_Next : (op : Op) (db : Db) → IsSound db → IsNext db (apply op db)
unfolding apply enqueue_version retry_job claim succeed_validate_catalog_step
    succeed_incus_index_step finalize_publish_step fail_step
apply_Next (enqueue now ids image_name version) db s =
    committed (validate_enqueue_version_params image_name version)
      (enqueue_tx now ids image_name version) db {C = IsNext db} (done, s.1)
      (enqueue_Next db s now ids image_name version)
apply_Next (retry now id) db s =
    committed (validate_job_id id) (retry_tx now id) db {C = IsNext db} (done, s.1)
      (retry_Next db s now id)
apply_Next (claim_next locked now p) db s =
    committed (validate_claim_step_params p) (claim_tx locked now p) db {C = IsNext db} (done, s.1)
      (claim_Next db s locked now p)
apply_Next (succeed_validate now l) db s =
    committed (validate_step_lease l) (succeed_validate_catalog_tx now l) db {C = IsNext db}
      (done, s.1) (succeed_validate_Next db s now l)
apply_Next (succeed_index now p) db s =
    committed (validate_succeed_incus_index_step_params p) (succeed_incus_index_tx now p) db
      {C = IsNext db} (done, s.1) (succeed_index_Next db s now p)
apply_Next (finalize now l) db s =
    committed (validate_step_lease l) (finalize_publish_tx now l) db {C = IsNext db} (done, s.1)
      (finalize_Next db s now l)
apply_Next (fail now p) db s =
    committed (validate_fail_step_params p) (fail_tx now p) db {C = IsNext db} (done, s.1)
      (fail_Next db s now p)
