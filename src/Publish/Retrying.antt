-- ===== src/Publish/Retrying.antt =====
-- RetryJob of internal/store/postgres/publish/store.go: what it leaves of a failure.
use imgsrv.Prelude.{
  ℕ, ◌≤◌, List, [], ◌∷◌, Bool, true, false, ◌&&◌, Option, some, none, ◌≡◌, refl, ◌∙◌, subst, ap,
  ◌==◌, inl, inr, ok, find, find-update_where, Bool-cases, Option-cases, All, All-map, All-find,
  everywhere, All-update_where, update_where, arith, if◌then◌else◌,
}
use imgsrv.Publish.Domain.{Uuid, Time, JobState, StepState, is_job, is_step, validate_job_id}
use imgsrv.Publish.Tables.{Job, Step, Db, validated-ok}
use imgsrv.Publish.Statements.{find_job}
use imgsrv.Publish.Enqueue.{JobView}
use imgsrv.Publish.Retry.{first_failed, lesser, to_requeue, requeued, retry_tx, retry_job}
use imgsrv.Publish.RetryOutcome.{retry_tx-ok, requeued_jobs}

-- A blocking step of the job that has failed.
abbrev pub has_failed : Uuid → Step → Bool
has_failed id s = s.job_id == id && s.blocking && is_step s.state StepState.failed

lesser-le : (n : ℕ) (o : Option ℕ) → lesser n o ≤ n
lesser-le n none = omega arith
lesser-le n (some m) = ground arith

lesser-best : (n m : ℕ) → lesser n (some m) ≤ m
lesser-best n m = ground arith

-- The sequence that is found is the least of the failed steps.
first_failed-least :
    (id : Uuid) (ss : List Step) {n : ℕ}
    → first_failed id ss ≡ some n
    → All (λ s. has_failed id s ≡ true → n ≤ s.sequence) ss
unfolding first_failed
first_failed-least id [] h = tt
first_failed-least id (x ∷ xs) {n} h = elim (Bool-cases (has_failed id x)) [
  | inr e ↦ ((λ t. absurd (cc (e, t))), first_failed-least id xs (rw e at h))
  | inl e ↦ elim (Option-cases (first_failed id xs)) [
    | inl f ↦
        let same = least (rw (e, f) at h) in
        ((λ _. subst (λ m. m ≤ x.sequence) same (lesser-le x.sequence none)), none_below xs f)
    | inr (m, f) ↦
        let same = least (rw (e, f) at h) in
        (
          (λ _. subst (λ k. k ≤ x.sequence) same (lesser-le x.sequence (some m))),
          All-map (λ s. has_failed id s ≡ true → m ≤ s.sequence) _ xs
              (λ s k t.
                below s.sequence m (subst (λ j. j ≤ m) same (lesser-best x.sequence m)) (k t))
              (first_failed-least id xs f),
        )
  ]
]
  where
    least : {a b : ℕ} → some a ≡ some b → a ≡ b
    least {a} {b} e = ground (arith, e)

    below : (k m : ℕ) → n ≤ m → m ≤ k → n ≤ k
    below k m h l = omega arith

    none_below :
        (ys : List Step)
        → first_failed id ys ≡ none
        → All (λ s. has_failed id s ≡ true → n ≤ s.sequence) ys
    none_below [] f = tt
    none_below (y ∷ ys) f = elim (Bool-cases (has_failed id y)) [
      | inl t ↦ absurd (cc (rw t at f))
      | inr u ↦ ((λ t. absurd (cc (u, t))), none_below ys (rw u at f))
    ]

first_failed-none_of_All :
    (id : Uuid) (ss : List Step) → All (λ s. has_failed id s ≡ false) ss → first_failed id ss ≡ none
unfolding first_failed
first_failed-none_of_All id [] h = refl
first_failed-none_of_All id (x ∷ xs) h = rw h.0 (first_failed-none_of_All id xs h.1)

-- A requeued step is queued, and a step that is not requeued has not failed from the sequence on.
requeue-first_failed :
    (id : Uuid) (now : Time) (ss : List Step) {n : ℕ}
    → first_failed id ss ≡ some n
    → first_failed id (update_where (to_requeue id n) (requeued now) ss) ≡ none
requeue-first_failed id now ss {n} h =
    first_failed-none_of_All id (update_where (to_requeue id n) (requeued now) ss) (
      All-update_where (λ s. has_failed id s ≡ true → n ≤ s.sequence) (λ s. has_failed id s ≡ false)
        (to_requeue id n) (requeued now) ss (λ s k t. ground arith) (λ s k t. stays s k t)
        (first_failed-least id ss h))
  where
    stays :
        (s : Step)
        → (has_failed id s ≡ true → n ≤ s.sequence)
        → to_requeue id n s ≡ false
        → has_failed id s ≡ false
    stays s k t = elim (Bool-cases (has_failed id s)) [
      | inr e ↦ e
      | inl e ↦ let after = k e in absurd (ground (arith, e, t, after))
    ]

failed-find :
    (db : Db) (id : Uuid) (j : Job)
    → is_job j.state JobState.failed ≡ true
    → find (λ o. o.id == id) db.jobs ≡ some j
    → find (λ o. o.id == id) (requeued_jobs db id)
      ≡ some (record j { state = JobState.queued; finished_at = none; failure_message = none })
failed-find db id j failed found =
    let at_id : (j.id == id) ≡ true =
      (All-find (λ _. Unit {0}) (λ o. o.id == id) db.jobs (everywhere _ (λ _. tt) db.jobs)
        found).1 in
    let moved : find (λ o. o.id == id) (requeued_jobs db id)
        ≡ some (
            if j.id == id && is_job j.state JobState.failed
            then record j { state = JobState.queued; finished_at = none; failure_message = none }
            else j) =
      find-update_where (λ o. o.id == id) (λ o. o.id == id && is_job o.state JobState.failed)
        (λ o. record o { state = JobState.queued; finished_at = none; failure_message = none })
        db.jobs (λ _. refl) found in
    rw (at_id, failed) at moved

-- A retry that succeeds was of a failed job with a failed blocking step; after it the job is queued
-- without a failure, and no blocking step of it has failed.
pub retry_job-restarts :
    (now : Time) (id : Uuid) (db : Db) (v : JobView)
    → (retry_job now id db).0 ≡ ok v
    → (j : Job) × (n : ℕ) × (find_job db id ≡ some j)
      × (is_job j.state JobState.failed ≡ true)
      × (first_failed id db.steps ≡ some n)
      × (find_job (retry_job now id db).1 id
          ≡ some (record j { state = JobState.queued; finished_at = none; failure_message = none }))
      × (first_failed id (retry_job now id db).1.steps ≡ none)
unfolding retry_job find_job
retry_job-restarts now id db v h =
    let done = (validated-ok (validate_job_id id) (retry_tx now id) db h).1 in
    let r = retry_tx-ok now id db done in
    (
      r.job,
      r.sequence,
      r.found,
      r.has_failed,
      r.is_first,
      ap (λ (d : Db). find (λ o. o.id == id) d.jobs) r.after
          ∙ failed-find db id r.job r.has_failed r.found,
      ap (λ (d : Db). first_failed id d.steps) r.after
          ∙ requeue-first_failed id now db.steps r.is_first,
    )
