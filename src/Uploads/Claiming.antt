-- ===== src/Uploads/Claiming.antt =====
-- ClaimIngestJob of internal/store/postgres/uploads/ingest.go takes a job when there is one.
use imgsrv.Prelude.{
  ◌+◌, ==_refl, List, ltb, leb, false, ◌||◌, ◌&&◌, least_where-first, least_where-none_of_All, err,
  upload_not_found, no_rows, String, Bool, true, some, ◌≡◌, refl, ap, ◌∙◌, ◌==◌, any, All, All-map,
  All-least_where, All-zip, All-swap, any-All, any-map, any-find, All-find, [], ◌∷◌,
  find-update_where, update_where, inl, inr, Bool-cases, find, least_where, least_where-some,
  count_where, count_where-one, IsDistinct-find, ok, ◌>>=◌, row, transact, validated, arith,
}
use imgsrv.Publish.Domain.{Uuid, Time}
use imgsrv.Uploads.Domain.{completed, ingesting, queued, running, validate_required_text}
use imgsrv.Uploads.Tables.{Session, IngestJob, UploadDb, map_upload_error}
use imgsrv.Uploads.Statements.{
  claimable_job, job_before, claimed_job, claim_job, mark_session_ingesting, in_state,
  now_ingesting, find_ingest_job, find_session,
}
use imgsrv.Uploads.Ingest.{claim_ingest_tx, claim_ingest_job}
use imgsrv.Uploads.Consistent.{IsConsistent, Agrees, has_session, state_of}
use imgsrv.Uploads.JobsCommitted.{queued_of}

-- The session of a job in the queue waits for it.
waiting :
    (db : UploadDb) (j : IngestJob)
    → IsConsistent db
    → All (λ s. Agrees s j) db.sessions
    → has_session db.sessions j.upload_id ≡ true
    → j.state ≡ queued
    → count_where (in_state j.upload_id completed) db.sessions ≡ 1
waiting db j w agrees attached q =
    count_where-one (λ (s : Session). s.id) (in_state j.upload_id completed) j.upload_id db.sessions
      w.sessions (λ s h. ground (arith, h))
      (any-All (λ s. s.id == j.upload_id) (in_state j.upload_id completed) db.sessions
        (All-map (λ s. Agrees s j) _ db.sessions
          (λ s a t.
            let at : (j.upload_id == s.id) ≡ true = ground (arith, t) in
            let e : s.state ≡ completed = a at ∙ ap state_of q in rw (t, e) refl)
          agrees)
        attached)

-- A job in the queue whose time has come, and whose row no other transaction locks.
abbrev pub IsDue : (Uuid → Bool) → Time → IngestJob → Type 0
IsDue locked now j = (j.state ≡ queued) × (leb j.run_after now ≡ true) × (locked j.id ≡ false)

IsDue-claimable :
    (locked : Uuid → Bool) (now : Time) (j : IngestJob)
    → IsDue locked now j
    → claimable_job locked now j ≡ true
unfolding claimable_job
IsDue-claimable locked now j (q, t, l) = rw (q, t, l) refl

claimable-IsDue :
    (locked : Uuid → Bool) (now : Time) (j : IngestJob)
    → claimable_job locked now j ≡ true
    → IsDue locked now j
unfolding claimable_job
claimable-IsDue locked now j t = (ground (arith, t), ground (arith, t), ground (arith, t))

-- A job that is due no later than another, and at one time has the lesser identity.
abbrev pub IsNoLater : IngestJob → IngestJob → Type 0
IsNoLater i j =
    (ltb i.run_after j.run_after || (i.run_after == j.run_after && leb i.id j.id)) ≡ true

first-IsNoLater :
    (p : IngestJob → Bool) (js : List IngestJob) {j : IngestJob}
    → least_where job_before p js ≡ some j
    → All (λ o. p o ≡ true → IsNoLater j o) js
unfolding job_before
first-IsNoLater p js =
    least_where-first job_before IsNoLater (λ x. ground arith) (λ x y z h k. ground (arith, h, k))
      (λ x y b. ground (arith, b)) (λ x y b. ground (arith, b)) p js

-- The row of a job that has been claimed once more.
pub record IsTaken (now : Time) (worker : String) (j r : IngestJob) : Type 0 where
  pub same_id : r.id ≡ j.id
  pub same_upload : r.upload_id ≡ j.upload_id
  pub is_running : r.state ≡ running
  pub once_more : r.attempt_count ≡ j.attempt_count + 1
  pub by_worker : r.locked_by ≡ some worker
  pub since : r.locked_at ≡ some now

-- A row that is found by its identity, and passes a test.
find-any_both :
    (o : IngestJob) (test : IngestJob → Bool) (js : List IngestJob)
    → test o ≡ true
    → find (λ x. x.id == o.id) js ≡ some o
    → any (λ x. x.id == o.id && test x) js ≡ true
unfolding find any
find-any_both o test [] t h = absurd (cc)
find-any_both o test (x ∷ xs) t h = elim (Bool-cases (x.id == o.id)) [
  | inl e ↦ let same : x ≡ o = some_inj (rw e at h) in rw (e, same, t) refl
  | inr n ↦ rw n (find-any_both o test xs t (rw n at h))
]
  where
    some_inj : some x ≡ some o → x ≡ o
    some_inj e = ground (arith, e)

-- What a claim finds and writes, from the job that the query picks.
claims :
    (locked : Uuid → Bool) (now : Time) (worker : String) (db : UploadDb) {j : IngestJob}
    → IsConsistent db
    → validate_required_text worker ≡ ok tt
    → least_where job_before (claimable_job locked now) db.jobs ≡ some j
    → (find_ingest_job db j.id ≡ some j)
      × (claimable_job locked now j ≡ true)
      × (s : Session) × (find_session db j.upload_id ≡ some s)
      × (in_state j.upload_id completed s ≡ true)
      × (claim_ingest_job locked now worker db ≡ (
        ok (claimed_job now worker j),
        record db {
          sessions = update_where (in_state j.upload_id completed) (now_ingesting now) db.sessions;
          jobs = update_where (λ x. x.id == j.id) (claimed_job now worker) db.jobs;
        },
      ))
unfolding claim_ingest_job claim_ingest_tx claim_job mark_session_ingesting find_session
    find_ingest_job
claims locked now worker db {j} w fine picked =
    let facts =
      All-zip (λ (o : IngestJob). find (λ x. x.id == o.id) db.jobs ≡ some o)
        (λ (o : IngestJob).
          All (λ s. Agrees s o) db.sessions × (has_session db.sessions o.upload_id ≡ true))
        db.jobs (IsDistinct-find (λ (o : IngestJob). o.id) db.jobs w.jobs)
        (All-zip (λ o. All (λ s. Agrees s o) db.sessions)
          (λ o. has_session db.sessions o.upload_id ≡ true) db.jobs
          (All-swap Agrees db.sessions db.jobs w.agreed) w.attached) in
    let (of_j, fit) =
      All-least_where _ job_before (claimable_job locked now) db.jobs facts picked in
    let found = of_j.0 in
    let q = queued_of locked now j fit in
    let one = waiting db j w of_j.1.0 of_j.1.1 q in
    let (s, at_s) = any-find (λ (o : Session). o.id == j.upload_id) db.sessions of_j.1.1 in
    let (agrees, at_id) =
      All-find (λ s. Agrees s j) (λ (o : Session). o.id == j.upload_id) db.sessions of_j.1.0 at_s in
    (
      found,
      fit,
      s,
      at_s,
      reached s (agrees (flipped s.id j.upload_id at_id) ∙ ap state_of q) at_id,
      rw (fine, validated, transact, ◌>>=◌, row, picked, found, one) refl,
    )
  where
    flipped : (a b : Uuid) → (a == b) ≡ true → (b == a) ≡ true
    flipped a b h = ground (arith, h)

    reached :
        (s : Session)
        → s.state ≡ completed
        → (s.id == j.upload_id) ≡ true
        → in_state j.upload_id completed s ≡ true
    reached s e t = rw (t, e) refl

-- If a job is due, a call of ClaimIngestJob by a worker with a name succeeds: it takes a job that is
-- due, no later than any other that is, and with the least identity among those of one time; it
-- returns the job running, with one attempt more, and locked by the worker since now, and leaves it
-- so in the tables, with the session of the job ingesting. The tables are consistent.
pub claim_ingest_job-takes :
    (locked : Uuid → Bool) (now : Time) (worker : String) (db : UploadDb) (o : IngestJob)
    → IsConsistent db
    → validate_required_text worker ≡ ok tt
    → find_ingest_job db o.id ≡ some o
    → IsDue locked now o
    → (j : IngestJob) × (find_ingest_job db j.id ≡ some j)
      × IsDue locked now j
      × All (λ x. IsDue locked now x → IsNoLater j x) db.jobs
      × (r : IngestJob) × IsTaken now worker j r
      × ((claim_ingest_job locked now worker db).0 ≡ ok r)
      × (find_ingest_job (claim_ingest_job locked now worker db).1 j.id ≡ some r)
      × (s : Session) × (find_session (claim_ingest_job locked now worker db).1 j.upload_id
          ≡ some s)
      × (s.state ≡ ingesting)
unfolding find_ingest_job find_session
claim_ingest_job-takes locked now worker db o w fine there due =
    let test = claimable_job locked now in
    let some_due =
      any-map (λ x. x.id == o.id && test x) test db.jobs (λ x e. ground (arith, e))
        (find-any_both o test db.jobs (IsDue-claimable locked now o due) there) in
    let (j, picked) = least_where-some job_before test db.jobs some_due in
    let (found, fit, s, at_s, waits, e) = claims locked now worker db w fine picked in
    let r = claimed_job now worker j in
    let row_after =
      find-update_where (λ (x : IngestJob). x.id == j.id) (λ x. x.id == j.id)
        (claimed_job now worker) db.jobs (λ _. refl) found in
    let session_after =
      find-update_where (λ (x : Session). x.id == j.upload_id) (in_state j.upload_id completed)
        (now_ingesting now) db.sessions (λ _. refl) at_s in
    (
      j,
      found,
      claimable-IsDue locked now j fit,
      All-map (λ x. test x ≡ true → IsNoLater j x) _ db.jobs
          (λ x h d. h (IsDue-claimable locked now x d)) (first-IsNoLater test db.jobs picked),
      r,
      record {
        same_id = refl;
        same_upload = refl;
        is_running = refl;
        once_more = refl;
        by_worker = refl;
        since = refl;
      },
      ap (λ x. x.0) e,
      ap (λ x. find (λ (i : IngestJob). i.id == j.id) x.1.jobs) e ∙ rw (==_refl j.id) at row_after,
      now_ingesting now s,
      ap (λ x. find (λ (i : Session). i.id == j.upload_id) x.1.sessions) e
          ∙ rw waits at session_after,
      refl,
    )

-- When no job is due, a call of ClaimIngestJob by a worker with a name finds none.
pub claim_ingest_job-none :
    (locked : Uuid → Bool) (now : Time) (worker : String) (db : UploadDb)
    → validate_required_text worker ≡ ok tt
    → All (λ j. IsDue locked now j → ⊥) db.jobs
    → claim_ingest_job locked now worker db ≡ (err (upload_not_found ∷ no_rows ∷ []), db)
unfolding claim_ingest_job claim_ingest_tx claim_job map_upload_error
claim_ingest_job-none locked now worker db fine idle =
    let nothing =
      least_where-none_of_All job_before (claimable_job locked now) db.jobs
        (All-map (λ j. IsDue locked now j → ⊥) _ db.jobs (λ j h. not_claimable j h) idle) in
    rw (fine, validated, transact, ◌>>=◌, row, nothing) refl
  where
    not_claimable : (j : IngestJob) → (IsDue locked now j → ⊥) → claimable_job locked now j ≡ false
    not_claimable j h = elim (Bool-cases (claimable_job locked now j)) [
      | inl t ↦ absurd (h (claimable-IsDue locked now j t))
      | inr n ↦ n
    ]
