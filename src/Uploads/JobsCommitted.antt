-- ===== src/Uploads/JobsCommitted.antt =====
-- Each transaction of internal/store/postgres/uploads that concerns a job and commits is one change
-- of the tables.
use imgsrv.Prelude.{
  ℕ, String, Bool, true, some, List, ◌∷◌, ◌≡◌, sym, ap, subst, ◌∙◌, ◌==◌, ==_iff, inr, ◌⊎◌,
  All-find, All-least_where, everywhere, find, update_where, count_where, least_where, IsDistinct,
  IsDistinct-IsSole, IsSole, find-IsSole, ok, row, bind-elim, row-ok, pure-ok, arith,
}
use imgsrv.Publish.Domain.{Uuid, Time}
use imgsrv.Uploads.Domain.{
  completed, ingesting, queued, SucceedIngestJobParams, FailIngestJobParams,
}
use imgsrv.Uploads.Tables.{Session, IngestJob, CasBlob, UploadDb}
use imgsrv.Uploads.Statements.{
  claimable_job, job_before, claimed_job, claim_job, mark_session_ingesting, in_state,
  now_ingesting, lock_running_job, ensure_cas_blob, matches_blob, now_ready, mark_session_ready,
  running_job, succeeded_job, mark_job_succeeded, now_failed, mark_session_failed, failed_job,
  mark_job_failed,
}
use imgsrv.Uploads.Ingest.{claim_ingest_tx, succeed_ingest_tx, fail_ingest_tx}
use imgsrv.Uploads.Consistent.{IsConsistent}
use imgsrv.Uploads.Change.{Change, Hand}
use imgsrv.Uploads.Outcomes.{require_one-ok, update_job-ok, lock_running_job-ok, ensure_cas_blob-ok}
use imgsrv.Uploads.Committed.{IsMade}

abbrev job_id : IngestJob → ℕ
job_id j = j.id

-- The identity of a job that is found by it.
found_id :
    (n : ℕ) (js : List IngestJob) {j : IngestJob} → find (λ o. o.id == n) js ≡ some j → j.id ≡ n
found_id n js {j} e =
    (==_iff j.id n).0 (All-find (λ _. Unit {0}) (λ o. o.id == n) js (everywhere _ (λ _. tt) js) e).1

pub fail-IsMade :
    (now : Time) (p : FailIngestJobParams) (db : UploadDb) {a : IngestJob} {db' : UploadDb}
    → IsConsistent db
    → fail_ingest_tx now p db ≡ ok (a, db')
    → IsMade db db'
unfolding fail_ingest_tx mark_session_failed mark_job_failed
fail-IsMade now p db w h = bind-elim (lock_running_job p.id) _ db h (λ j mid first h1.
    let (found, is_running, same) = lock_running_job-ok p.id db first in
    bind-elim (mark_session_failed now j.upload_id p.failure_message) _ mid h1 (λ _ mid2 second h2.
      let (one, moved) =
        require_one-ok (in_state j.upload_id ingesting) (now_failed now p.failure_message) mid
          second in
      let (o, _, _, done) =
        update_job-ok (running_job p.id) (failed_job now p.failure_message) mid2 h2 in
      let at_id = found_id p.id db.jobs found in
      let P = in_state j.upload_id ingesting in
      let F = now_failed now p.failure_message in
      let Q = running_job p.id in
      let G = failed_job now p.failure_message in
      inr (
        Change.hand j P F Q G db.blobs (Hand.fail now p.id p.failure_message is_running (sym at_id))
          (find-IsSole job_id (λ o. o.id == p.id) db.jobs w.jobs found)
          (subst (λ n. find (λ o. o.id == n) db.jobs ≡ some j) (sym at_id) found)
          (subst (λ (d : UploadDb). count_where P d.sessions ≡ 1) same one)
          (done
            ∙ ap (λ (d : UploadDb). record d { jobs = update_where Q G d.jobs }) moved
            ∙ ap
                (λ (d : UploadDb). record d {
                  sessions = update_where P F d.sessions;
                  jobs = update_where Q G d.jobs;
                })
                same))))

pub succeed-IsMade :
    (now : Time) (p : SucceedIngestJobParams) (db : UploadDb) {a : IngestJob} {db' : UploadDb}
    → IsConsistent db
    → succeed_ingest_tx now p db ≡ ok (a, db')
    → IsMade db db'
unfolding succeed_ingest_tx mark_session_ready mark_job_succeeded
succeed-IsMade now p db w h = bind-elim (lock_running_job p.id) _ db h (λ j mid first h1.
    let (found, is_running, same) = lock_running_job-ok p.id db first in
    bind-elim (ensure_cas_blob now p) _ mid h1 (λ _ mid1 blob h2.
      let (grown, kept) = ensure_cas_blob-ok now p mid blob in
      bind-elim (mark_session_ready now j.upload_id p) _ mid1 h2 (λ _ mid2 second h3.
        let P = matches_blob mid1 j.upload_id p in
        let F = now_ready now p.digest in
        let Q = running_job p.id in
        let G = succeeded_job now p.digest in
        let (one, moved) = require_one-ok P F mid1 second in
        let (o, _, _, done) = update_job-ok Q G mid2 h3 in
        let at_id = found_id p.id db.jobs found in
        let of_db = kept ∙ ap (λ (d : UploadDb). record d { blobs = mid1.blobs }) same in
        inr (
          Change.hand j P F Q G mid1.blobs
            (Hand.succeed now p mid1 is_running (sym at_id) (
              subst
                (λ (d : UploadDb).
                  (mid1.blobs ≡ d.blobs) ⊎ ((b : CasBlob) × (mid1.blobs ≡ b ∷ d.blobs)))
                same grown))
            (find-IsSole job_id (λ o. o.id == p.id) db.jobs w.jobs found)
            (subst (λ n. find (λ o. o.id == n) db.jobs ≡ some j) (sym at_id) found)
            (subst (λ (ss : List Session). count_where P ss ≡ 1)
              (ap (λ (d : UploadDb). d.sessions) of_db) one)
            (done
              ∙ ap (λ (d : UploadDb). record d { jobs = update_where Q G d.jobs }) moved
              ∙ ap
                  (λ (d : UploadDb). record d {
                    sessions = update_where P F d.sessions;
                    jobs = update_where Q G d.jobs;
                  })
                  of_db)))))

pub queued_of :
    (locked : Uuid → Bool) (now : Time) (j : IngestJob)
    → claimable_job locked now j ≡ true
    → j.state ≡ queued
unfolding claimable_job
queued_of locked now j t = ground (arith, t)

-- The job that is claimed: the first of those that may be.
module _ (locked : Uuid → Bool) (now : Time) (worker : String) (db : UploadDb)
    (w : IsDistinct job_id db.jobs) where
  pub claim_job-ok :
      {x : IngestJob} {mid : UploadDb}
      → claim_job locked now worker db ≡ ok (x, mid)
      → (next : IngestJob) × (least_where job_before (claimable_job locked now) db.jobs ≡ some next)
        × (find (λ o. o.id == next.id) db.jobs ≡ some next)
        × (x ≡ claimed_job now worker next)
        × (mid ≡ record db {
          jobs = update_where (λ o. o.id == next.id) (claimed_job now worker) db.jobs;
        })
  unfolding claim_job
  claim_job-ok {x} e =
      bind-elim (row (λ (d : UploadDb). least_where job_before (claimable_job locked now) d.jobs)) _
        db e
        (λ next d f r.
          let (picked, same) =
            row-ok (λ (d : UploadDb). least_where job_before (claimable_job locked now) d.jobs) db
              f in
          let (sole, _) =
            All-least_where (IsSole job_id db.jobs) job_before (claimable_job locked now) db.jobs
              (IsDistinct-IsSole job_id db.jobs w) picked in
          let (j, found, at_x, moved) =
            update_job-ok (λ o. o.id == next.id) (claimed_job now worker) d r in
          let in_db : find (λ o. o.id == next.id) db.jobs ≡ some j =
            subst (λ (d : UploadDb). find (λ o. o.id == next.id) d.jobs ≡ some j) same found in
          let (only, at_id) =
            All-find (λ o. (o.id == next.id) ≡ true → o ≡ next) (λ o. o.id == next.id) db.jobs sole
              in_db in
          let this = only at_id in
          (
            next,
            picked,
            subst (λ o. find (λ o. o.id == next.id) db.jobs ≡ some o) this in_db,
            at_x ∙ ap (claimed_job now worker) this,
            moved
                ∙ ap
                    (λ (d : UploadDb). record d {
                      jobs = update_where (λ o. o.id == next.id) (claimed_job now worker) d.jobs;
                    })
                    same,
          ))

  pub claim-IsMade :
      {a : IngestJob} {db' : UploadDb}
      → claim_ingest_tx locked now worker db ≡ ok (a, db')
      → IsMade db db'
  unfolding claim_ingest_tx mark_session_ingesting
  claim-IsMade h = bind-elim (claim_job locked now worker) _ db h (λ x mid first h1.
      let (next, picked, found, at_x, moved) = claim_job-ok first in
      let (sole, fit) =
        All-least_where (IsSole job_id db.jobs) job_before (claimable_job locked now) db.jobs
          (IsDistinct-IsSole job_id db.jobs w) picked in
      let at_upload : x.upload_id ≡ next.upload_id = ap (λ (o : IngestJob). o.upload_id) at_x in
      bind-elim (mark_session_ingesting now x.upload_id) _ mid h1 (λ _ mid2 second h2.
        let P = in_state next.upload_id completed in
        let F = now_ingesting now in
        let (one, written) =
          require_one-ok P F mid
            (subst (λ n. mark_session_ingesting now n mid ≡ ok (tt, mid2)) at_upload second) in
        let (_, last) = pure-ok x mid2 h2 in
        inr (
          Change.hand next P F (λ o. o.id == next.id) (claimed_job now worker) db.blobs
            (Hand.claim now worker (queued_of locked now next fit)) sole found
            (subst (λ (ss : List Session). count_where P ss ≡ 1)
              (ap (λ (d : UploadDb). d.sessions) moved) one)
            (last
              ∙ written
              ∙ ap (λ (d : UploadDb). record d { sessions = update_where P F d.sessions }) moved))))
