-- ===== src/Uploads/Blobs.antt =====
-- What the operations of internal/store/postgres/uploads/ingest.go do to the table of blobs.
use imgsrv.Prelude.{
  not, List, [], ◌∷◌, ◌≡◌, refl, ap, ◌∙◌, ◌⊎◌, inl, inr, any, ok, str_eq, eq_iff, Bool-cases,
  String, Bool, ◌==◌, least_where, row, row-ok, pure-ok, bind-elim, bind-require, pg_check,
  pg_unique, arith,
}
use imgsrv.Publish.Domain.{Uuid, Time}
use imgsrv.Uploads.Domain.{
  completed, ingesting, validate_required_text, SucceedIngestJobParams, FailIngestJobParams,
  validate_succeed_ingest_job_params, validate_fail_ingest_job_params,
}
use imgsrv.Uploads.Tables.{CasBlob, UploadDb}
use imgsrv.Uploads.Statements.{
  claimable_job, job_before, claimed_job, claim_job, now_ingesting, mark_session_ingesting,
  checked_storage_key, new_blob, lock_running_job, ensure_cas_blob, in_state, matches_blob,
  now_ready, now_failed, mark_session_ready, mark_session_failed, running_job, succeeded_job,
  failed_job, mark_job_succeeded, mark_job_failed,
}
use imgsrv.Uploads.Ingest.{
  claim_ingest_tx, claim_ingest_job, succeed_ingest_tx, succeed_ingest_job, fail_ingest_tx,
  fail_ingest_job,
}
use imgsrv.Uploads.Outcomes.{require_one-ok, update_job-ok, lock_running_job-ok}
use imgsrv.Uploads.Calls.{committed}

-- A failed ingest adds no blob.
pub fail_ingest_job-blobs :
    (now : Time) (p : FailIngestJobParams) (db : UploadDb)
    → (fail_ingest_job now p db).1.blobs ≡ db.blobs
unfolding fail_ingest_job fail_ingest_tx mark_session_failed mark_job_failed
fail_ingest_job-blobs now p db =
    committed (validate_fail_ingest_job_params p) (fail_ingest_tx now p) db
      {C = λ d. d.blobs ≡ db.blobs} refl
      (λ a db' h. bind-elim (lock_running_job p.id) _ db h (λ j mid first h1.
        let (_, _, same) = lock_running_job-ok p.id db first in
        let F = now_failed now p.failure_message in
        bind-elim (mark_session_failed now j.upload_id p.failure_message) _ mid h1
          (λ _ mid2 second h2.
            let (_, moved) = require_one-ok (in_state j.upload_id ingesting) F mid second in
            let (_, _, _, done) =
              update_job-ok (running_job p.id) (failed_job now p.failure_message) mid2 h2 in
            blobs_of done ∙ blobs_of moved ∙ blobs_of same)))
  where
    blobs_of : {a b : UploadDb} → a ≡ b → a.blobs ≡ b.blobs
    blobs_of e = ap (λ (d : UploadDb). d.blobs) e

-- The tables of blobs before and after a success is recorded: the same, or one more, under the key that
-- the database admits.
abbrev pub IsRecorded : Time → SucceedIngestJobParams → List CasBlob → List CasBlob → Type 0
IsRecorded now p before after =
    (after ≡ before)
    ⊎ ((after ≡ new_blob now p ∷ before) × (p.storage_key ≡ checked_storage_key p.digest))

ensure_cas_blob-IsRecorded :
    (now : Time) (p : SucceedIngestJobParams) (db : UploadDb) {u : Unit {0}} {db' : UploadDb}
    → ensure_cas_blob now p db ≡ ok (u, db')
    → IsRecorded now p db.blobs db'.blobs
unfolding ensure_cas_blob
ensure_cas_blob-IsRecorded now p db h =
    bind-require (str_eq p.storage_key (checked_storage_key p.digest)) (pg_check ∷ []) _ db h
      (λ keyed rest. elim (Bool-cases (any (λ b. str_eq b.digest p.digest) db.blobs)) [
        | inl known ↦ let e = rw known at rest in inl (ground (arith, e))
        | inr unknown ↦
            let e = rw unknown at rest in
            bind-require (not (any (λ b. str_eq b.storage_key p.storage_key) db.blobs))
              (pg_unique ∷ []) _ db e
              (λ _ last. inr (
                ground (arith, last),
                (eq_iff p.storage_key (checked_storage_key p.digest)).0 keyed,
              ))
      ])

pub succeed_ingest_job-IsRecorded :
    (now : Time) (p : SucceedIngestJobParams) (db : UploadDb)
    → IsRecorded now p db.blobs (succeed_ingest_job now p db).1.blobs
unfolding succeed_ingest_job succeed_ingest_tx mark_session_ready mark_job_succeeded
succeed_ingest_job-IsRecorded now p db =
    committed (validate_succeed_ingest_job_params p) (succeed_ingest_tx now p) db
      {C = λ d. IsRecorded now p db.blobs d.blobs} (inl refl)
      (λ a db' h. bind-elim (lock_running_job p.id) _ db h (λ j mid first h1.
        let (_, _, same) = lock_running_job-ok p.id db first in
        bind-elim (ensure_cas_blob now p) _ mid h1 (λ _ mid1 blob h2.
          bind-elim (mark_session_ready now j.upload_id p) _ mid1 h2 (λ _ mid2 second h3.
            let F = now_ready now p.digest in
            let (_, moved) = require_one-ok (matches_blob mid1 j.upload_id p) F mid1 second in
            let (_, _, _, done) =
              update_job-ok (running_job p.id) (succeeded_job now p.digest) mid2 h3 in
            carried (blobs_of done ∙ blobs_of moved) (blobs_of same)
              (ensure_cas_blob-IsRecorded now p mid blob)))))
  where
    blobs_of : {a b : UploadDb} → a ≡ b → a.blobs ≡ b.blobs
    blobs_of e = ap (λ (d : UploadDb). d.blobs) e

    carried : {a b c d : List CasBlob} → d ≡ c → b ≡ a → IsRecorded now p b c → IsRecorded now p a d
    carried after before (inl e) = inl (after ∙ e ∙ before)
    carried after before (inr (e, k)) = inr (after ∙ e ∙ ap (λ bs. new_blob now p ∷ bs) before, k)

-- A claim adds no blob.
pub claim_ingest_job-blobs :
    (locked : Uuid → Bool) (now : Time) (worker : String) (db : UploadDb)
    → (claim_ingest_job locked now worker db).1.blobs ≡ db.blobs
unfolding claim_ingest_job claim_ingest_tx claim_job mark_session_ingesting
claim_ingest_job-blobs locked now worker db =
    let first_due = λ (d : UploadDb). least_where job_before (claimable_job locked now) d.jobs in
    committed (validate_required_text worker) (claim_ingest_tx locked now worker) db
      {C = λ d. d.blobs ≡ db.blobs} refl
      (λ a db' h. bind-elim (claim_job locked now worker) _ db h (λ j mid claimed h1.
        bind-elim (mark_session_ingesting now j.upload_id) _ mid h1 (λ _ mid2 second h2.
          let (_, moved) =
            require_one-ok (in_state j.upload_id completed) (now_ingesting now) mid second in
          let taken = bind-elim (row first_due) _ db claimed (λ next mid1 found h3.
            let (_, same) = row-ok first_due db found in
            let (_, _, _, done) =
              update_job-ok (λ o. o.id == next.id) (claimed_job now worker) mid1 h3 in
            blobs_of done ∙ blobs_of same) in
          let (_, last) = pure-ok j mid2 h2 in blobs_of last ∙ blobs_of moved ∙ taken)))
  where
    blobs_of : {a b : UploadDb} → a ≡ b → a.blobs ≡ b.blobs
    blobs_of e = ap (λ (d : UploadDb). d.blobs) e
