-- ===== src/Uploads/Outcomes.antt =====
-- What the statements of internal/store/postgres/uploads have found and written when they succeed.
use imgsrv.Prelude.{
  Bool, true, not, some, [], ◌∷◌, ◌≡◌, sym, subst, ◌∙◌, ◌==◌, ==_iff, inl, inr, ◌⊎◌, str_eq, any,
  find, update_where, count_where, Option-cases, Bool-cases, ok, fail, row, bind-elim, bind-require,
  row-ok, pure-ok, require-ok, arith, pg_check, pg_unique, upload_failed_precondition,
}
use imgsrv.Publish.Domain.{Uuid, Time}
use imgsrv.Uploads.Domain.{IngestJobState, running, is_ingest_job, SucceedIngestJobParams}
use imgsrv.Uploads.Tables.{Session, IngestJob, CasBlob, UploadDb}
use imgsrv.Uploads.Statements.{
  find_session, find_ingest_job, update_sessions, update_job, require_one, lock_running_job,
  ensure_cas_blob, checked_storage_key, new_blob, mutable_session, with_part,
  require_mutable_upload_session,
}

module _ (P : Session → Bool) (F : Session → Session) (db : UploadDb) where
  pub require_one-ok :
      {u : Unit {0}} {db' : UploadDb}
      → require_one (update_sessions P F) db ≡ ok (u, db')
      → (count_where P db.sessions ≡ 1)
        × (db' ≡ record db { sessions = update_where P F db.sessions })
  require_one-ok h = bind-elim (update_sessions P F) _ db h (λ n mid first rest.
      let (one, same) = require-ok (n == 1) (upload_failed_precondition ∷ []) mid rest in
      let counted : n ≡ count_where P db.sessions = ground (arith, first) in
      let written : mid ≡ record db { sessions = update_where P F db.sessions } =
        ground (arith, first) in
      (sym counted ∙ (==_iff n 1).0 one, same ∙ written))

module _ (p : IngestJob → Bool) (f : IngestJob → IngestJob) (db : UploadDb) where
  pub update_job-ok :
      {a : IngestJob} {db' : UploadDb}
      → update_job p f db ≡ ok (a, db')
      → (j : IngestJob) × (find p db.jobs ≡ some j)
        × (a ≡ f j)
        × (db' ≡ record db { jobs = update_where p f db.jobs })
  update_job-ok h = elim (Option-cases (find p db.jobs)) [
    | inl e ↦ absurd (cc (rw (update_job, e) at h))
    | inr (j, e) ↦
        let done = rw (update_job, e) at h in (j, e, ground (arith, done), ground (arith, done))
  ]

pub lock_running_job-ok :
    (id : Uuid) (db : UploadDb) {j : IngestJob} {db' : UploadDb}
    → lock_running_job id db ≡ ok (j, db')
    → (find (λ o. o.id == id) db.jobs ≡ some j) × (j.state ≡ running) × (db' ≡ db)
unfolding lock_running_job find_ingest_job
lock_running_job-ok id db {j} {db'} h =
    bind-elim (row (λ d. find_ingest_job d id)) _ db h (λ x mid first rest.
      let (found, same) = row-ok (λ d. find_ingest_job d id) db first in
      bind-require (is_ingest_job x.state running) (upload_failed_precondition ∷ []) _ mid rest
        (λ is_running last.
          let (at_x, kept) = pure-ok x mid last in
          (
            subst (λ (o : IngestJob). find (λ o. o.id == id) db.jobs ≡ some o) (sym at_x) found,
            subst (λ (o : IngestJob). o.state ≡ running) (sym at_x) (running_of x.state is_running),
            kept ∙ same,
          )))
  where
    running_of : (st : IngestJobState) → is_ingest_job st running ≡ true → st ≡ running
    running_of st e = ground (arith, e)

-- The table of blobs grows by a row of the digest, or has one.
pub ensure_cas_blob-ok :
    (now : Time) (p : SucceedIngestJobParams) (db : UploadDb) {u : Unit {0}} {db' : UploadDb}
    → ensure_cas_blob now p db ≡ ok (u, db')
    → ((db'.blobs ≡ db.blobs) ⊎ ((b : CasBlob) × (db'.blobs ≡ b ∷ db.blobs)))
      × (db' ≡ record db { blobs = db'.blobs })
unfolding ensure_cas_blob
ensure_cas_blob-ok now p db h =
    bind-require (str_eq p.storage_key (checked_storage_key p.digest)) (pg_check ∷ []) _ db h
      (λ _ rest. elim (Bool-cases (any (λ b. str_eq b.digest p.digest) db.blobs)) [
        | inl known ↦ let e = rw known at rest in (inl (ground (arith, e)), ground (arith, e))
        | inr unknown ↦
            let e = rw unknown at rest in
            bind-require (not (any (λ b. str_eq b.storage_key p.storage_key) db.blobs))
              (pg_unique ∷ []) _ db e
              (λ _ last. (inr (new_blob now p, ground (arith, last)), ground (arith, last)))
      ])

-- A part is taken by an open session, which is uploading from then on.
pub require_mutable-ok :
    (id : Uuid) (db : UploadDb) {u : Unit {0}} {db' : UploadDb}
    → require_mutable_upload_session id db ≡ ok (u, db')
    → (count_where (mutable_session id) db.sessions ≡ 1)
      × (db' ≡ record db { sessions = update_where (mutable_session id) with_part db.sessions })
unfolding require_mutable_upload_session find_session
require_mutable-ok id db {u} {db'} h =
    elim (Bool-cases (count_where (mutable_session id) db.sessions == 1)) [
      | inl one ↦ ((==_iff _ 1).0 one, ground (arith, rw one at h))
      | inr more ↦ absurd (
          bind-elim (row (λ d. find_session d id)) (λ _. fail (upload_failed_precondition ∷ [])) _
            (rw more at h) (λ x mid first rest. cc (rest)))
    ]
