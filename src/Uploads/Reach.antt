-- ===== src/Uploads/Reach.antt =====
-- What every sequence of calls of internal/store/postgres/uploads keeps of its tables.
use imgsrv.Prelude.{
  String, false, some, List, [], ◌∷◌, ◌≡◌, refl, sym, subst, ◌∙◌, ◌==◌, inl, inr, any,
  any-false_of_All, All, All-map, All-find, find, update_where-none, Option-cases, Bool-cases, ok,
  row, bind-elim, row-ok, arith,
}
use imgsrv.Publish.Domain.{Uuid, Time}
use imgsrv.Uploads.Domain.{
  validate_create_session_params, validate_create_ready_session_params, validate_put_part_params,
  validate_upload_id, validate_required_text, validate_succeed_ingest_job_params,
  validate_fail_ingest_job_params,
}
use imgsrv.Uploads.Tables.{Session, UploadDb}
use imgsrv.Uploads.Statements.{
  find_session, insert_session, mutable_session, queue_ingest_job, new_ingest_job,
}
use imgsrv.Uploads.Sessions.{
  created_session, ready_session, create_session, create_ready_session, put_part_tx, put_part,
  now_completed, completed_before, complete_session_tx, complete_session, abort_session_tx,
  abort_session,
}
use imgsrv.Uploads.Ingest.{
  claim_ingest_tx, claim_ingest_job, succeed_ingest_tx, succeed_ingest_job, fail_ingest_tx,
  fail_ingest_job,
}
use imgsrv.Uploads.Consistent.{IsConsistent, Agrees}
use imgsrv.Uploads.Keeping.{open_apart}
use imgsrv.Uploads.Change.{Change}
use imgsrv.Uploads.Handing.{Change-IsConsistent}
use imgsrv.Uploads.Calls.{
  Op, create, create_ready, put, complete, abort, claim, succeed, fail as fail_job, apply, run,
  committed,
}
use imgsrv.Uploads.Committed.{
  IsMade, create-IsMade, create_ready-IsMade, put_part-IsMade, abort-IsMade,
}
use imgsrv.Uploads.JobsCommitted.{claim-IsMade, succeed-IsMade, fail-IsMade}

completed_before-ok :
    (s : Session) (db : UploadDb) {a : Session} {db' : UploadDb}
    → completed_before s db ≡ ok (a, db')
    → db' ≡ db
completed_before-ok s db h = ground (arith, h)

-- An open session has no job.
pub no_job :
    (db : UploadDb) (id : Uuid) (s : Session)
    → IsConsistent db
    → find (mutable_session id) db.sessions ≡ some s
    → any (λ j. j.upload_id == s.id) db.jobs ≡ false
no_job db id s w e =
    let (agrees, fit) =
      All-find (λ o. All (Agrees o) db.jobs) (mutable_session id) db.sessions w.agreed e in
    any-false_of_All (λ j. j.upload_id == s.id) db.jobs
      (All-map (Agrees s) (λ j. (j.upload_id == s.id) ≡ false) db.jobs
        (λ j a. elim (Bool-cases (j.upload_id == s.id)) [
          | inl t ↦ absurd (open_apart id s fit j.state (a t))
          | inr n ↦ n
        ])
        agrees)

complete-IsMade :
    (now : Time) (job_id id : Uuid) (db : UploadDb) {a : Session} {db' : UploadDb}
    → IsConsistent db
    → complete_session_tx now job_id id db ≡ ok (a, db')
    → IsMade db db'
unfolding complete_session_tx find_session queue_ingest_job
complete-IsMade now job_id id db {a} {db'} w h =
    elim (Option-cases (find (mutable_session id) db.sessions)) [
      | inl e ↦
          let idle = update_where-none (mutable_session id) (now_completed now) db.sessions e in
          bind-elim (row (λ d. find_session d id)) completed_before _ (rw (e, idle) at h)
            (λ s mid first rest.
              let (_, same) = row-ok (λ d. find_session d id) db first in
              inl (completed_before-ok s mid rest ∙ same))
      | inr (s, e) ↦
          let free = no_job db id s w e in
          elim (Bool-cases (any (λ j. j.id == job_id) db.jobs)) [
            | inl taken ↦ absurd (cc (rw (e, free, taken) at h))
            | inr fresh ↦ inr (
                Change.complete now id s (new_ingest_job now job_id s.id) e refl refl free fresh
                  (ground (arith, rw (e, free, fresh) at h)))
          ]
    ]

-- Each call writes nothing, or makes one change.
pub apply-IsMade :
    (uuid_text : Uuid → String) (op : Op) (db : UploadDb)
    → IsConsistent db
    → IsMade db (apply uuid_text op db)
unfolding apply create_session create_ready_session put_part complete_session abort_session
    claim_ingest_job succeed_ingest_job fail_ingest_job
apply-IsMade uuid_text (create now p) db w =
    committed (validate_create_session_params p) (insert_session now (created_session uuid_text p))
      db {C = λ d. IsMade db d} (inl refl) (λ a db' e. create-IsMade uuid_text now p db e)
apply-IsMade uuid_text (create_ready now p) db w =
    committed (validate_create_ready_session_params p)
      (insert_session now (ready_session uuid_text now p)) db {C = λ d. IsMade db d} (inl refl)
      (λ a db' e. create_ready-IsMade uuid_text now p db e)
apply-IsMade uuid_text (put p) db w =
    committed (validate_put_part_params p) (put_part_tx p) db {C = λ d. IsMade db d} (inl refl)
      (λ a db' e. put_part-IsMade p db e)
apply-IsMade uuid_text (complete now job_id id) db w =
    committed (validate_upload_id id) (complete_session_tx now job_id id) db {C = λ d. IsMade db d}
      (inl refl) (λ a db' e. complete-IsMade now job_id id db w e)
apply-IsMade uuid_text (abort now id) db w =
    committed (validate_upload_id id) (abort_session_tx now id) db {C = λ d. IsMade db d} (inl refl)
      (λ a db' e. abort-IsMade now id db e)
apply-IsMade uuid_text (claim locked now worker) db w =
    committed (validate_required_text worker) (claim_ingest_tx locked now worker) db
      {C = λ d. IsMade db d} (inl refl) (λ a db' e. claim-IsMade locked now worker db w.jobs e)
apply-IsMade uuid_text (succeed now p) db w =
    committed (validate_succeed_ingest_job_params p) (succeed_ingest_tx now p) db
      {C = λ d. IsMade db d} (inl refl) (λ a db' e. succeed-IsMade now p db w e)
apply-IsMade uuid_text (fail_job now p) db w =
    committed (validate_fail_ingest_job_params p) (fail_ingest_tx now p) db {C = λ d. IsMade db d}
      (inl refl) (λ a db' e. fail-IsMade now p db w e)

pub apply-IsConsistent :
    (uuid_text : Uuid → String) (op : Op) (db : UploadDb)
    → IsConsistent db
    → IsConsistent (apply uuid_text op db)
apply-IsConsistent uuid_text op db w = elim (apply-IsMade uuid_text op db w) [
  | inl e ↦ subst IsConsistent (sym e) w
  | inr c ↦ Change-IsConsistent c w
]

-- Any sequence of calls keeps the tables consistent.
pub run-IsConsistent :
    (uuid_text : Uuid → String) (ops : List Op) (db : UploadDb)
    → IsConsistent db
    → IsConsistent (run uuid_text ops db)
unfolding run
run-IsConsistent uuid_text [] db w = w
run-IsConsistent uuid_text (op ∷ ops) db w =
    run-IsConsistent uuid_text ops (apply uuid_text op db) (apply-IsConsistent uuid_text op db w)
