-- ===== src/Uploads/Calls.antt =====
-- The calls of internal/store/postgres/uploads in sequence.
use imgsrv.Prelude.{
  String, Bool, List, [], ◌∷◌, ◌≡◌, ok, err, inl, inr, Result, validated, transact, transact-cases,
  subst, sym,
}
use imgsrv.Publish.Domain.{Uuid, Time}
use imgsrv.Uploads.Domain.{
  CreateSessionParams, CreateReadySessionParams, PutPartParams, SucceedIngestJobParams,
  FailIngestJobParams,
}
use imgsrv.Uploads.Tables.{UploadDb, Tx, map_upload_error}
use imgsrv.Uploads.Sessions.{
  create_session, create_ready_session, put_part, complete_session, abort_session,
}
use imgsrv.Uploads.Ingest.{claim_ingest_job, succeed_ingest_job, fail_ingest_job}

-- A call of the store that writes, with what the environment supplies to it.
pub data Op : Type 0 where
  create : Time → CreateSessionParams → Op
  create_ready : Time → CreateReadySessionParams → Op
  put : PutPartParams → Op
  complete : Time → Uuid → Uuid → Op
  abort : Time → Uuid → Op
  claim : (Uuid → Bool) → Time → String → Op
  succeed : Time → SucceedIngestJobParams → Op
  fail : Time → FailIngestJobParams → Op

-- The tables after a call.
unfoldable pub apply : (Uuid → String) → Op → UploadDb → UploadDb
apply uuid_text (create now p) db = (create_session uuid_text now p db).1
apply uuid_text (create_ready now p) db = (create_ready_session uuid_text now p db).1
apply uuid_text (put p) db = (put_part p db).1
apply uuid_text (complete now job_id id) db = (complete_session now job_id id db).1
apply uuid_text (abort now id) db = (abort_session now id db).1
apply uuid_text (claim locked now worker) db = (claim_ingest_job locked now worker db).1
apply uuid_text (succeed now p) db = (succeed_ingest_job now p db).1
apply uuid_text (fail now p) db = (fail_ingest_job now p db).1

unfoldable pub run : (Uuid → String) → List Op → UploadDb → UploadDb
run uuid_text [] db = db
run uuid_text (op ∷ ops) db = run uuid_text ops (apply uuid_text op db)

-- A call writes nothing, or its transaction commits.
pub committed :
    {A : Type 0} (check : Result (Unit {0})) (m : Tx A) (db : UploadDb) {C : UploadDb → Type 0}
    → C db
    → ((a : A) (db' : UploadDb) → m db ≡ ok (a, db') → C db')
    → C (validated check (transact map_upload_error m) db).1
committed (ok _) m db {C} same commit = elim (transact-cases map_upload_error m db) [
  | inl (a, e, _) ↦ commit a _ e
  | inr (_, _, e) ↦ subst (λ r. C r.1) (sym e) same
]
committed (err e) m db same commit = same
