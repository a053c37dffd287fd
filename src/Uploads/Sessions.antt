-- ===== src/Uploads/Sessions.antt =====
-- internal/store/postgres/uploads/sessions.go and blobs.go: the operations on sessions, parts and
-- blobs, each one transaction or one statement.
use Prim.Native.String.{◌++◌}
use imgsrv.Prelude.{
  String, Option, none, some, [], ◌∷◌, ◌>>=◌, ◌>>◌, pure, fail, row, Result,
  upload_failed_precondition,
}
use imgsrv.Publish.Domain.{Uuid, Time}
use imgsrv.Uploads.Domain.{
  created, completed, ingesting, ready, aborted, CreateSessionParams, CreateReadySessionParams,
  PutPartParams, staging_key, validate_create_session_params, validate_create_ready_session_params,
  validate_put_part_params, validate_upload_id, validate_digest,
}
use imgsrv.Uploads.Tables.{Session, Part, CasBlob, UploadDb, Tx, call}
use imgsrv.Uploads.Statements.{
  find_session, find_blob, update_session, insert_session, mutable_session,
  require_mutable_upload_session, upsert_part, or_now, queue_ingest_job,
}

-- The row that CreateSession inserts.
unfoldable pub created_session : (Uuid → String) → CreateSessionParams → Session
unfolding staging_key
created_session uuid_text p = record {
  id = p.id;
  expected_digest = p.expected_digest;
  expected_size_bytes = p.expected_size_bytes;
  state = created;
  storage_upload_id = p.storage_upload_id;
  staging_key = staging_key uuid_text p.id;
  media_type_hint = p.media_type_hint;
  filename_hint = p.filename_hint;
  completed_at = none;
  ingest_started_at = none;
  ready_at = none;
  failed_at = none;
  aborted_at = none;
  expires_at = p.expires_at;
  failure_message = none;
  ready_blob_digest = none;
}

unfoldable pub create_session :
    (Uuid → String) → Time → CreateSessionParams → UploadDb → Result Session × UploadDb
unfolding validate_create_session_params insert_session created_session
create_session uuid_text now p =
    call (validate_create_session_params p) (insert_session now (created_session uuid_text p))

-- readyStorageUploadID.
unfoldable pub ready_storage_upload_id : (Uuid → String) → Uuid → String
ready_storage_upload_id uuid_text id = "ready:" ++ uuid_text id

-- The row that CreateReadySession inserts.
unfoldable pub ready_session : (Uuid → String) → Time → CreateReadySessionParams → Session
unfolding staging_key ready_storage_upload_id
ready_session uuid_text now p = record {
  id = p.id;
  expected_digest = p.expected_digest;
  expected_size_bytes = p.expected_size_bytes;
  state = ready;
  storage_upload_id = ready_storage_upload_id uuid_text p.id;
  staging_key = staging_key uuid_text p.id;
  media_type_hint = p.media_type_hint;
  filename_hint = p.filename_hint;
  completed_at = some now;
  ingest_started_at = none;
  ready_at = some now;
  failed_at = none;
  aborted_at = none;
  expires_at = p.expires_at;
  failure_message = none;
  ready_blob_digest = some p.expected_digest;
}

unfoldable pub create_ready_session :
    (Uuid → String) → Time → CreateReadySessionParams → UploadDb → Result Session × UploadDb
unfolding validate_create_ready_session_params insert_session ready_session
create_ready_session uuid_text now p =
    call (validate_create_ready_session_params p)
      (insert_session now (ready_session uuid_text now p))

unfoldable pub get_session : Uuid → UploadDb → Result Session × UploadDb
unfolding validate_upload_id find_session
get_session id = call (validate_upload_id id) (row (λ db. find_session db id))

unfoldable pub put_part_tx : PutPartParams → Tx Part
unfolding require_mutable_upload_session upsert_part
put_part_tx p = do require_mutable_upload_session p.upload_id; upsert_part p

unfoldable pub put_part : PutPartParams → UploadDb → Result Part × UploadDb
unfolding validate_put_part_params put_part_tx
put_part p = call (validate_put_part_params p) (put_part_tx p)

abbrev pub now_completed : Time → Session → Session
now_completed now s = record s { state = completed; completed_at = or_now s.completed_at now }

-- What completeSession makes of a session that is not open any more.
abbrev pub completed_before : Session → Tx Session
completed_before s = elim s.state [
  | completed ↦ pure s
  | ingesting ↦ pure s
  | ready ↦ pure s
  | _ ↦ fail (upload_failed_precondition ∷ [])
]

-- What follows the UPDATE of completeSession.
abbrev pub after_update : Time → Uuid → Uuid → Option Session → Tx Session
unfolding find_session queue_ingest_job
after_update now job_id id (some s) = queue_ingest_job now job_id s
after_update now job_id id none = row (λ db. find_session db id) >>= completed_before

-- completeSession; the identity of the job is fresh.
unfoldable pub complete_session_tx : Time → Uuid → Uuid → Tx Session
unfolding mutable_session find_session queue_ingest_job
complete_session_tx now job_id id =
    update_session (mutable_session id) (now_completed now) >>= after_update now job_id id

unfoldable pub complete_session : Time → Uuid → Uuid → UploadDb → Result Session × UploadDb
unfolding validate_upload_id complete_session_tx
complete_session now job_id id = call (validate_upload_id id) (complete_session_tx now job_id id)

abbrev pub now_aborted : Time → Session → Session
now_aborted now s = record s { state = aborted; aborted_at = some now }

abbrev pub after_abort : Uuid → Option Session → Tx Session
unfolding find_session
after_abort id (some s) = pure s
after_abort id none = row (λ db. find_session db id) >>= λ _. fail (upload_failed_precondition ∷ [])

unfoldable pub abort_session_tx : Time → Uuid → Tx Session
unfolding mutable_session find_session
abort_session_tx now id = update_session (mutable_session id) (now_aborted now) >>= after_abort id

unfoldable pub abort_session : Time → Uuid → UploadDb → Result Session × UploadDb
unfolding validate_upload_id abort_session_tx
abort_session now id = call (validate_upload_id id) (abort_session_tx now id)

-- GetTrustedBlob, with its columns.
unfoldable pub get_trusted_blob : String → UploadDb → Result CasBlob × UploadDb
unfolding validate_digest find_blob
get_trusted_blob digest = call (validate_digest digest) (row (λ db. find_blob db digest))
