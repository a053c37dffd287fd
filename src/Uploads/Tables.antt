-- ===== src/Uploads/Tables.antt =====
-- The tables that internal/store/postgres/uploads reads and writes, as lists of rows, and the errors
-- of its operations. created_at and updated_at, which no operation reads, are left out.
use imgsrv.Prelude.{
  ℕ, String, ◌||◌, Option, List, [], ◌∷◌, ℤ, if◌then◌else◌, Error, errors_is, Result, Transaction,
  transact, validated, cas_not_found, no_rows, pg_unique, pg_foreign_key, pg_check, pg_invalid_text,
  pg_not_null, upload_conflict, upload_failed_precondition, upload_invalid, upload_not_found,
}
use imgsrv.Publish.Domain.{Uuid, Time}
use imgsrv.Uploads.Domain.{SessionState, IngestJobState}

-- A row of upload_sessions.
pub record Session : Type 0 where
  pub id : Uuid
  pub expected_digest : String
  pub expected_size_bytes : ℤ
  pub state : SessionState
  pub storage_upload_id : String
  pub staging_key : String
  pub media_type_hint : Option String
  pub filename_hint : Option String
  pub completed_at : Option Time
  pub ingest_started_at : Option Time
  pub ready_at : Option Time
  pub failed_at : Option Time
  pub aborted_at : Option Time
  pub expires_at : Time
  pub failure_message : Option String
  pub ready_blob_digest : Option String

-- A row of upload_parts.
pub record Part : Type 0 where
  pub upload_id : Uuid
  pub part_number : ℤ
  pub etag : String
  pub size_bytes : ℤ

-- A row of cas_ingest_jobs.
pub record IngestJob : Type 0 where
  pub id : Uuid
  pub upload_id : Uuid
  pub state : IngestJobState
  pub attempt_count : ℕ
  pub run_after : Time
  pub locked_by : Option String
  pub locked_at : Option Time
  pub started_at : Option Time
  pub finished_at : Option Time
  pub failure_message : Option String
  pub blob_digest : Option String

-- A row of cas_blobs.
pub record CasBlob : Type 0 where
  pub digest : String
  pub size_bytes : ℤ
  pub storage_key : String
  pub media_type : Option String
  pub verified_at : Time

pub record UploadDb : Type 0 where
  pub sessions : List Session
  pub parts : List Part
  pub jobs : List IngestJob
  pub blobs : List CasBlob

abbrev pub Tx : Type 0 → Type 0
Tx A = Transaction UploadDb A

-- mapUploadError.
unfoldable pub map_upload_error : Error → Error
map_upload_error e =
    if errors_is e no_rows
    then upload_not_found ∷ e
    else if errors_is e pg_unique
    then upload_conflict ∷ []
    else if errors_is e pg_foreign_key
    then upload_not_found ∷ []
    else if errors_is e pg_check
    then upload_failed_precondition ∷ []
    else if errors_is e pg_invalid_text || errors_is e pg_not_null
    then upload_invalid ∷ []
    else e

-- mapCASError.
unfoldable pub map_cas_error : Error → Error
map_cas_error e = if errors_is e no_rows then cas_not_found ∷ e else e

-- Validation, then one transaction, or one statement, whose error is mapped.
abbrev pub call : {A : Type 0} → Result (Unit {0}) → Tx A → UploadDb → Result A × UploadDb
call check m = validated check (transact map_upload_error m)
