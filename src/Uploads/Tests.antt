-- ===== src/Uploads/Tests.antt =====
-- Runs of uploads: one session from its creation to its verified blob.
use imgsrv.Prelude.{
  ℕ, String, Bool, false, All, none, some, List, [], ◌∷◌, ◌≡◌, refl, ok, pos, ◌==◌, ◌⊎◌,
  if◌then◌else◌,
}
use imgsrv.Uploads.Domain.{
  SessionState, completed, ingesting, queued, ready, aborted, validate_required_text,
  validate_put_part_params, validate_upload_id, CreateSessionParams, PutPartParams,
  SucceedIngestJobParams,
}
use imgsrv.Uploads.Tables.{Session, IngestJob, UploadDb}
use imgsrv.Uploads.Statements.{find_session, find_ingest_job}
use imgsrv.Uploads.Sessions.{
  created_session, create_session, get_session, put_part, complete_session, abort_session,
}
use imgsrv.Uploads.Ingest.{claim_ingest_job, succeed_ingest_job}
use imgsrv.Uploads.Consistent.{IsConsistent}
use imgsrv.Uploads.Calls.{Op, create, put, complete, claim, succeed, apply, run}
use imgsrv.Uploads.Lifecycle.{Steps, is_ready}
use imgsrv.Uploads.Reach.{run-IsConsistent}
use imgsrv.Uploads.Refines.{view, run-Steps, run-Terminal}
use imgsrv.Uploads.Completing.{complete_session-again}
use imgsrv.Uploads.Claiming.{IsDue, IsNoLater, IsTaken, claim_ingest_job-takes}
use imgsrv.Uploads.Rounds.{empty_db, empty-IsConsistent, IsNew, get_session-create_session}
use imgsrv.Uploads.Closed.{refused, closed-refused}

abbrev digest : String
digest = "sha256:0123456789abcdef0123456789abcdef0123456789abcdef0123456789abcdef"

abbrev key : String
key = "cas/sha256/01/23/0123456789abcdef0123456789abcdef0123456789abcdef0123456789abcdef"

abbrev text : ℕ → String
text n = if n == 7 then "seven" else "other"

abbrev session_params : CreateSessionParams
session_params = record {
  id = 7;
  expected_digest = digest;
  expected_size_bytes = pos 5;
  storage_upload_id = "s3-1";
  media_type_hint = none;
  filename_hint = some "disk.img";
  expires_at = 900;
}

abbrev part_params : PutPartParams
part_params = record { upload_id = 7; part_number = pos 1; etag = "e"; size_bytes = pos 5 }

abbrev outcome : SucceedIngestJobParams
outcome = record {
  id = 21;
  digest = digest;
  size_bytes = pos 5;
  storage_key = key;
  media_type = none;
}

abbrev unlocked : ℕ → Bool
unlocked _ = false

abbrev to_upload : List Op
to_upload = create 100 session_params ∷ put part_params ∷ []

abbrev to_complete : List Op
to_complete = create 100 session_params ∷ put part_params ∷ complete 101 21 7 ∷ []

abbrev to_ready : List Op
to_ready =
    create 100 session_params
    ∷ put part_params
    ∷ complete 101 21 7
    ∷ claim unlocked 102 "w"
    ∷ succeed 103 outcome
    ∷ []

run-IsConsistent_example : IsConsistent (run text to_ready empty_db)
run-IsConsistent_example = run-IsConsistent text to_ready empty_db empty-IsConsistent

run-Steps_example : Steps (view empty_db) (view (run text to_ready empty_db))
run-Steps_example = run-Steps text to_ready empty_db empty-IsConsistent

walked : view (run text to_ready empty_db) 7 ≡ some ready
unfolding view run apply succeed_ingest_job claim_ingest_job complete_session put_part
    create_session
walked = refl

run-Terminal_example :
    view (run text (put part_params ∷ []) (run text to_ready empty_db)) 7 ≡ some ready
run-Terminal_example =
    run-Terminal text (put part_params ∷ []) (run text to_ready empty_db) 7 ready
      (run-IsConsistent text to_ready empty_db empty-IsConsistent) is_ready walked

abbrev uploaded : UploadDb
uploaded = run text to_upload empty_db

abbrev waits : UploadDb
waits = run text to_complete empty_db

-- The session at the end, as GetSession reads it.
abbrev session_at_end : Session
session_at_end = record {
  id = 7;
  expected_digest = digest;
  expected_size_bytes = pos 5;
  state = ready;
  storage_upload_id = "s3-1";
  staging_key = "staging/uploads/seven";
  media_type_hint = none;
  filename_hint = some "disk.img";
  completed_at = some 101;
  ingest_started_at = some 102;
  ready_at = some 103;
  failed_at = none;
  aborted_at = none;
  expires_at = 900;
  failure_message = none;
  ready_blob_digest = some digest;
}

found_at_end : find_session (run text to_ready empty_db) 7 ≡ some session_at_end
unfolding find_session run apply succeed_ingest_job claim_ingest_job complete_session put_part
    create_session
found_at_end = refl

abbrev completed_session : Session
completed_session = record session_at_end {
  state = completed;
  ingest_started_at = none;
  ready_at = none;
  ready_blob_digest = none;
}

completes : (complete_session 101 21 7 uploaded).0 ≡ ok completed_session
unfolding complete_session run apply put_part create_session
completes = refl

complete_session-again_example :
    complete_session 200 22 7 (complete_session 101 21 7 uploaded).1
    ≡ (ok completed_session, (complete_session 101 21 7 uploaded).1)
complete_session-again_example =
    complete_session-again 101 200 21 22 7 uploaded
      (run-IsConsistent text to_upload empty_db empty-IsConsistent) completes

has_name : validate_required_text "w" ≡ ok tt
unfolding validate_required_text
has_name = refl

abbrev queued_job : IngestJob
queued_job = record {
  id = 21;
  upload_id = 7;
  state = queued;
  attempt_count = 0;
  run_after = 101;
  locked_by = none;
  locked_at = none;
  started_at = none;
  finished_at = none;
  failure_message = none;
  blob_digest = none;
}

in_queue : find_ingest_job waits 21 ≡ some queued_job
unfolding find_ingest_job run apply complete_session put_part create_session
in_queue = refl

claim_ingest_job-takes_example :
    (j : IngestJob) × (find_ingest_job waits j.id ≡ some j)
    × IsDue unlocked 102 j
    × All (λ x. IsDue unlocked 102 x → IsNoLater j x) waits.jobs
    × (r : IngestJob) × IsTaken 102 "w" j r
    × ((claim_ingest_job unlocked 102 "w" waits).0 ≡ ok r)
    × (find_ingest_job (claim_ingest_job unlocked 102 "w" waits).1 j.id ≡ some r)
    × (s : Session) × (find_session (claim_ingest_job unlocked 102 "w" waits).1 j.upload_id
        ≡ some s)
    × (s.state ≡ ingesting)
claim_ingest_job-takes_example =
    claim_ingest_job-takes unlocked 102 "w" waits queued_job
      (run-IsConsistent text to_complete empty_db empty-IsConsistent) has_name in_queue
      (refl, refl, refl)

creates :
    (create_session text 100 session_params empty_db).0 ≡ ok (created_session text session_params)
unfolding create_session
creates = refl

get_session-create_session_example :
    (find_session empty_db 7 ≡ none)
    × IsNew text session_params (created_session text session_params)
    × (get_session 7 (create_session text 100 session_params empty_db).1 ≡ (
      ok (created_session text session_params),
      (create_session text 100 session_params empty_db).1,
    ))
    × ((n : ℕ)
        → (7 == n) ≡ false
        → find_session (create_session text 100 session_params empty_db).1 n
          ≡ find_session empty_db n)
get_session-create_session_example =
    get_session-create_session text 100 session_params empty_db creates

takes_part : validate_put_part_params part_params ≡ ok tt
unfolding validate_put_part_params
takes_part = refl

has_id : validate_upload_id 7 ≡ ok tt
unfolding validate_upload_id
has_id = refl

closed-refused_example :
    (put_part part_params (run text to_ready empty_db) ≡ refused (run text to_ready empty_db))
    × (abort_session 200 7 (run text to_ready empty_db) ≡ refused (run text to_ready empty_db))
    × (((session_at_end.state ≡ SessionState.failed) ⊎ (session_at_end.state ≡ aborted))
        → complete_session 200 22 7 (run text to_ready empty_db)
          ≡ refused (run text to_ready empty_db))
closed-refused_example =
    closed-refused 200 22 part_params (run text to_ready empty_db) session_at_end
      (run-IsConsistent text to_ready empty_db empty-IsConsistent) found_at_end refl takes_part
      has_id
