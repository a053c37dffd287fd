-- ===== src/Uploads/Statements.antt =====
-- The statements of internal/store/postgres/uploads (sessions.go, ingest.go), with the constraints of
-- migration 000001 that they meet. `now` is the time of the transaction.
use Prim.Native.String.{◌++◌}
use imgsrv.Prelude.{
  ℕ, ◌+◌, String, Bool, true, ◌&&◌, ◌||◌, not, Option, none, some, [], ◌∷◌, ◌==◌, str_eq, ltb, leb,
  ℤ, eqb_ℤ, if◌then◌else◌, any, find, update_where, count_where, least_where, drop_text, take_text,
  ok, err, ◌>>=◌, ◌>>◌, pure, fail, require, query, row, modify, upload_failed_precondition,
  pg_unique, pg_foreign_key, pg_check,
}
use imgsrv.Publish.Domain.{Uuid, Time}
use imgsrv.Uploads.Domain.{
  SessionState, created, uploading, completed, ingesting, ready, IngestJobState, queued, running,
  succeeded, is_session, is_ingest_job, SucceedIngestJobParams, PutPartParams,
}
use imgsrv.Uploads.Tables.{Session, Part, IngestJob, CasBlob, UploadDb, Tx}

unfoldable pub find_session : UploadDb → Uuid → Option Session
unfolding find
find_session db id = find (λ s. s.id == id) db.sessions

unfoldable pub find_ingest_job : UploadDb → Uuid → Option IngestJob
unfolding find
find_ingest_job db id = find (λ j. j.id == id) db.jobs

unfoldable pub find_blob : UploadDb → String → Option CasBlob
unfolding find
find_blob db digest = find (λ b. str_eq b.digest digest) db.blobs

-- `UPDATE upload_sessions SET f WHERE p`, and its command tag.
abbrev pub update_sessions : (Session → Bool) → (Session → Session) → Tx ℕ
update_sessions p f db =
    ok (count_where p db.sessions, record db { sessions = update_where p f db.sessions })

-- The same with RETURNING, read by QueryRow: at most one row matches.
abbrev pub update_session : (Session → Bool) → (Session → Session) → Tx (Option Session)
update_session p f db = ok (
  elim (find p db.sessions) [ none ↦ none | some s ↦ some (f s) ],
  record db { sessions = update_where p f db.sessions },
)

abbrev pub update_job : (IngestJob → Bool) → (IngestJob → IngestJob) → Tx IngestJob
update_job p f db = elim (find p db.jobs) [
  | none ↦ row (λ _. none) db
  | some j ↦ ok (f j, record db { jobs = update_where p f db.jobs })
]

abbrev pub require_one : Tx ℕ → Tx (Unit {0})
require_one m = m >>= λ n. require (n == 1) (upload_failed_precondition ∷ [])

-- No other session has the identity, the storage upload or the staging key.
abbrev pub is_taken : Session → Session → Bool
is_taken s o =
    o.id == s.id
    || str_eq o.storage_upload_id s.storage_upload_id
    || str_eq o.staging_key s.staging_key

abbrev pub has_referent : UploadDb → Option String → Bool
has_referent db none = true
has_referent db (some digest) = any (λ b. str_eq b.digest digest) db.blobs

-- INSERT INTO upload_sessions: the check of the expiry, the unique indexes, the foreign key.
unfoldable pub insert_session : Time → Session → Tx Session
unfolding any
insert_session now s = do
  require (ltb now s.expires_at) (pg_check ∷ [])
  taken ← query (λ db. any (is_taken s) db.sessions)
  require (not taken) (pg_unique ∷ [])
  referent ← query (λ db. has_referent db s.ready_blob_digest)
  require referent (pg_foreign_key ∷ [])
  modify (λ db. record db { sessions = s ∷ db.sessions })
  pure s

abbrev pub accepts_parts : SessionState → Bool
accepts_parts st = is_session st created || is_session st uploading

unfoldable pub mutable_session : Uuid → Session → Bool
mutable_session id s = s.id == id && accepts_parts s.state

abbrev pub with_part : Session → Session
with_part s = record s { state = if is_session s.state created then uploading else s.state }

abbrev accepted_or_refused : ℕ → Uuid → Tx (Unit {0})
unfolding find_session
accepted_or_refused n id =
    if n == 1
    then pure tt
    else (row (λ db. find_session db id) >>= λ _. fail (upload_failed_precondition ∷ []))

unfoldable pub require_mutable_upload_session : Uuid → Tx (Unit {0})
unfolding update_where count_where find_session mutable_session
require_mutable_upload_session id = do
  n ← update_sessions (mutable_session id) with_part
  accepted_or_refused n id

abbrev same_part : PutPartParams → Part → Bool
same_part p o = o.upload_id == p.upload_id && eqb_ℤ o.part_number p.part_number

-- INSERT INTO upload_parts ... ON CONFLICT DO UPDATE.
unfoldable pub upsert_part : PutPartParams → Tx Part
unfolding any update_where
upsert_part p db =
    let new : Part = record {
      upload_id = p.upload_id;
      part_number = p.part_number;
      etag = p.etag;
      size_bytes = p.size_bytes;
    } in
    let replaced =
      update_where (same_part p) (λ o. record o { etag = p.etag; size_bytes = p.size_bytes })
        db.parts in
    ok (new, record db { parts = if any (same_part p) db.parts then replaced else new ∷ db.parts })

abbrev pub or_now : Option Time → Time → Option Time
or_now none now = some now
or_now (some t) now = some t

abbrev pub new_ingest_job : Time → Uuid → Uuid → IngestJob
new_ingest_job now id upload_id = record {
  id = id;
  upload_id = upload_id;
  state = queued;
  attempt_count = 0;
  run_after = now;
  locked_by = none;
  locked_at = none;
  started_at = none;
  finished_at = none;
  failure_message = none;
  blob_digest = none;
}

-- queueIngestJob: ON CONFLICT (upload_id) DO NOTHING. The identity is fresh: uuid.New.
unfoldable pub queue_ingest_job : Time → Uuid → Session → Tx Session
unfolding any
queue_ingest_job now id s db =
    if any (λ j. j.upload_id == s.id) db.jobs
    then ok (s, db)
    else if any (λ j. j.id == id) db.jobs
    then err (pg_unique ∷ [])
    else ok (s, record db { jobs = new_ingest_job now id s.id ∷ db.jobs })

-- The WHERE of claimIngestJob. `locked` holds the rows that other transactions lock: SKIP LOCKED.
unfoldable pub claimable_job : (Uuid → Bool) → Time → IngestJob → Bool
claimable_job locked now j =
    is_ingest_job j.state queued && leb j.run_after now && not (locked j.id)

-- ORDER BY run_after, id.
unfoldable pub job_before : IngestJob → IngestJob → Bool
job_before i j = if i.run_after == j.run_after then ltb i.id j.id else ltb i.run_after j.run_after

abbrev pub claimed_job : Time → String → IngestJob → IngestJob
claimed_job now worker j = record j {
  state = running;
  attempt_count = j.attempt_count + 1;
  locked_by = some worker;
  locked_at = some now;
  started_at = or_now j.started_at now;
}

unfoldable pub claim_job : (Uuid → Bool) → Time → String → Tx IngestJob
unfolding claimable_job job_before least_where update_where find
claim_job locked now worker = do
  next ← row (λ db. least_where job_before (claimable_job locked now) db.jobs)
  update_job (λ j. j.id == next.id) (claimed_job now worker)

unfoldable pub lock_running_job : Uuid → Tx IngestJob
unfolding find_ingest_job
lock_running_job id = do
  j ← row (λ db. find_ingest_job db id)
  require (is_ingest_job j.state running) (upload_failed_precondition ∷ [])
  pure j

abbrev pub in_state : Uuid → SessionState → Session → Bool
in_state id st s = s.id == id && is_session s.state st

abbrev pub now_ingesting : Time → Session → Session
now_ingesting now s = record s {
  state = ingesting;
  ingest_started_at = or_now s.ingest_started_at now;
}

unfoldable pub mark_session_ingesting : Time → Uuid → Tx (Unit {0})
unfolding update_where count_where
mark_session_ingesting now id =
    require_one (update_sessions (in_state id completed) (now_ingesting now))

-- The check on cas_blobs.storage_key: 'cas/sha256/' || substr(digest, 8, 2) || '/' ||
-- substr(digest, 10, 2) || '/' || substr(digest, 8).
unfoldable pub checked_storage_key : String → String
unfolding drop_text take_text
checked_storage_key digest =
    "cas/sha256/"
    ++ take_text 2 (drop_text 7 digest)
    ++ "/"
    ++ take_text 2 (drop_text 9 digest)
    ++ "/"
    ++ drop_text 7 digest

abbrev pub new_blob : Time → SucceedIngestJobParams → CasBlob
new_blob now p = record {
  digest = p.digest;
  size_bytes = p.size_bytes;
  storage_key = p.storage_key;
  media_type = p.media_type;
  verified_at = now;
}

-- ensureCASBlob: ON CONFLICT (digest) DO NOTHING, after the row's checks.
unfoldable pub ensure_cas_blob : Time → SucceedIngestJobParams → Tx (Unit {0})
unfolding checked_storage_key any
ensure_cas_blob now p = do
  require (str_eq p.storage_key (checked_storage_key p.digest)) (pg_check ∷ [])
  known ← query (λ db. any (λ b. str_eq b.digest p.digest) db.blobs)
  taken ← query (λ db. any (λ b. str_eq b.storage_key p.storage_key) db.blobs)
  require (known || not taken) (pg_unique ∷ [])
  modify (λ db. record db { blobs = if known then db.blobs else new_blob now p ∷ db.blobs })

unfoldable pub is_verified : UploadDb → String → ℤ → Bool
unfolding any
is_verified db digest size = any (λ b. str_eq b.digest digest && eqb_ℤ b.size_bytes size) db.blobs

-- The WHERE of markSessionReady.
unfoldable pub matches_blob : UploadDb → Uuid → SucceedIngestJobParams → Session → Bool
unfolding is_verified
matches_blob db id p s =
    in_state id ingesting s
    && str_eq s.expected_digest p.digest
    && eqb_ℤ s.expected_size_bytes p.size_bytes
    && is_verified db p.digest p.size_bytes

abbrev pub now_ready : Time → String → Session → Session
now_ready now digest s = record s {
  state = ready;
  ready_at = some now;
  ready_blob_digest = some digest;
}

unfoldable pub mark_session_ready : Time → Uuid → SucceedIngestJobParams → Tx (Unit {0})
unfolding matches_blob update_where count_where
mark_session_ready now id p db =
    require_one (update_sessions (matches_blob db id p) (now_ready now p.digest)) db

abbrev pub now_failed : Time → String → Session → Session
now_failed now message s = record s {
  state = SessionState.failed;
  failed_at = some now;
  failure_message = some message;
}

unfoldable pub mark_session_failed : Time → Uuid → String → Tx (Unit {0})
unfolding update_where count_where
mark_session_failed now id message =
    require_one (update_sessions (in_state id ingesting) (now_failed now message))

abbrev pub running_job : Uuid → IngestJob → Bool
running_job id j = j.id == id && is_ingest_job j.state running

abbrev pub succeeded_job : Time → String → IngestJob → IngestJob
succeeded_job now digest j = record j {
  state = succeeded;
  finished_at = some now;
  blob_digest = some digest;
  locked_by = none;
  locked_at = none;
}

unfoldable pub mark_job_succeeded : Time → Uuid → String → Tx IngestJob
unfolding update_where find
mark_job_succeeded now id digest = update_job (running_job id) (succeeded_job now digest)

abbrev pub failed_job : Time → String → IngestJob → IngestJob
failed_job now message j = record j {
  state = IngestJobState.failed;
  finished_at = some now;
  failure_message = some message;
  locked_by = none;
  locked_at = none;
}

unfoldable pub mark_job_failed : Time → Uuid → String → Tx IngestJob
unfolding update_where find
mark_job_failed now id message = update_job (running_job id) (failed_job now message)
