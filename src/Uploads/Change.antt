-- ===== src/Uploads/Change.antt =====
-- What a committed transaction of internal/store/postgres/uploads does to the tables: each kind of
-- change, with what the transaction has read before it.
use imgsrv.Prelude.{
  String, Bool, true, false, Option, some, List, ◌∷◌, ◌≡◌, ◌==◌, ◌⊎◌, All, any, find, update_where,
  count_where, str_eq,
}
use imgsrv.Publish.Domain.{Uuid, Time}
use imgsrv.Uploads.Domain.{
  created, completed, ingesting, ready, queued, running, SucceedIngestJobParams,
}
use imgsrv.Uploads.Tables.{Session, Part, IngestJob, CasBlob, UploadDb}
use imgsrv.Uploads.Statements.{
  mutable_session, with_part, in_state, now_ingesting, claimed_job, matches_blob, now_ready,
  now_failed, running_job, succeeded_job, failed_job,
}
use imgsrv.Uploads.Sessions.{now_completed, now_aborted}

-- How a session begins.
pub data IsStart (db : UploadDb) (s : Session) : Type 0 where
  at_created : s.state ≡ created → IsStart db s
  at_ready :
      s.state ≡ ready
      → s.ready_blob_digest ≡ some s.expected_digest
      → s.ingest_started_at ≡ Option.none
      → any (λ b. str_eq b.digest s.expected_digest) db.blobs ≡ true
      → IsStart db s

-- How an open session moves without a job.
pub data OpenMove : (Session → Session) → Type 0 where
  part : OpenMove with_part
  abort : (now : Time) → OpenMove (now_aborted now)

-- How a job and its session move: the sessions and the jobs that are updated, the updates, and the
-- table of blobs after.
pub data Hand (db : UploadDb) (j : IngestJob)
    : (Session → Bool)
      → (Session → Session)
      → (IngestJob → Bool)
      → (IngestJob → IngestJob)
      → List CasBlob
      → Type 0 where
  claim :
      (now : Time) (worker : String)
      → j.state ≡ queued
      → Hand db j
          (in_state j.upload_id completed)
          (now_ingesting now)
          (λ o. o.id == j.id)
          (claimed_job now worker)
          db.blobs
  succeed :
      (now : Time) (p : SucceedIngestJobParams) (mid : UploadDb)
      → j.state ≡ running
      → (p.id ≡ j.id)
      → (mid.blobs ≡ db.blobs) ⊎ ((b : CasBlob) × (mid.blobs ≡ b ∷ db.blobs))
      → Hand db j
          (matches_blob mid j.upload_id p)
          (now_ready now p.digest)
          (running_job p.id)
          (succeeded_job now p.digest)
          mid.blobs
  fail :
      (now : Time) (id : Uuid) (message : String)
      → j.state ≡ running
      → (id ≡ j.id)
      → Hand db j
          (in_state j.upload_id ingesting)
          (now_failed now message)
          (running_job id)
          (failed_job now message)
          db.blobs

pub data Change (db db' : UploadDb) : Type 0 where
  insert :
      (s : Session)
      → All (λ o. (o.id == s.id) ≡ false) db.sessions
      → IsStart db s
      → db' ≡ record db { sessions = s ∷ db.sessions }
      → Change db db'
  move :
      (id : Uuid) (F : Session → Session) (parts : List Part)
      → OpenMove F
      → db'
        ≡ record db { sessions = update_where (mutable_session id) F db.sessions; parts = parts }
      → Change db db'
  complete :
      (now : Time) (id : Uuid) (s : Session) (j : IngestJob)
      → find (mutable_session id) db.sessions ≡ some s
      → j.upload_id ≡ s.id
      → j.state ≡ queued
      → any (λ o. o.upload_id == s.id) db.jobs ≡ false
      → any (λ o. o.id == j.id) db.jobs ≡ false
      → db' ≡ record db {
        sessions = update_where (mutable_session id) (now_completed now) db.sessions;
        jobs = j ∷ db.jobs;
      }
      → Change db db'
  hand :
      (j : IngestJob) (P : Session → Bool) (F : Session → Session) (Q : IngestJob → Bool)
      (G : IngestJob → IngestJob) (blobs : List CasBlob)
      → Hand db j P F Q G blobs
      → All (λ o. (o.id == j.id) ≡ true → o ≡ j) db.jobs
      → find (λ o. o.id == j.id) db.jobs ≡ some j
      → count_where P db.sessions ≡ 1
      → db' ≡ record db {
        sessions = update_where P F db.sessions;
        jobs = update_where Q G db.jobs;
        blobs = blobs;
      }
      → Change db db'
