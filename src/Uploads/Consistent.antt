-- ===== src/Uploads/Consistent.antt =====
-- What the tables of internal/store/postgres/uploads keep: keys, the agreement of a session with its
-- ingest job, and the blob behind a session that is ready.
use imgsrv.Prelude.{
  Bool, true, ◌&&◌, ◌||◌, some, List, ◌∷◌, ◌≡◌, refl, ◌==◌, ==_iff, str_eq, eqb_ℤ, is_some, not,
  any, any-update_where, All, All-map, All-zip, All-update_where, update_where, IsDistinct, arith,
}
use imgsrv.Publish.Domain.{Uuid}
use imgsrv.Uploads.Domain.{
  SessionState, completed, ingesting, ready, IngestJobState, queued, running, succeeded,
}
use imgsrv.Uploads.Tables.{Session, IngestJob, CasBlob, UploadDb}

-- The state of a session whose ingest job is in a state.
abbrev pub state_of : IngestJobState → SessionState
state_of queued = completed
state_of running = ingesting
state_of succeeded = ready
state_of IngestJobState.failed = SessionState.failed

-- The jobs of each session agree with it.
abbrev pub Agrees : Session → IngestJob → Type 0
Agrees s j = (j.upload_id == s.id) ≡ true → s.state ≡ state_of j.state

abbrev pub IsAgreed : List Session → List IngestJob → Type 0
IsAgreed ss js = All (λ s. All (Agrees s) js) ss

abbrev pub has_session : List Session → Uuid → Bool
has_session ss id = any (λ s. s.id == id) ss

abbrev pub IsAttached : List Session → List IngestJob → Type 0
IsAttached ss js = All (λ j. has_session ss j.upload_id ≡ true) js

-- The blob has the session's digest, and its size if the session was ingested.
abbrev pub backs : Session → CasBlob → Bool
backs s b =
    str_eq b.digest s.expected_digest
    && (not (is_some s.ingest_started_at) || eqb_ℤ b.size_bytes s.expected_size_bytes)

abbrev pub IsBacked : List CasBlob → Session → Type 0
IsBacked bs s =
    s.state ≡ ready → (s.ready_blob_digest ≡ some s.expected_digest) × (any (backs s) bs ≡ true)

pub record IsConsistent (db : UploadDb) : Type 0 where
  pub sessions : IsDistinct (λ (s : Session). s.id) db.sessions
  pub jobs : IsDistinct (λ (j : IngestJob). j.id) db.jobs
  pub uploads : IsDistinct (λ (j : IngestJob). j.upload_id) db.jobs
  pub attached : IsAttached db.sessions db.jobs
  pub agreed : IsAgreed db.sessions db.jobs
  pub backed : All (IsBacked db.blobs) db.sessions

-- Sessions that move from a state that no job has keep in agreement.
pub IsAgreed-update_where :
    (P : Session → Bool) (F : Session → Session) (ss : List Session) (js : List IngestJob)
    → ((s : Session) → (F s).id ≡ s.id)
    → ((s : Session) → P s ≡ true → (st : IngestJobState) → s.state ≡ state_of st → ⊥)
    → IsAgreed ss js
    → IsAgreed (update_where P F ss) js
IsAgreed-update_where P F ss js same apart =
    All-update_where (λ s. All (Agrees s) js) (λ s. All (Agrees s) js) P F ss
      (λ s a e.
        All-map (Agrees s) (Agrees (F s)) js
          (λ j h t. absurd (apart s e j.state (h (rw same at t)))) a)
      (λ s a _. a)

-- A session and its job move together.
module _ (u : Uuid) (P : Session → Bool) (F : Session → Session) where
  module _ (Q : IngestJob → Bool) (G : IngestJob → IngestJob) where
    pub IsAgreed-move :
        (ss : List Session) (js : List IngestJob)
        → ((s : Session) → (F s).id ≡ s.id)
        → ((j : IngestJob) → (G j).upload_id ≡ j.upload_id)
        → All (λ s. P s ≡ (s.id == u)) ss
        → All (λ j. Q j ≡ (j.upload_id == u)) js
        → ((s : Session) (j : IngestJob) → (F s).state ≡ state_of (G j).state)
        → IsAgreed ss js
        → IsAgreed (update_where P F ss) (update_where Q G js)
    IsAgreed-move ss js same same_upload at_u of_u agree a =
        All-update_where (λ s. (P s ≡ (s.id == u)) × All (Agrees s) js)
          (λ s. All (Agrees s) (update_where Q G js)) P F ss
          (λ s h e.
            All-update_where (λ j. Q j ≡ (j.upload_id == u)) (Agrees (F s)) Q G js
              (λ j _ _ _. agree s j)
              (λ j q n t.
                let at_s : j.upload_id ≡ s.id = (==_iff j.upload_id s.id).0 (rw same at t) in
                absurd (ground (arith, at_s, h.0, e, q, n)))
              of_u)
          (λ s h e.
            All-update_where (λ j. (Q j ≡ (j.upload_id == u)) × Agrees s j) (Agrees s) Q G js
              (λ j q m t.
                let at_s : j.upload_id ≡ s.id = (==_iff j.upload_id s.id).0 (rw same_upload at t) in
                absurd (ground (arith, at_s, h.0, e, q.0, m)))
              (λ j q _. q.1) (All-zip (λ j. Q j ≡ (j.upload_id == u)) (Agrees s) js of_u h.1))
          (All-zip (λ s. P s ≡ (s.id == u)) (λ s. All (Agrees s) js) ss at_u a)

-- Sessions keep their jobs' references when they keep their identities.
pub IsAttached-update_where :
    (P : Session → Bool) (F : Session → Session) (ss : List Session) (js : List IngestJob)
    → ((s : Session) → (F s).id ≡ s.id)
    → IsAttached ss js
    → IsAttached (update_where P F ss) js
IsAttached-update_where P F ss js same =
    All-map (λ j. has_session ss j.upload_id ≡ true) _ js
      (λ j h. rw (any-update_where (λ s. s.id == j.upload_id) P F ss (λ s. rw same refl)) h)

-- A blob more does not take away what stands behind a session.
pub IsBacked-cons :
    (b : CasBlob) (bs : List CasBlob) (s : Session) → IsBacked bs s → IsBacked (b ∷ bs) s
unfolding any
IsBacked-cons b bs s h r = let (d, a) = h r in (d, ground (arith, a))
