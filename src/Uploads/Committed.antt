-- ===== src/Uploads/Committed.antt =====
-- Each transaction of internal/store/postgres/uploads that commits is one change of the tables.
use imgsrv.Prelude.{
  String, true, false, not, [], ◌∷◌, ◌≡◌, refl, ap, ◌∙◌, ◌==◌, inl, inr, ◌⊎◌, ltb, any, any-false,
  All, All-map, find, Option-cases, ok, fail, row, bind-elim, bind-require, arith, pg_check,
  pg_unique, pg_foreign_key, upload_failed_precondition,
}
use imgsrv.Publish.Domain.{Uuid, Time}
use imgsrv.Uploads.Domain.{CreateSessionParams, CreateReadySessionParams, PutPartParams}
use imgsrv.Uploads.Tables.{Session, Part, UploadDb}
use imgsrv.Uploads.Statements.{
  find_session, insert_session, is_taken, has_referent, mutable_session, with_part,
  require_mutable_upload_session, upsert_part,
}
use imgsrv.Uploads.Sessions.{
  created_session, ready_session, put_part_tx, now_aborted, abort_session_tx,
}
use imgsrv.Uploads.Outcomes.{require_mutable-ok}
use imgsrv.Uploads.Change
use imgsrv.Uploads.Change.{Change, IsStart, at_created, at_ready}

-- Insertion.
module _ (now : Time) (s : Session) (db : UploadDb) where
  pub insert_session-ok :
      {a : Session} {db' : UploadDb}
      → insert_session now s db ≡ ok (a, db')
      → (a ≡ s)
        × All (λ o. (o.id == s.id) ≡ false) db.sessions
        × (has_referent db s.ready_blob_digest ≡ true)
        × (db' ≡ record db { sessions = s ∷ db.sessions })
  unfolding insert_session
  insert_session-ok h = bind-require (ltb now s.expires_at) (pg_check ∷ []) _ db h (λ _ h1.
      bind-require (not (any (is_taken s) db.sessions)) (pg_unique ∷ []) _ db h1 (λ free h2.
        bind-require (has_referent db s.ready_blob_digest) (pg_foreign_key ∷ []) _ db h2
          (λ known h3. (
            ground (arith, h3),
            All-map (λ o. is_taken s o ≡ false) (λ o. (o.id == s.id) ≡ false) db.sessions
                (λ o e. ground (arith, e))
                (any-false (is_taken s) db.sessions (ground (arith, free))),
            known,
            ground (arith, h3),
          ))))

-- No row is written, or one change is made.
abbrev pub IsMade : UploadDb → UploadDb → Type 0
IsMade db db' = (db' ≡ db) ⊎ Change db db'

pub create-IsMade :
    (uuid_text : Uuid → String) (now : Time) (p : CreateSessionParams) (db : UploadDb) {a : Session}
    {db' : UploadDb}
    → insert_session now (created_session uuid_text p) db ≡ ok (a, db')
    → IsMade db db'
unfolding created_session
create-IsMade uuid_text now p db h =
    let (_, fresh, _, e) = insert_session-ok now (created_session uuid_text p) db h in
    inr (Change.insert (created_session uuid_text p) fresh (at_created refl) e)

pub create_ready-IsMade :
    (uuid_text : Uuid → String) (now : Time) (p : CreateReadySessionParams) (db : UploadDb)
    {a : Session} {db' : UploadDb}
    → insert_session now (ready_session uuid_text now p) db ≡ ok (a, db')
    → IsMade db db'
unfolding ready_session
create_ready-IsMade uuid_text now p db h =
    let (_, fresh, known, e) = insert_session-ok now (ready_session uuid_text now p) db h in
    inr (Change.insert (ready_session uuid_text now p) fresh (at_ready refl refl refl known) e)

pub put_part-IsMade :
    (p : PutPartParams) (db : UploadDb) {a : Part} {db' : UploadDb}
    → put_part_tx p db ≡ ok (a, db')
    → IsMade db db'
unfolding put_part_tx upsert_part
put_part-IsMade p db {a} {db'} h =
    bind-elim (require_mutable_upload_session p.upload_id) _ db h (λ _ mid first rest.
      let (_, moved) = require_mutable-ok p.upload_id db first in
      inr (
        Change.move p.upload_id with_part db'.parts Change.part
          (ground (arith, rest) ∙ ap (λ (d : UploadDb). record d { parts = db'.parts }) moved)))

pub abort-IsMade :
    (now : Time) (id : Uuid) (db : UploadDb) {a : Session} {db' : UploadDb}
    → abort_session_tx now id db ≡ ok (a, db')
    → IsMade db db'
unfolding abort_session_tx find_session
abort-IsMade now id db h = elim (Option-cases (find (mutable_session id) db.sessions)) [
  | inr (s, e) ↦
      inr (Change.move id (now_aborted now) db.parts (Change.abort now) (ground (arith, rw e at h)))
  | inl e ↦ absurd (
      bind-elim (row (λ d. find_session d id)) (λ _. fail (upload_failed_precondition ∷ [])) _
        (rw e at h) (λ x mid first rest. cc (rest)))
]
