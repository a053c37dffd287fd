-- ===== src/Uploads/Completing.antt =====
-- CompleteSession of internal/store/postgres/uploads/sessions.go may be called again.
use imgsrv.Prelude.{
  false, none, some, ◌∷◌, ◌≡◌, refl, sym, ap, subst, ◌∙◌, ◌==◌, inl, inr, any, All-find,
  All-update_where, everywhere, find, find-none_of_All, find-update_where, find-by_key, find-IsSole,
  update_where, update_where-none, Option-cases, Bool-cases, ok, ◌>>=◌, row, bind-elim, row-ok,
  transact, validated, validated-transact-ok, arith,
}
use imgsrv.Publish.Domain.{Uuid, Time}
use imgsrv.Uploads.Domain.{validate_upload_id}
use imgsrv.Uploads.Tables.{Session, UploadDb, map_upload_error}
use imgsrv.Uploads.Statements.{find_session, mutable_session, queue_ingest_job, new_ingest_job}
use imgsrv.Uploads.Sessions.{now_completed, completed_before, complete_session_tx, complete_session}
use imgsrv.Uploads.Consistent.{IsConsistent}
use imgsrv.Uploads.Reach.{no_job}

-- A session that CompleteSession returns without writing.
settled :
    (now : Time) (job_id id : Uuid) (db : UploadDb) (s : Session)
    → find (mutable_session id) db.sessions ≡ none
    → find (λ o. o.id == id) db.sessions ≡ some s
    → completed_before s db ≡ ok (s, db)
    → complete_session_tx now job_id id db ≡ ok (s, db)
unfolding complete_session_tx find_session
settled now job_id id db s idle found done =
    let kept = update_where-none (mutable_session id) (now_completed now) db.sessions idle in
    let still : record db {
      sessions = update_where (mutable_session id) (now_completed now) db.sessions;
    }
        ≡ db =
      ap (λ ss. record db { sessions = ss }) kept in
    rw (idle, kept, ◌>>=◌, row, found)
      (subst (λ d. completed_before s d ≡ ok (s, db)) (sym still) done)

-- The transaction leaves a session that it may return again.
module _ (now now' : Time) (job_id job_id' id : Uuid) (db : UploadDb) (w : IsConsistent db) where
  complete_tx-again :
      {s : Session} {db' : UploadDb}
      → complete_session_tx now job_id id db ≡ ok (s, db')
      → complete_session_tx now' job_id' id db' ≡ ok (s, db')
  unfolding complete_session_tx find_session queue_ingest_job mutable_session
  complete_tx-again {s} {db'} h = elim (Option-cases (find (mutable_session id) db.sessions)) [
    | inl e ↦
        let idle = update_where-none (mutable_session id) (now_completed now) db.sessions e in
        bind-elim (row (λ d. find_session d id)) completed_before _ (rw (e, idle) at h)
          (λ x mid first rest.
            let (found, same) = row-ok (λ d. find_session d id) db first in
            let back = returned x mid rest in
            let at_db : db' ≡ db = back.1 ∙ same in
            subst (λ (r : Session × UploadDb). complete_session_tx now' job_id' id r.1 ≡ ok r)
              (sym (pair back.0 at_db))
              (settled now' job_id' id db x e found
                (subst (λ d. completed_before x d ≡ ok (x, d)) same (again x mid rest))))
    | inr (x, e) ↦
        let free = no_job db id x w e in
        elim (Bool-cases (any (λ j. j.id == job_id) db.jobs)) [
          | inl taken ↦ absurd (cc (rw (e, free, taken) at h))
          | inr fresh ↦
              let made = rw (e, free, fresh) at h in
              let done = record db {
                sessions = update_where (mutable_session id) (now_completed now) db.sessions;
                jobs = new_ingest_job now job_id x.id ∷ db.jobs;
              } in
              let at_x : s ≡ now_completed now x = ground (arith, made) in
              let at_done : db' ≡ done = ground (arith, made) in
              subst (λ (r : Session × UploadDb). complete_session_tx now' job_id' id r.1 ≡ ok r)
                (sym (pair at_x at_done))
                (settled now' job_id' id done (now_completed now x) closed (found_after x e) refl)
        ]
  ]
    where
      closed :
          find
            (mutable_session id)
            (update_where (mutable_session id) (now_completed now) db.sessions)
          ≡ none
      closed = find-none_of_All (mutable_session id) _ (
          All-update_where (λ _. Unit {0}) (λ o. mutable_session id o ≡ false) (mutable_session id)
            (now_completed now) db.sessions (λ o _ _. ground arith) (λ o _ e. e)
            (everywhere _ (λ _. tt) db.sessions))

      found_after :
          (x : Session)
          → find (mutable_session id) db.sessions ≡ some x
          → find
              (λ o. o.id == id)
              (update_where (mutable_session id) (now_completed now) db.sessions)
            ≡ some (now_completed now x)
      found_after x e =
          let sole =
            find-IsSole (λ (o : Session). o.id) (mutable_session id) db.sessions w.sessions e in
          let at_x = find-by_key (λ (o : Session). o.id) (mutable_session id) db.sessions sole e in
          let fit =
            (All-find (λ _. Unit {0}) (mutable_session id) db.sessions
              (everywhere _ (λ _. tt) db.sessions) e).1 in
          let at_id : x.id ≡ id = ground (arith, fit) in
          let m =
            find-update_where (λ o. o.id == id) (mutable_session id) (now_completed now) db.sessions
              (λ _. refl) (subst (λ n. find (λ o. o.id == n) db.sessions ≡ some x) at_id at_x) in
          rw fit at m

      pair :
          {x : Session} {d : UploadDb}
          → s ≡ x
          → db' ≡ d
          → ◌≡◌ {A = Session × UploadDb} (s, db') (x, d)
      pair a b = λ i. (a i, b i)

      returned :
          (x : Session) (d : UploadDb) → completed_before x d ≡ ok (s, db') → (s ≡ x) × (db' ≡ d)
      returned x d e = (ground (arith, e), ground (arith, e))

      again :
          (x : Session) (d : UploadDb)
          → completed_before x d ≡ ok (s, db')
          → completed_before x d ≡ ok (x, d)
      again x d e = ground (arith, e)

-- A call of CompleteSession that has succeeded, repeated at any later time, returns the same session
-- and changes nothing. The tables are consistent.
pub complete_session-again :
    (now now' : Time) (job_id job_id' id : Uuid) (db : UploadDb) {s : Session}
    → IsConsistent db
    → (complete_session now job_id id db).0 ≡ ok s
    → complete_session now' job_id' id (complete_session now job_id id db).1
      ≡ (ok s, (complete_session now job_id id db).1)
unfolding complete_session
complete_session-again now now' job_id job_id' id db w h =
    let (fine, done) =
      validated-transact-ok (validate_upload_id id) map_upload_error
        (complete_session_tx now job_id id) db h in
    repeated fine _ (complete_tx-again now now' job_id job_id' id db w done)
  where
    repeated :
        {s : Session}
        → validate_upload_id id ≡ ok tt
        → (d : UploadDb) → complete_session_tx now' job_id' id d ≡ ok (s, d)
        → complete_session now' job_id' id d ≡ (ok s, d)
    repeated fine d h = rw (fine, validated, transact, h) refl
