-- ===== src/Uploads/Closed.antt =====
-- The operations of internal/store/postgres/uploads/sessions.go on a session that is not open.
use imgsrv.Prelude.{
  true, false, some, [], ◌∷◌, ◌≡◌, refl, sym, subst, ◌==◌, ==_iff, inl, inr, ◌⊎◌, All, All-map,
  All-find, everywhere, find, find-none_of_All, find-IsSole, update_where-none, count_where-none,
  IsSole, Bool-cases, ok, err, Result, ◌>>=◌, row, transact, validated, upload_failed_precondition,
}
use imgsrv.Publish.Domain.{Uuid, Time}
use imgsrv.Uploads.Domain.{
  failed, aborted, PutPartParams, validate_upload_id, validate_put_part_params,
}
use imgsrv.Uploads.Tables.{Session, UploadDb, map_upload_error}
use imgsrv.Uploads.Statements.{
  find_session, mutable_session, accepts_parts, with_part, require_mutable_upload_session,
}
use imgsrv.Uploads.Sessions.{
  put_part_tx, put_part, abort_session_tx, abort_session, now_aborted, complete_session_tx,
  complete_session, now_completed,
}
use imgsrv.Uploads.Consistent.{IsConsistent}

-- The call is refused with ErrFailedPrecondition and writes nothing.
abbrev pub refused : {A : Type 0} → UploadDb → Result A × UploadDb
refused db = (err (upload_failed_precondition ∷ []), db)

none_open :
    (db : UploadDb) (id : Uuid) (s : Session)
    → IsConsistent db
    → find_session db id ≡ some s
    → accepts_parts s.state ≡ false
    → All (λ o. mutable_session id o ≡ false) db.sessions
unfolding find_session mutable_session
none_open db id s w found closed =
    All-map (λ o. (o.id == s.id) ≡ true → o ≡ s) (λ o. mutable_session id o ≡ false) db.sessions
      (λ o sole. elim (Bool-cases (o.id == id)) [
        | inr n ↦ rw n refl
        | inl t ↦
            let e = sole (subst (λ n. (o.id == n) ≡ true) (sym at_id) t) in
            let c : accepts_parts o.state ≡ false =
              subst (λ (x : Session). accepts_parts x.state ≡ false) (sym e) closed in
            rw (t, c) refl
      ])
      only
  where
    only : IsSole (λ (o : Session). o.id) db.sessions s
    only = find-IsSole (λ (o : Session). o.id) (λ o. o.id == id) db.sessions w.sessions found

    at_id : s.id ≡ id
    at_id =
        (==_iff s.id id).0
          (All-find (λ _. Unit {0}) (λ o. o.id == id) db.sessions
            (everywhere _ (λ _. tt) db.sessions) found).1

-- A session that is past uploading takes no part and is not aborted, and one that has failed or been aborted is
-- not completed: each call with valid parameters is refused with ErrFailedPrecondition and writes
-- nothing. The tables are consistent.
pub closed-refused :
    (now : Time) (job_id : Uuid) (p : PutPartParams) (db : UploadDb) (s : Session)
    → IsConsistent db
    → find_session db p.upload_id ≡ some s
    → accepts_parts s.state ≡ false
    → validate_put_part_params p ≡ ok tt
    → validate_upload_id p.upload_id ≡ ok tt
    → (put_part p db ≡ refused db)
      × (abort_session now p.upload_id db ≡ refused db)
      × (((s.state ≡ failed) ⊎ (s.state ≡ aborted))
          → complete_session now job_id p.upload_id db ≡ refused db)
unfolding put_part put_part_tx require_mutable_upload_session abort_session abort_session_tx
    complete_session complete_session_tx map_upload_error find_session
closed-refused now job_id p db s w found closed fine_p fine =
    let id = p.upload_id in
    let seen : find (λ o. o.id == id) db.sessions ≡ some s = found in
    let shut = none_open db id s w found closed in
    let none_found = find-none_of_All (mutable_session id) db.sessions shut in
    let none_hit = count_where-none (mutable_session id) db.sessions shut in
    (
      rw
          (
            fine_p,
            validated,
            transact,
            ◌>>=◌,
            none_hit,
            row,
            update_where-none (mutable_session id) with_part db.sessions none_found,
            seen,
          )
          refl,
      rw
          (
            fine,
            validated,
            transact,
            ◌>>=◌,
            none_found,
            row,
            update_where-none (mutable_session id) (now_aborted now) db.sessions none_found,
            seen,
          )
          refl,
      λ bad. elim bad [
        | inl e ↦
            rw
              (
                fine,
                validated,
                transact,
                ◌>>=◌,
                none_found,
                row,
                update_where-none (mutable_session id) (now_completed now) db.sessions none_found,
                seen,
                e,
              )
              refl
        | inr e ↦
            rw
              (
                fine,
                validated,
                transact,
                ◌>>=◌,
                none_found,
                row,
                update_where-none (mutable_session id) (now_completed now) db.sessions none_found,
                seen,
                e,
              )
              refl
      ],
    )
