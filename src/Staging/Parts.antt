-- ===== src/Staging/Parts.antt =====
-- What PutUploadPart of internal/uploads/service.go has seen and done when it succeeds.
use imgsrv.Prelude.{
  ℕ, true, false, not, ◌||◌, List, some, ◌≡◌, refl, sym, ap, ◌∙◌, subst, ◌⊎◌, inl, inr, ◌==◌, ltb,
  Bool-cases, Result-cases, Result, ok, find, find-update_where, arith, All-find, everywhere,
  bind-elim, validated-transact-ok, if◌then◌else◌,
}
use imgsrv.Publish.Domain.{Uuid, Time}
use imgsrv.Uploads.Domain.{
  SessionState, created, uploading, is_session, PutPartParams, validate_put_part_params,
}
use imgsrv.Uploads.Tables.{Session, Part, UploadDb, map_upload_error}
use imgsrv.Uploads.Statements.{
  find_session, accepts_parts, mutable_session, with_part, upsert_part,
  require_mutable_upload_session,
}
use imgsrv.Uploads.Sessions.{get_session, put_part, put_part_tx}
use imgsrv.Uploads.Outcomes.{require_mutable-ok}
use imgsrv.Multipart.Parts.{CompletePart}
use imgsrv.Cas.World.{World, on_db, on_objects}
use imgsrv.Staging.Objects.{Service, StagedPartParams}
use imgsrv.Staging.Service.{
  PutUploadPartParams, validate_put_upload_part_params, upload_expired, accepted_part, put_into,
  put_upload_part,
}
use imgsrv.Staging.Evidence.{bind-ok, get_session-ok}
use imgsrv.Staging.Once.{get_session-keeps}

-- The row of a part.
abbrev pub stored_part : Uuid → CompletePart → Part
stored_part id c = record {
  upload_id = id;
  part_number = c.number;
  etag = c.etag;
  size_bytes = c.size_bytes;
}

-- PutPart returns the row, and leaves an open session uploading.
put_part-uploading :
    (p : PutPartParams) (db : UploadDb) {a : Part} {s : Session}
    → find_session db p.upload_id ≡ some s
    → accepts_parts s.state ≡ true
    → (put_part p db).0 ≡ ok a
    → (a ≡ record {
      upload_id = p.upload_id;
      part_number = p.part_number;
      etag = p.etag;
      size_bytes = p.size_bytes;
    })
      × (t : Session) × (find_session (put_part p db).1 p.upload_id ≡ some t)
      × (t.state ≡ uploading)
unfolding put_part put_part_tx upsert_part find_session mutable_session
put_part-uploading p db {a} {s} found accepts h =
    let (fine, done) =
      validated-transact-ok (validate_put_part_params p) map_upload_error (put_part_tx p) db h in
    bind-elim (require_mutable_upload_session p.upload_id) _ db done (λ _ mid first rest.
      let (_, moved) = require_mutable-ok p.upload_id db first in
      let sessions : (put_part p db).1.sessions ≡ mid.sessions = ground (arith, rest) in
      let there =
        find-update_where (λ (o : Session). o.id == p.upload_id) (mutable_session p.upload_id)
          with_part db.sessions (λ _. refl) found in
      let at_id =
        (All-find (λ (_ : Session). Unit {0}) (λ o. o.id == p.upload_id) db.sessions
          (everywhere _ (λ _. tt) db.sessions) found).1 in
      (
        ground (arith, rest),
        with_part s,
        ap (find (λ (o : Session). o.id == p.upload_id))
              (sessions ∙ ap (λ (d : UploadDb). d.sessions) moved)
            ∙ rw (at_id, accepts, mutable_session) at there,
        now_uploading s.state accepts,
      ))
  where
    now_uploading :
        (st : SessionState)
        → accepts_parts st ≡ true
        → (if is_session st created then uploading else st) ≡ uploading
    now_uploading st e = ground (arith, e)

-- A session takes parts in one of two states.
open_state : (st : SessionState) → accepts_parts st ≡ true → (st ≡ created) ⊎ (st ≡ uploading)
open_state created e = inl refl
open_state uploading e = inr refl
open_state _ e = absurd (cc)

-- An upload that has not expired has no expiry, or one to come.
not_expired :
    (now : Time) (s : Session)
    → upload_expired now s ≡ false
    → (s.expires_at ≡ 0) ⊎ (ltb now s.expires_at ≡ true)
unfolding upload_expired
not_expired now s e = elim (Bool-cases (ltb now s.expires_at)) [
  | inl t ↦ inr t
  | inr n ↦ inl (ground (arith, e, n))
]

-- The bytes that a valid request brings.
body_of :
    (p : PutUploadPartParams) {bytes : List ℕ}
    → validate_put_upload_part_params p ≡ ok bytes
    → p.body ≡ some bytes
unfolding validate_put_upload_part_params
body_of p h = ground (arith, h)

module _ {O : Type 0} (sv : Service O) (p : PutUploadPartParams) where
  -- What the object store is asked to keep, for a session.
  abbrev pub staged_part : Session → List ℕ → StagedPartParams
  staged_part s bytes = record {
    key = s.staging_key;
    upload_id = s.storage_upload_id;
    part_number = p.part_number;
    body = bytes;
    size_bytes = p.size_bytes;
  }

  -- A part that is accepted: for an open session that has not expired, kept by the object store under the
  -- session's staging key and upload, and recorded as the store answered, with the session uploading after.
  pub record IsAccepted (w after : World O) (part : Part) : Type 0 where
    pub session : Session
    pub found : find_session w.db p.upload_id ≡ some session
    pub was_open : (session.state ≡ created) ⊎ (session.state ≡ uploading)
    pub in_time : (session.expires_at ≡ 0) ⊎ (ltb sv.clock session.expires_at ≡ true)
    pub bytes : List ℕ
    pub brought : p.body ≡ some bytes
    pub piece : CompletePart
    pub kept :
        sv.staging.put_staged_part (staged_part session bytes) w.objects ≡ (ok piece, after.objects)
    pub recorded : part ≡ stored_part p.upload_id piece
    pub session_after : Session
    pub found_after : find_session after.db p.upload_id ≡ some session_after
    pub now_uploading : session_after.state ≡ uploading

  put_into-IsAccepted :
      (bytes : List ℕ) (s : Session) (w v : World O) {part : Part}
      → p.body ≡ some bytes
      → find_session w.db p.upload_id ≡ some s
      → v.db ≡ w.db
      → v.objects ≡ w.objects
      → (put_into sv p bytes s v).0 ≡ ok part
      → IsAccepted w (put_into sv p bytes s v).1 part
  unfolding put_into
  put_into-IsAccepted bytes s w v {part} brought found db objects h =
      elim (Bool-cases (not (accepts_parts s.state) || upload_expired sv.clock s)) [
        | inl t ↦ absurd (cc (rw (put_into, t) at h))
        | inr n ↦
            let step = on_objects (sv.staging.put_staged_part (staged_part s bytes)) v in
            let write = λ (c : CompletePart) (u : World O).
              on_db (put_part (accepted_part sv p.upload_id c)) u in
            let h2 = rw (put_into, n) at h in
            let (c, good, same) = bind-ok step write h2 in
            let at_s = subst (λ d. find_session d p.upload_id ≡ some s) (sym db) found in
            let (returned, t, after, up) =
              put_part-uploading (accepted_part sv p.upload_id c) v.db at_s (ground (arith, n))
                (sym (ap (λ r. r.0) same) ∙ h2) in
            rw (put_into, n)
              (subst (λ (r : Result Part × World O). IsAccepted w r.1 part) (sym same)
                (record {
                  session = s;
                  found = found;
                  was_open = open_state s.state (ground (arith, n));
                  in_time = not_expired sv.clock s (ground (arith, n));
                  bytes = bytes;
                  brought = brought;
                  piece = c;
                  kept =
                      ap (sv.staging.put_staged_part (staged_part s bytes)) (sym objects)
                      ∙ ap (λ r. (r, step.1.objects)) good;
                  recorded = returned;
                  session_after = t;
                  found_after = after;
                  now_uploading = up;
                }))
      ]

  -- A call of PutUploadPart that succeeds has found the session created or uploading, with no expiry or one
  -- to come; the object store has kept the bytes under the session's staging key and storage upload with the
  -- number of the part, the part is returned with the number, the entity tag and the size that it answered,
  -- and the session is uploading afterwards.
  pub put_upload_part-IsAccepted :
      (w : World O) {part : Part}
      → (put_upload_part sv p w).0 ≡ ok part
      → IsAccepted w (put_upload_part sv p w).1 part
  unfolding put_upload_part
  put_upload_part-IsAccepted w {part} h = elim (Result-cases (validate_put_upload_part_params p)) [
    | inr (e, n) ↦ absurd (cc (rw (put_upload_part, n) at h))
    | inl (bytes, n) ↦
        let read = on_db (get_session p.upload_id) w in
        let h2 = rw (put_upload_part, n) at h in
        let (s, at_s, same) = bind-ok read (put_into sv p bytes) h2 in
        rw (put_upload_part, n)
          (subst (λ (r : Result Part × World O). IsAccepted w r.1 part) (sym same)
            (put_into-IsAccepted bytes s w read.1 (body_of p n)
              (get_session-ok p.upload_id w.db at_s).0 (get_session-keeps p.upload_id w.db) refl
              (sym (ap (λ r. r.0) same) ∙ h2)))
  ]
