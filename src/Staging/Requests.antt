-- ===== src/Staging/Requests.antt =====
-- What each request to internal/uploads/service.go leaves in the tables of uploads.
use imgsrv.Prelude.{
  not, ◌==◌, List, ◌≡◌, refl, ◌∙◌, inl, inr, if◌then◌else◌, Result, Error, errors_is, ok, err, none,
  some, object_not_found, upload_not_found, eqb_ℤ, Bool-cases,
}
use imgsrv.Publish.Domain.{Uuid}
use imgsrv.Uploads.Domain.{aborted, is_session, validate_upload_id}
use imgsrv.Uploads.Tables.{Session, CasBlob, UploadDb}
use imgsrv.Uploads.Statements.{accepts_parts}
use imgsrv.Uploads.Sessions.{get_session, get_trusted_blob}
use imgsrv.Multipart.Parts.{CompletePart}
use imgsrv.Cas.World.{World, bind, on_db, on_objects}
use imgsrv.Staging.Objects.{Service}
use imgsrv.Staging.Service.{
  BeginUploadParams, PutUploadPartParams, validate_begin_upload_params,
  validate_put_upload_part_params, begin_ready_upload, for_blob, after_ready, begin_upload,
  put_into, put_upload_part, recover_completed_staged_object,
}
use imgsrv.Staging.Completion.{
  complete_found, complete_upload, aborted_outcome, abort_multipart_or_recover, after_abort,
  abort_found, abort_upload, get_upload,
}
use imgsrv.Staging.Once.{
  Once-err, if-Once, abort_session-Once, get_session-keeps, get_trusted_blob-keeps,
}
use imgsrv.Staging.Writes.{
  Leaves, checked-Leaves, recover_completed_staged_object-Leaves, for_blob-Leaves,
  after_ready-Leaves, put_into-Leaves, complete_found-Leaves, with_session-Leaves,
}

-- A session is not the absence of one.
some-none :
    {O A : Type 0} (r : Result A × World O) → (bind r (λ s v. (ok (some s), v))).0 ≡ ok none → ⊥
some-none (ok a, w) h = absurd (cc)
some-none (err e, w) h = absurd (cc)

module _ {O : Type 0} (sv : Service O) (db : UploadDb) where
  -- An upload is staged only if no session was written for a trusted blob.
  for_blob-none :
      (id : Uuid) (p : BeginUploadParams) (r : Result CasBlob × World O)
      → r.1.db ≡ db
      → (for_blob sv id p r).0 ≡ ok none
      → (for_blob sv id p r).1.db ≡ db
  unfolding for_blob
  for_blob-none id p (err e, v) same h = elim (Bool-cases (errors_is e upload_not_found)) [
    | inl t ↦ rw (for_blob, t) same
    | inr n ↦ rw (for_blob, n) same
  ]
  for_blob-none id p (ok blob, v) same h =
      elim (Bool-cases (eqb_ℤ blob.size_bytes p.expected_size_bytes)) [
        | inl t ↦ absurd (some-none _ (rw (for_blob, t) at h))
        | inr n ↦ absurd (cc (rw (for_blob, n) at h))
      ]

  begin_ready_upload-Leaves :
      (id : Uuid) (p : BeginUploadParams) (w : World O)
      → w.db ≡ db
      → Leaves sv db (begin_ready_upload sv id p w)
        × ((begin_ready_upload sv id p w).0 ≡ ok none → (begin_ready_upload sv id p w).1.db ≡ db)
  unfolding begin_ready_upload
  begin_ready_upload-Leaves id p w same = elim (Bool-cases sv.trusted) [
    | inr n ↦ rw (begin_ready_upload, n) (inl same, λ _. same)
    | inl t ↦
        let looked = get_trusted_blob-keeps p.expected_digest w.db ∙ same in
        let r = on_db (get_trusted_blob p.expected_digest) w in
        rw (begin_ready_upload, t)
          (for_blob-Leaves sv db id p r looked, for_blob-none id p r looked)
  ]

  pub begin_upload-Leaves :
      (p : BeginUploadParams) (w : World O) → w.db ≡ db → Leaves sv db (begin_upload sv p w)
  unfolding begin_upload
  begin_upload-Leaves p w same =
      checked-Leaves sv db w (validate_begin_upload_params sv.clock p) _ same
        (λ _. let id = if p.id == 0 then sv.fresh_id else p.id in begin_at id)
    where
      begin_at : (id : Uuid) → Leaves sv db (after_ready sv id p (begin_ready_upload sv id p w))
      begin_at id =
          after_ready-Leaves sv db id p (begin_ready_upload sv id p w)
            (begin_ready_upload-Leaves id p w same).0 (begin_ready_upload-Leaves id p w same).1

  pub put_upload_part-Leaves :
      (p : PutUploadPartParams) (w : World O) → w.db ≡ db → Leaves sv db (put_upload_part sv p w)
  unfolding put_upload_part
  put_upload_part-Leaves p w same =
      checked-Leaves sv db w (validate_put_upload_part_params p) _ same (λ bytes.
        with_session-Leaves sv db p.upload_id w same (put_into sv p bytes)
          (put_into-Leaves sv db p bytes))

  pub complete_upload-Leaves :
      (id : Uuid) (parts : List CompletePart) (w : World O)
      → w.db ≡ db
      → Leaves sv db (complete_upload sv id parts w)
  unfolding complete_upload
  complete_upload-Leaves id parts w same =
      checked-Leaves sv db w (validate_upload_id id) _ same (λ _.
        with_session-Leaves sv db id w same (complete_found sv id parts)
          (complete_found-Leaves sv db id parts))

  -- What precedes an abort may complete the session, and then nothing follows.
  aborted-Leaves :
      (id : Uuid) (e : Error) (r : Result Session × World O)
      → Leaves sv db r
      → Leaves sv db (bind (aborted_outcome sv e r) (after_abort sv id))
  unfolding after_abort
  aborted-Leaves id e (ok s, w) (inl same) = inl same
  aborted-Leaves id e (ok s, w) (inr (a, good, op, same)) = inr (_, refl, op, same)
  aborted-Leaves id e (err x, w) h =
      let same = Once-err sv.uuid_text db (err x, w) h refl in
      elim (Bool-cases (errors_is x object_not_found)) [
        | inl t ↦ rw t (abort_session-Once sv.uuid_text sv.now id db w same)
        | inr n ↦ rw n (inl same)
      ]

  abort_or_recover-Leaves :
      (id : Uuid) (s : Session) (r : Result (Unit {0}) × World O)
      → r.1.db ≡ db
      → Leaves sv db (bind (abort_multipart_or_recover sv s r) (after_abort sv id))
  unfolding abort_multipart_or_recover after_abort
  abort_or_recover-Leaves id s (ok _, w) same = abort_session-Once sv.uuid_text sv.now id db w same
  abort_or_recover-Leaves id s (err e, w) same = elim (Bool-cases (errors_is e object_not_found)) [
    | inl t ↦
        rw (abort_multipart_or_recover, t)
          (aborted-Leaves id e (recover_completed_staged_object sv s w)
            (recover_completed_staged_object-Leaves sv db s w same))
    | inr n ↦ rw (abort_multipart_or_recover, n) (inl same)
  ]

  pub abort_upload-Leaves :
      (id : Uuid) (w : World O) → w.db ≡ db → Leaves sv db (abort_upload sv id w)
  unfolding abort_upload abort_found
  abort_upload-Leaves id w same = checked-Leaves sv db w (validate_upload_id id) _ same (λ _.
      with_session-Leaves sv db id w same (abort_found sv id) (λ s v e.
        if-Once sv.uuid_text db (is_session s.state aborted) _ _ (inl e) (
          if-Once sv.uuid_text db (not (accepts_parts s.state)) _ _ (inl e) (
            abort_or_recover-Leaves id s
              (on_objects (sv.staging.abort_multipart_upload s.staging_key s.storage_upload_id) v)
              e))))

  pub get_upload-Leaves : (id : Uuid) (w : World O) → w.db ≡ db → Leaves sv db (get_upload sv id w)
  unfolding get_upload
  get_upload-Leaves id w same =
      checked-Leaves sv db w (validate_upload_id id) (λ _. on_db (get_session id) w) same
        (λ _. inl (get_session-keeps id w.db ∙ same))
