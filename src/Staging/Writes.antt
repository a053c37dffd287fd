-- ===== src/Staging/Writes.antt =====
-- What each call of internal/uploads/service.go has written when it returns.
use imgsrv.Prelude.{
  String, not, ◌||◌, List, ◌≡◌, refl, ◌∙◌, inl, inr, ℤ, eqb_ℤ, Result, Error, errors_is, ok, err,
  Option, none, some, object_not_found, upload_not_found, ℕ, Result-cases,
}
use imgsrv.Publish.Domain.{Uuid}
use imgsrv.Uploads.Domain.{staging_key}
use imgsrv.Uploads.Tables.{Session, CasBlob, UploadDb}
use imgsrv.Uploads.Statements.{accepts_parts}
use imgsrv.Uploads.Sessions.{get_session, create_ready_session}
use imgsrv.Multipart.Parts.{CompletePart}
use imgsrv.Cas.Objects.{ObjectInfo}
use imgsrv.Cas.World.{World, bind, on_db, on_objects}
use imgsrv.Staging.Objects.{Service}
use imgsrv.Staging.Service.{
  BeginUploadParams, PutUploadPartParams, ready_params, session_params, accepted_part,
  upload_expired, should_return_completed_session, normalize_complete_upload_parts, for_blob,
  after_create, begin_staged_upload, after_ready, put_into, recover_completed_staged_object,
}
use imgsrv.Staging.Completion.{
  expired_outcome, completed_outcome, after_complete, complete_sized, complete_found,
}
use imgsrv.Staging.Once.{
  Once, Once-err, if-Once, bind-Once, map-Once, create_session-Once, create_ready_session-Once,
  put_part-Once, complete_session-Once, get_session-keeps,
}

module _ {O : Type 0} (sv : Service O) (db : UploadDb) where
  abbrev pub Leaves : {A : Type 0} → Result A × World O → Type 0
  Leaves r = Once sv.uuid_text db r

  pub checked-Leaves :
      {A C : Type 0} (w : World O) (r : Result C) (f : C → Result A × World O)
      → w.db ≡ db
      → ((c : C) → Leaves (f c))
      → Leaves {A = A} (elim r [ err e ↦ (err e, w) | ok c ↦ f c ])
  checked-Leaves w (err e) f same h = inl same
  checked-Leaves w (ok c) f same h = h c

  pub recover_completed_staged_object-Leaves :
      (s : Session) (w : World O) → w.db ≡ db → Leaves (recover_completed_staged_object sv s w)
  unfolding recover_completed_staged_object
  recover_completed_staged_object-Leaves s w same =
      bind-Once sv.uuid_text db (on_objects (sv.staging.stat_staged_object s.staging_key) w) _ same
        (λ info v e.
          if-Once sv.uuid_text db (not (eqb_ℤ info.size_bytes s.expected_size_bytes)) _ _ (inl e)
            (complete_session-Once sv.uuid_text sv.now sv.fresh_job s.id db v e))

  pub for_blob-Leaves :
      (id : Uuid) (p : BeginUploadParams) (r : Result CasBlob × World O)
      → r.1.db ≡ db
      → Leaves (for_blob sv id p r)
  unfolding for_blob
  for_blob-Leaves id p (err e, w) same =
      if-Once sv.uuid_text db (errors_is e upload_not_found) _ _ (inl same) (inl same)
  for_blob-Leaves id p (ok blob, w) same =
      if-Once sv.uuid_text db (not (eqb_ℤ blob.size_bytes p.expected_size_bytes)) _ _ (inl same) (
        map-Once sv.uuid_text db
          (on_db (create_ready_session sv.uuid_text sv.now (ready_params sv id p)) w) some
          (create_ready_session-Once sv.uuid_text sv.now (ready_params sv id p) db w same))

  after_create-Leaves :
      (key upload_id : String) (r : Result Session × World O)
      → Leaves r
      → Leaves (after_create sv key upload_id r)
  unfolding after_create
  after_create-Leaves key upload_id (ok s, w) (inl same) = inl same
  after_create-Leaves key upload_id (ok s, w) (inr (a, good, op, same)) = inr (_, refl, op, same)
  after_create-Leaves key upload_id (err e, w) h =
      let same = Once-err sv.uuid_text db (err e, w) h refl in
      elim (Result-cases (sv.staging.abort_multipart_upload key upload_id w.objects).0) [
        | inl (_, n) ↦ inl (rw (after_create, n) same)
        | inr (x, n) ↦ inl (rw (after_create, n) same)
      ]

  begin_staged_upload-Leaves :
      (id : Uuid) (p : BeginUploadParams) (w : World O)
      → w.db ≡ db
      → Leaves (begin_staged_upload sv id p w)
  unfolding begin_staged_upload
  begin_staged_upload-Leaves id p w same =
      let key = staging_key sv.uuid_text id in
      bind-Once sv.uuid_text db (on_objects (sv.staging.create_multipart_upload key) w) _ same
        (λ upload_id v e.
          after_create-Leaves key upload_id _
            (create_session-Once sv.uuid_text sv.now (session_params sv id upload_id p) db v e))

  -- What precedes a staged upload may write a session, and then is the last to do so.
  pub after_ready-Leaves :
      (id : Uuid) (p : BeginUploadParams) (r : Result (Option Session) × World O)
      → Leaves r
      → (r.0 ≡ ok none → r.1.db ≡ db)
      → Leaves (after_ready sv id p r)
  unfolding after_ready
  after_ready-Leaves id p (err e, w) h k = inl (Once-err sv.uuid_text db (err e, w) h refl)
  after_ready-Leaves id p (ok (some s), w) (inl same) k = inl same
  after_ready-Leaves id p (ok (some s), w) (inr (a, good, op, same)) k = inr (_, refl, op, same)
  after_ready-Leaves id p (ok none, w) h k = begin_staged_upload-Leaves id p w (k refl)

  pub put_into-Leaves :
      (p : PutUploadPartParams) (bytes : List ℕ) (s : Session) (w : World O)
      → w.db ≡ db
      → Leaves (put_into sv p bytes s w)
  unfolding put_into
  put_into-Leaves p bytes s w same =
      if-Once sv.uuid_text db (not (accepts_parts s.state) || upload_expired sv.clock s) _ _
        (inl same)
        (bind-Once sv.uuid_text db (on_objects (sv.staging.put_staged_part _) w) _ same
          (λ part v e. put_part-Once sv.uuid_text (accepted_part sv p.upload_id part) db v e))

  expired-Leaves : (r : Result Session × World O) → Leaves r → Leaves (expired_outcome sv r)
  expired-Leaves (ok s, w) h = h
  expired-Leaves (err e, w) h = inl (Once-err sv.uuid_text db (err e, w) h refl)

  completed-Leaves :
      (e : Error) (r : Result Session × World O) → Leaves r → Leaves (completed_outcome sv e r)
  completed-Leaves e (ok s, w) h = h
  completed-Leaves e (err x, w) h = inl (Once-err sv.uuid_text db (err x, w) h refl)

  after_complete-Leaves :
      (id : Uuid) (s : Session) (r : Result ObjectInfo × World O)
      → r.1.db ≡ db
      → Leaves (after_complete sv id s r)
  unfolding after_complete
  after_complete-Leaves id s (ok info, w) same =
      complete_session-Once sv.uuid_text sv.now sv.fresh_job id db w same
  after_complete-Leaves id s (err e, w) same =
      if-Once sv.uuid_text db (errors_is e object_not_found) _ _
        (completed-Leaves e _ (recover_completed_staged_object-Leaves s w same)) (inl same)

  complete_sized-Leaves :
      (id : Uuid) (s : Session) (parts : List CompletePart) (size : ℤ) (w : World O)
      → w.db ≡ db
      → Leaves (complete_sized sv id s (parts, size) w)
  unfolding complete_sized
  complete_sized-Leaves id s parts size w same =
      if-Once sv.uuid_text db (not (eqb_ℤ size s.expected_size_bytes)) _ _ (inl same) (
        if-Once sv.uuid_text db (upload_expired sv.clock s) _ _
          (expired-Leaves _ (recover_completed_staged_object-Leaves s w same))
          (after_complete-Leaves id s
            (on_objects
              (sv.staging.complete_multipart_upload s.staging_key s.storage_upload_id parts) w)
            same))

  pub complete_found-Leaves :
      (id : Uuid) (parts : List CompletePart) (s : Session) (w : World O)
      → w.db ≡ db
      → Leaves (complete_found sv id parts s w)
  unfolding complete_found
  complete_found-Leaves id parts s w same =
      if-Once sv.uuid_text db (should_return_completed_session s.state) _ _ (inl same) (
        if-Once sv.uuid_text db (not (accepts_parts s.state)) _ _ (inl same) (
          checked-Leaves w (normalize_complete_upload_parts parts)
            (λ sized. complete_sized sv id s sized w) same
            (λ (sorted, size). complete_sized-Leaves id s sorted size w same)))

  -- What follows the session that is found, in each of the calls.
  module _ {A : Type 0} (id : Uuid) (w : World O) (same : w.db ≡ db)
      (f : Session → World O → Result A × World O)
      (f-Leaves : (s : Session) (v : World O) → v.db ≡ db → Leaves (f s v)) where
    pub with_session-Leaves : Leaves (bind (on_db (get_session id) w) f)
    with_session-Leaves =
        bind-Once sv.uuid_text db (on_db (get_session id) w) f (get_session-keeps id w.db ∙ same)
          f-Leaves
