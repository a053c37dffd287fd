-- ===== src/Staging/Service.antt =====
-- BeginUpload, PutUploadPart, CompleteUpload, AbortUpload and GetUpload of internal/uploads/service.go. A
-- call that fails keeps what its earlier steps have written.
use imgsrv.Prelude.{
  ℕ, String, Bool, true, false, not, ◌&&◌, ◌||◌, Option, none, some, List, [], ◌∷◌, ◌++◌, ◌==◌, ltb,
  ℤ, pos, eqb_ℤ, add64, if◌then◌else◌, Result, errors_is, ok, err, upload_failed_precondition,
  upload_invalid, upload_not_found, object_invalid,
}
use imgsrv.Publish.Domain.{Uuid, Time}
use imgsrv.Uploads.Domain.{
  SessionState, completed, ingesting, ready, is_session, CreateSessionParams,
  CreateReadySessionParams, PutPartParams, staging_key, validate_digest, validate_non_negative_size,
  validate_optional_text, validate_upload_id, validate_part_number, refuse_if, ◌and_then◌,
}
use imgsrv.Uploads.Tables.{Session, Part, CasBlob}
use imgsrv.Uploads.Statements.{accepts_parts}
use imgsrv.Uploads.Sessions.{
  create_session, create_ready_session, get_session, put_part, complete_session, get_trusted_blob,
}
use imgsrv.Multipart.Parts.{CompletePart, is_part_size, normalize_complete_parts}
use imgsrv.Cas.World.{World, bind, on_db, on_objects}
use imgsrv.Staging.Objects.{Service}

pub record BeginUploadParams : Type 0 where
  pub id : Uuid
  pub expected_digest : String
  pub expected_size_bytes : ℤ
  pub media_type_hint : Option String
  pub filename_hint : Option String
  pub expires_at : Time

-- `was_created` is the field Created.
pub record BeginUploadResult : Type 0 where
  pub session : Session
  pub was_created : Bool

-- The body is there, or nil.
pub record PutUploadPartParams : Type 0 where
  pub upload_id : Uuid
  pub part_number : ℤ
  pub body : Option (List ℕ)
  pub size_bytes : ℤ

unfoldable pub validate_begin_upload_params : Time → BeginUploadParams → Result (Unit {0})
unfolding validate_digest validate_non_negative_size validate_optional_text
validate_begin_upload_params now p =
    validate_digest p.expected_digest
    and_then validate_non_negative_size p.expected_size_bytes
    and_then validate_optional_text p.media_type_hint
    and_then validate_optional_text p.filename_hint
    and_then refuse_if (p.expires_at == 0) (ok tt)
    and_then refuse_if (not (ltb now p.expires_at)) (ok tt)

-- The bytes of the part, of params that are valid.
unfoldable pub validate_put_upload_part_params : PutUploadPartParams → Result (List ℕ)
unfolding validate_upload_id validate_part_number is_part_size
validate_put_upload_part_params p =
    elim (validate_upload_id p.upload_id and_then validate_part_number p.part_number) [
      | err e ↦ err e
      | ok _ ↦ elim p.body [
        | none ↦ err (upload_invalid ∷ [])
        | some bytes ↦
            if is_part_size p.size_bytes
            then ok bytes
            else err (upload_invalid ∷ object_invalid ∷ [])
      ]
    ]

-- uploadExpired.
unfoldable pub upload_expired : Time → Session → Bool
upload_expired now s = not (s.expires_at == 0) && not (ltb now s.expires_at)

unfoldable pub should_return_completed_session : SessionState → Bool
should_return_completed_session st =
    is_session st completed || is_session st ingesting || is_session st ready

-- The sum of the sizes, in int64.
abbrev pub total_size : ℤ → List CompletePart → ℤ
total_size sum [] = sum
total_size sum (p ∷ ps) = total_size (add64 sum p.size_bytes) ps

unfoldable pub normalize_complete_upload_parts : List CompletePart → Result (List CompletePart × ℤ)
unfolding normalize_complete_parts
normalize_complete_upload_parts parts = elim (normalize_complete_parts parts) [
  | err e ↦ err (upload_invalid ∷ e)
  | ok ps ↦ ok (ps, total_size (pos 0) ps)
]

module _ {O : Type 0} (sv : Service O) where
  abbrev pub ready_params : Uuid → BeginUploadParams → CreateReadySessionParams
  ready_params id p = record {
    id = id;
    expected_digest = p.expected_digest;
    expected_size_bytes = p.expected_size_bytes;
    media_type_hint = p.media_type_hint;
    filename_hint = p.filename_hint;
    expires_at = p.expires_at;
  }

  abbrev pub session_params : Uuid → String → BeginUploadParams → CreateSessionParams
  session_params id storage_upload_id p = record {
    id = id;
    expected_digest = p.expected_digest;
    expected_size_bytes = p.expected_size_bytes;
    storage_upload_id = storage_upload_id;
    media_type_hint = p.media_type_hint;
    filename_hint = p.filename_hint;
    expires_at = p.expires_at;
  }

  -- What beginReadyUpload makes of a trusted blob: the session, or none to proceed with an upload.
  unfoldable pub for_blob :
      Uuid → BeginUploadParams → Result CasBlob × World O → Result (Option Session) × World O
  unfolding create_ready_session
  for_blob id p (err e, w) = if errors_is e upload_not_found then (ok none, w) else (err e, w)
  for_blob id p (ok blob, w) =
      if not (eqb_ℤ blob.size_bytes p.expected_size_bytes)
      then (err (upload_failed_precondition ∷ []), w)
      else bind (on_db (create_ready_session sv.uuid_text sv.now (ready_params id p)) w)
          (λ s v. (ok (some s), v))

  unfoldable pub begin_ready_upload :
      Uuid → BeginUploadParams → World O → Result (Option Session) × World O
  unfolding get_trusted_blob for_blob
  begin_ready_upload id p w =
      if sv.trusted
      then for_blob id p (on_db (get_trusted_blob p.expected_digest) w)
      else (ok none, w)

  -- What follows CreateSession: its failure aborts the staged upload.
  unfoldable pub after_create :
      String → String → Result Session × World O → Result BeginUploadResult × World O
  after_create key upload_id (ok s, w) = (ok (record { session = s; was_created = true }), w)
  after_create key upload_id (err e, w) =
      let r = on_objects (sv.staging.abort_multipart_upload key upload_id) w in
      elim r.0 [ ok _ ↦ (err e, r.1) | err x ↦ (err (e ++ x), r.1) ]

  unfoldable pub begin_staged_upload :
      Uuid → BeginUploadParams → World O → Result BeginUploadResult × World O
  unfolding staging_key create_session after_create
  begin_staged_upload id p w =
      let key = staging_key sv.uuid_text id in
      bind (on_objects (sv.staging.create_multipart_upload key) w) (λ upload_id v.
        after_create key upload_id
          (on_db (create_session sv.uuid_text sv.now (session_params id upload_id p)) v))

  -- What follows beginReadyUpload.
  unfoldable pub after_ready :
      Uuid
      → BeginUploadParams
      → Result (Option Session) × World O
      → Result BeginUploadResult × World O
  unfolding begin_staged_upload
  after_ready id p (err e, w) = (err e, w)
  after_ready id p (ok (some s), w) = (ok (record { session = s; was_created = false }), w)
  after_ready id p (ok none, w) = begin_staged_upload id p w

  -- BeginUpload.
  unfoldable pub begin_upload : BeginUploadParams → World O → Result BeginUploadResult × World O
  unfolding validate_begin_upload_params begin_ready_upload after_ready
  begin_upload p w = elim (validate_begin_upload_params sv.clock p) [
    | err e ↦ (err e, w)
    | ok _ ↦
        let id = if p.id == 0 then sv.fresh_id else p.id in
        after_ready id p (begin_ready_upload id p w)
  ]

  abbrev pub accepted_part : Uuid → CompletePart → PutPartParams
  accepted_part id part = record {
    upload_id = id;
    part_number = part.number;
    etag = part.etag;
    size_bytes = part.size_bytes;
  }

  unfoldable pub put_into : PutUploadPartParams → List ℕ → Session → World O → Result Part × World O
  unfolding upload_expired put_part
  put_into p bytes s w =
      if not (accepts_parts s.state) || upload_expired sv.clock s
      then (err (upload_failed_precondition ∷ []), w)
      else bind
          (on_objects
            (sv.staging.put_staged_part (record {
              key = s.staging_key;
              upload_id = s.storage_upload_id;
              part_number = p.part_number;
              body = bytes;
              size_bytes = p.size_bytes;
            }))
            w)
          (λ part v. on_db (put_part (accepted_part p.upload_id part)) v)

  -- PutUploadPart.
  unfoldable pub put_upload_part : PutUploadPartParams → World O → Result Part × World O
  unfolding validate_put_upload_part_params get_session put_into
  put_upload_part p w = elim (validate_put_upload_part_params p) [
    | err e ↦ (err e, w)
    | ok bytes ↦ bind (on_db (get_session p.upload_id) w) (put_into p bytes)
  ]

  -- recoverCompletedStagedObject.
  unfoldable pub recover_completed_staged_object : Session → World O → Result Session × World O
  unfolding complete_session
  recover_completed_staged_object s w =
      bind (on_objects (sv.staging.stat_staged_object s.staging_key) w) (λ info v.
        if not (eqb_ℤ info.size_bytes s.expected_size_bytes)
        then (err (upload_failed_precondition ∷ []), v)
        else on_db (complete_session sv.now sv.fresh_job s.id) v)
