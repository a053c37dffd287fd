-- ===== src/Staging/Completion.antt =====
-- CompleteUpload, AbortUpload and GetUpload of internal/uploads/service.go.
use imgsrv.Prelude.{
  not, List, [], ◌∷◌, ◌++◌, ℤ, eqb_ℤ, if◌then◌else◌, Result, Error, errors_is, ok, err,
  upload_failed_precondition, object_not_found, Option, none, some,
}
use imgsrv.Publish.Domain.{Uuid}
use imgsrv.Uploads.Domain.{aborted, is_session, validate_upload_id}
use imgsrv.Uploads.Tables.{Session}
use imgsrv.Uploads.Statements.{accepts_parts}
use imgsrv.Uploads.Sessions.{get_session, complete_session, abort_session}
use imgsrv.Multipart.Parts.{CompletePart}
use imgsrv.Cas.Objects.{ObjectInfo}
use imgsrv.Cas.World.{World, bind, on_db, on_objects}
use imgsrv.Staging.Objects.{Service}
use imgsrv.Staging.Service.{
  upload_expired, should_return_completed_session, normalize_complete_upload_parts,
  recover_completed_staged_object,
}

module _ {O : Type 0} (sv : Service O) where
  -- What recoverExpiredUploadCompletion makes of a recovery.
  abbrev pub expired_outcome : Result Session × World O → Result Session × World O
  expired_outcome (ok s, w) = (ok s, w)
  expired_outcome (err e, w) =
      (err (if errors_is e object_not_found then upload_failed_precondition ∷ [] else e), w)

  -- What completeMultipartOrRecover makes of a recovery, after the error `e`.
  abbrev pub completed_outcome : Error → Result Session × World O → Result Session × World O
  completed_outcome e (ok s, w) = (ok s, w)
  completed_outcome e (err x, w) = (err (if errors_is x object_not_found then e else e ++ x), w)

  -- What follows CompleteMultipartUpload in CompleteUpload.
  unfoldable pub after_complete :
      Uuid → Session → Result ObjectInfo × World O → Result Session × World O
  unfolding complete_session recover_completed_staged_object
  after_complete id s (ok _, w) = on_db (complete_session sv.now sv.fresh_job id) w
  after_complete id s (err e, w) =
      if errors_is e object_not_found
      then completed_outcome e (recover_completed_staged_object sv s w)
      else (err e, w)

  -- CompleteUpload on an open session with parts in order, and their total size.
  unfoldable pub complete_sized :
      Uuid → Session → List CompletePart × ℤ → World O → Result Session × World O
  unfolding upload_expired recover_completed_staged_object after_complete
  complete_sized id s (parts, size) w =
      if not (eqb_ℤ size s.expected_size_bytes)
      then (err (upload_failed_precondition ∷ []), w)
      else if upload_expired sv.clock s
      then expired_outcome (recover_completed_staged_object sv s w)
      else after_complete id s (
          on_objects (sv.staging.complete_multipart_upload s.staging_key s.storage_upload_id parts)
            w)

  -- What follows GetSession in CompleteUpload.
  unfoldable pub complete_found :
      Uuid → List CompletePart → Session → World O → Result Session × World O
  unfolding should_return_completed_session normalize_complete_upload_parts complete_sized
  complete_found id parts s w =
      if should_return_completed_session s.state
      then (ok s, w)
      else if not (accepts_parts s.state)
      then (err (upload_failed_precondition ∷ []), w)
      else elim (normalize_complete_upload_parts parts) [
        | err e ↦ (err e, w)
        | ok sized ↦ complete_sized id s sized w
      ]

  -- CompleteUpload.
  unfoldable pub complete_upload : Uuid → List CompletePart → World O → Result Session × World O
  unfolding validate_upload_id get_session complete_found
  complete_upload id parts w = elim (validate_upload_id id) [
    | err e ↦ (err e, w)
    | ok _ ↦ bind (on_db (get_session id) w) (complete_found id parts)
  ]

  -- What abortMultipartOrRecover makes of a recovery, after the error `e`: the session that is recovered,
  -- or none, to abort it.
  abbrev pub aborted_outcome : Error → Result Session × World O → Result (Option Session) × World O
  aborted_outcome e (ok s, w) = (ok (some s), w)
  aborted_outcome e (err x, w) = (if errors_is x object_not_found then ok none else err (e ++ x), w)

  unfoldable pub abort_multipart_or_recover :
      Session → Result (Unit {0}) × World O → Result (Option Session) × World O
  unfolding recover_completed_staged_object
  abort_multipart_or_recover s (ok _, w) = (ok none, w)
  abort_multipart_or_recover s (err e, w) =
      if errors_is e object_not_found
      then aborted_outcome e (recover_completed_staged_object sv s w)
      else (err e, w)

  -- What follows abortMultipartOrRecover in AbortUpload.
  unfoldable pub after_abort : Uuid → Option Session → World O → Result Session × World O
  unfolding abort_session
  after_abort id (some recovered) w = (ok recovered, w)
  after_abort id none w = on_db (abort_session sv.now id) w

  unfoldable pub abort_found : Uuid → Session → World O → Result Session × World O
  unfolding abort_multipart_or_recover after_abort
  abort_found id s w =
      if is_session s.state aborted
      then (ok s, w)
      else if not (accepts_parts s.state)
      then (err (upload_failed_precondition ∷ []), w)
      else bind
          (abort_multipart_or_recover s
            (on_objects (sv.staging.abort_multipart_upload s.staging_key s.storage_upload_id) w))
          (after_abort id)

  -- AbortUpload.
  unfoldable pub abort_upload : Uuid → World O → Result Session × World O
  unfolding validate_upload_id get_session abort_found
  abort_upload id w = elim (validate_upload_id id) [
    | err e ↦ (err e, w)
    | ok _ ↦ bind (on_db (get_session id) w) (abort_found id)
  ]

  -- GetUpload.
  unfoldable pub get_upload : Uuid → World O → Result Session × World O
  unfolding validate_upload_id get_session
  get_upload id w = elim (validate_upload_id id) [
    | err e ↦ (err e, w)
    | ok _ ↦ on_db (get_session id) w
  ]
