-- ===== src/Staging/Known.antt =====
-- What BeginUpload of internal/uploads/service.go finds and makes for a trusted blob.
use imgsrv.Prelude.{
  String, ◌∷◌, some, ◌≡◌, refl, ◌∙◌, inl, inr, ◌==◌, ==_refl, Option-cases, Result-cases, ok, find,
  arith, row, validated, transact, validated-transact-ok,
}
use imgsrv.Publish.Domain.{Uuid, Time}
use imgsrv.Uploads.Domain.{
  validate_digest, validate_create_ready_session_params, CreateReadySessionParams,
}
use imgsrv.Uploads.Tables.{Session, CasBlob, UploadDb, map_upload_error}
use imgsrv.Uploads.Statements.{find_session, find_blob, insert_session}
use imgsrv.Uploads.Sessions.{ready_session, create_ready_session, get_trusted_blob}
use imgsrv.Uploads.Committed.{insert_session-ok}
use imgsrv.Staging.Service.{BeginUploadParams, validate_begin_upload_params}

-- GetTrustedBlob of a valid digest finds the blob, if there is one.
pub get_trusted_blob-some :
    (digest : String) (db : UploadDb) {b : CasBlob}
    → validate_digest digest ≡ ok tt
    → find_blob db digest ≡ some b
    → (get_trusted_blob digest db).0 ≡ ok b
unfolding get_trusted_blob
get_trusted_blob-some digest db fine e =
    rw (get_trusted_blob, fine, validated, transact, row, e) refl

pub get_trusted_blob-ok :
    (digest : String) (db : UploadDb) {b : CasBlob}
    → validate_digest digest ≡ ok tt
    → (get_trusted_blob digest db).0 ≡ ok b
    → find_blob db digest ≡ some b
unfolding get_trusted_blob
get_trusted_blob-ok digest db fine h = elim (Option-cases (find_blob db digest)) [
  | inl e ↦ absurd (cc (rw (get_trusted_blob, fine, validated, transact, row, e) at h))
  | inr (x, e) ↦ e ∙ ground (arith, rw (get_trusted_blob, fine, validated, transact, row, e) at h)
]

-- The session that CreateReadySession makes for a blob.
pub ready_session-made :
    (uuid_text : Uuid → String) (now : Time) (p : CreateReadySessionParams) (db : UploadDb)
    {s : Session}
    → (create_ready_session uuid_text now p db).0 ≡ ok s
    → (s ≡ ready_session uuid_text now p)
      × (find_session (create_ready_session uuid_text now p db).1 p.id ≡ some s)
unfolding create_ready_session find_session ready_session
ready_session-made uuid_text now p db {s} h =
    let (_, done) =
      validated-transact-ok (validate_create_ready_session_params p) map_upload_error
        (insert_session now (ready_session uuid_text now p)) db h in
    let (at_row, _, _, written) = insert_session-ok now (ready_session uuid_text now p) db done in
    (at_row, there _ at_row written)
  where
    there :
        (d : UploadDb)
        → s ≡ ready_session uuid_text now p
        → d ≡ record db { sessions = ready_session uuid_text now p ∷ db.sessions }
        → find (λ o. o.id == p.id) d.sessions ≡ some s
    there d e w = rw (w, e, ==_refl p.id) refl

pub valid_digest :
    (now : Time) (p : BeginUploadParams)
    → validate_begin_upload_params now p ≡ ok tt
    → validate_digest p.expected_digest ≡ ok tt
unfolding validate_begin_upload_params
valid_digest now p h = elim (Result-cases (validate_digest p.expected_digest)) [
  | inl (tt, e) ↦ e
  | inr (x, e) ↦ absurd (ground (arith, e, h))
]
