-- ===== src/Uploads/Rounds.antt =====
-- What the operations of internal/store/postgres/uploads write is what they read later.
use Prim.Native.String.{◌++◌}
use imgsrv.Prelude.{
  String, false, none, subst, sym, find-none_of_All, [], ◌∷◌, ◌≡◌, refl, ◌==◌, ==_refl, find, ok,
  transact, validated, validated-transact-ok, arith,
}
use imgsrv.Publish.Domain.{Uuid, Time}
use imgsrv.Uploads.Domain.{
  created, staging_key, CreateSessionParams, validate_create_session_params, validate_upload_id,
}
use imgsrv.Uploads.Tables.{Session, UploadDb, map_upload_error}
use imgsrv.Uploads.Statements.{find_session, insert_session}
use imgsrv.Uploads.Sessions.{created_session, create_session, get_session}
use imgsrv.Uploads.Consistent.{IsConsistent}
use imgsrv.Uploads.Committed.{insert_session-ok}

abbrev pub empty_db : UploadDb
empty_db = record { sessions = []; parts = []; jobs = []; blobs = [] }

-- A session as CreateSession describes it: of the parameters, created, and nothing else yet.
pub record IsNew (uuid_text : Uuid → String) (p : CreateSessionParams) (s : Session) : Type 0 where
  pub at_id : s.id ≡ p.id
  pub of_digest : s.expected_digest ≡ p.expected_digest
  pub of_size : s.expected_size_bytes ≡ p.expected_size_bytes
  pub in_created : s.state ≡ created
  pub at_upload : s.storage_upload_id ≡ p.storage_upload_id
  pub at_key : s.staging_key ≡ "staging/uploads/" ++ uuid_text p.id
  pub of_media_type : s.media_type_hint ≡ p.media_type_hint
  pub of_filename : s.filename_hint ≡ p.filename_hint
  pub until : s.expires_at ≡ p.expires_at
  pub not_ready : s.ready_blob_digest ≡ none
  pub not_completed : s.completed_at ≡ none
  pub not_aborted : s.aborted_at ≡ none

-- A call of CreateSession that succeeds has met no session of the identity, and creates one with each
-- field of the parameters, in the state created, under the staging key of the identity, without a
-- blob; GetSession then returns it, and every other session is as it was.
pub get_session-create_session :
    (uuid_text : Uuid → String) (now : Time) (p : CreateSessionParams) (db : UploadDb) {s : Session}
    → (create_session uuid_text now p db).0 ≡ ok s
    → (find_session db p.id ≡ none)
      × IsNew uuid_text p s
      × (get_session p.id (create_session uuid_text now p db).1
          ≡ (ok s, (create_session uuid_text now p db).1))
      × ((n : Uuid)
          → (p.id == n) ≡ false
          → find_session (create_session uuid_text now p db).1 n ≡ find_session db n)
unfolding create_session created_session get_session find_session staging_key
get_session-create_session uuid_text now p db {s} h =
    let (fine, done) =
      validated-transact-ok (validate_create_session_params p) map_upload_error
        (insert_session now (created_session uuid_text p)) db h in
    let (at_row, fresh, _, written) = insert_session-ok now (created_session uuid_text p) db done in
    (
      find-none_of_All (λ (o : Session). o.id == p.id) db.sessions fresh,
      subst (IsNew uuid_text p) (sym at_row) (record {
        at_id = refl;
        of_digest = refl;
        of_size = refl;
        in_created = refl;
        at_upload = refl;
        at_key = refl;
        of_media_type = refl;
        of_filename = refl;
        until = refl;
        not_ready = refl;
        not_completed = refl;
        not_aborted = refl;
      }),
      read _ (named p fine) at_row written,
      λ n other. others n other _ written,
    )
  where
    named :
        (p : CreateSessionParams)
        → validate_create_session_params p ≡ ok tt
        → validate_upload_id p.id ≡ ok tt
    named p f = ground (arith, f)

    read :
        (d : UploadDb)
        → validate_upload_id p.id ≡ ok tt
        → s ≡ created_session uuid_text p
        → d ≡ record db { sessions = created_session uuid_text p ∷ db.sessions }
        → get_session p.id d ≡ (ok s, d)
    read d fine e w = rw (w, e, fine, validated, transact, ==_refl p.id) refl

    others :
        (n : Uuid)
        → (p.id == n) ≡ false
        → (d : UploadDb) → d ≡ record db { sessions = created_session uuid_text p ∷ db.sessions }
        → find (λ o. o.id == n) d.sessions ≡ find (λ o. o.id == n) db.sessions
    others n other d w = rw (w, other) refl

pub empty-IsConsistent : IsConsistent empty_db
empty-IsConsistent = record {
  sessions = tt;
  jobs = tt;
  uploads = tt;
  attached = tt;
  agreed = tt;
  backed = tt;
}
