-- ===== src/Promote/Tests.antt =====
-- A run of the promotion job on an upload that is complete.
use imgsrv.Prelude.{ok, String, true, false, none, some, [], ◌∷◌, ◌≡◌, refl, pos}
use imgsrv.Uploads.Domain.{validate_required_text}
use imgsrv.Uploads.Tables.{UploadDb}
use imgsrv.Uploads.Consistent.{IsConsistent}
use imgsrv.Uploads.Calls.{create, complete, apply, run}
use imgsrv.Uploads.Sessions.{create_session, complete_session}
use imgsrv.Uploads.Ingest.{claim_ingest_job}
use imgsrv.Uploads.Reach.{run-IsConsistent}
use imgsrv.Uploads.Rounds.{empty_db, empty-IsConsistent}
use imgsrv.Cas.World.{Environment, World, on_db}
use imgsrv.Cas.Files.{Files, put_file, files, files_IsLawful}
use imgsrv.Cas.Faithful.{IsFaithful}
use imgsrv.Promote.Job.{promote_once}
use imgsrv.Promote.Idle.{promote_once-idle}
use imgsrv.Promote.Worked.{IsPromoted, promote_once-IsPromoted}

abbrev digest : String
digest = "sha256:0123456789abcdef0123456789abcdef0123456789abcdef0123456789abcdef"

abbrev env : Environment Files
env = record {
  objects = files;
  sha256_hex = λ _. "0123456789abcdef0123456789abcdef0123456789abcdef0123456789abcdef";
  itoa = λ _. "2";
  text = λ _. "failed";
  uuid_text = λ _. "seven";
  now = 110;
}

abbrev complete_db : UploadDb
complete_db =
    run (λ _. "seven")
      (create 100 (record {
        id = 7;
        expected_digest = digest;
        expected_size_bytes = pos 2;
        storage_upload_id = "s3-1";
        media_type_hint = none;
        filename_hint = none;
        expires_at = 900;
      })
        ∷ complete 101 21 7
        ∷ [])
      empty_db

complete_db-IsConsistent : IsConsistent complete_db
complete_db-IsConsistent = run-IsConsistent _ _ empty_db empty-IsConsistent

abbrev staged : World Files
staged = record {
  db = complete_db;
  objects =
      put_file "staging/uploads/seven" (some (record { content = 1 ∷ 2 ∷ []; etag = "e" }))
        (λ _. none);
}

none_trusted : IsFaithful env files_IsLawful staged
unfolding run apply create_session complete_session
none_trusted = tt

abbrev after : World Files
after = (promote_once env (λ _. false) 102 "w" staged).1

named : validate_required_text "w" ≡ ok tt
unfolding validate_required_text
named = refl

-- The job is queued at 101.
promote_once-idle_example :
    promote_once env (λ _. false) 100 "w" staged
    ≡ (record { worked = false; failure = none }, staged)
unfolding run apply create_session complete_session
promote_once-idle_example =
    promote_once-idle env (λ _. false) 100 "w" staged named ((λ d. absurd (cc (d.1))), tt)

works : (promote_once env (λ _. false) 102 "w" staged).0.worked ≡ true
unfolding promote_once run apply create_session complete_session
works = refl

promote_once-IsPromoted_example :
    IsPromoted env files_IsLawful (on_db (claim_ingest_job (λ _. false) 102 "w") staged) after
promote_once-IsPromoted_example =
    promote_once-IsPromoted env files_IsLawful (λ _. false) 102 "w" staged none_trusted works
