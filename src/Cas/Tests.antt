-- ===== src/Cas/Tests.antt =====
-- A commit of one upload, on an object store that is a function from keys to objects.
use imgsrv.Prelude.{ℕ, String, false, none, some, List, [], ◌∷◌, ◌≡◌, refl, pos, ok}
use imgsrv.Uploads.Domain.{succeeded}
use imgsrv.Uploads.Calls.{Op, create, complete, claim, apply, run}
use imgsrv.Uploads.Sessions.{create_session, complete_session}
use imgsrv.Uploads.Ingest.{claim_ingest_job}
use imgsrv.Uploads.Reach.{run-IsConsistent}
use imgsrv.Uploads.Readied.{IsReadied}
use imgsrv.Uploads.Rounds.{empty_db, empty-IsConsistent}
use imgsrv.Cas.Objects.{Stored}
use imgsrv.Cas.World.{Environment, World, CommitStagedUploadParams, CommitStagedUploadResult}
use imgsrv.Cas.Commit.{commit_staged_upload}
use imgsrv.Cas.Faithful.{Holds, IsFaithful}
use imgsrv.Promote.Readied.{commit_staged_upload-IsReadied}
use imgsrv.Cas.Trust.{commit_staged_upload-IsFaithful, commit_staged_upload-Holds}
use imgsrv.Cas.Files.{Files, put_file, files, files_IsLawful}

abbrev hex : String
hex = "0123456789abcdef0123456789abcdef0123456789abcdef0123456789abcdef"

abbrev digest : String
digest = "sha256:0123456789abcdef0123456789abcdef0123456789abcdef0123456789abcdef"

abbrev key : String
key = "cas/sha256/01/23/0123456789abcdef0123456789abcdef0123456789abcdef0123456789abcdef"

abbrev text : ℕ → String
text n = "seven"

abbrev env : Environment Files
env = record {
  objects = files;
  sha256_hex = λ _. hex;
  itoa = λ _. "5";
  text = λ _. "failed";
  uuid_text = text;
  now = 110;
}

abbrev claimed_ops : List Op
claimed_ops =
    create 100 (record {
      id = 7;
      expected_digest = digest;
      expected_size_bytes = pos 2;
      storage_upload_id = "s3-1";
      media_type_hint = none;
      filename_hint = none;
      expires_at = 900;
    })
    ∷ complete 101 21 7
    ∷ claim (λ _. false) 102 "w"
    ∷ []

abbrev bytes : Stored
bytes = record { content = 1 ∷ 2 ∷ []; etag = "e" }

abbrev world : World Files
world = record {
  db = run text claimed_ops empty_db;
  objects = put_file "staging/uploads/seven" (some bytes) (λ _. none);
}

abbrev params : CommitStagedUploadParams
params = record {
  job_id = 21;
  upload_id = 7;
  staging_key = "staging/uploads/seven";
  expected_digest = digest;
  expected_size_bytes = pos 2;
  media_type = none;
}

none_trusted : IsFaithful env files_IsLawful world
unfolding run apply create_session complete_session claim_ingest_job
none_trusted = tt

abbrev result : CommitStagedUploadResult
result = record {
  job = record {
    id = 21;
    upload_id = 7;
    state = succeeded;
    attempt_count = 1;
    run_after = 101;
    locked_by = none;
    locked_at = none;
    started_at = some 102;
    finished_at = some 110;
    failure_message = none;
    blob_digest = some digest;
  };
  digest = digest;
  size_bytes = pos 2;
  storage_key = key;
}

commits : (commit_staged_upload env params world).0 ≡ ok result
unfolding commit_staged_upload run apply create_session complete_session claim_ingest_job
commits = refl

commit_staged_upload-IsFaithful_example :
    IsFaithful env files_IsLawful (commit_staged_upload env params world).1
commit_staged_upload-IsFaithful_example =
    commit_staged_upload-IsFaithful env files_IsLawful params world none_trusted

commit_staged_upload-Holds_example :
    (digest ≡ digest)
    × (pos 2 ≡ pos 2)
    × Holds env files_IsLawful (commit_staged_upload env params world).1.objects key digest (pos 2)
commit_staged_upload-Holds_example =
    commit_staged_upload-Holds env files_IsLawful params world none_trusted result commits

commit_staged_upload-IsReadied_example :
    IsReadied 21 digest (pos 2) result.job (commit_staged_upload env params world).1.db
commit_staged_upload-IsReadied_example =
    commit_staged_upload-IsReadied env params world
      (run-IsConsistent text claimed_ops empty_db empty-IsConsistent) commits
