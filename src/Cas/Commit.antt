-- ===== src/Cas/Commit.antt =====
-- CommitStagedUpload of internal/cas/service.go, and the lookup of blobs that it makes.
use Prim.Native.String.{◌++◌}
use imgsrv.Prelude.{
  ℕ, String, true, not, List, [], ◌∷◌, ◌++◌ as append, length, ℤ, pos, eqb_ℤ, str_eq, ◌&&◌, ◌||◌,
  is_blank, if◌then◌else◌, Result, Error, errors_is, ok, err, row, validated, transact,
  cas_failed_precondition, cas_not_found, object_not_found, object_already_exists, object_conflict,
}
use imgsrv.Publish.Domain.{Uuid}
use imgsrv.Uploads.Domain.{validate_digest}
use imgsrv.Uploads.Tables.{IngestJob, CasBlob, UploadDb, map_cas_error}
use imgsrv.Uploads.Statements.{find_blob}
use imgsrv.Uploads.Ingest.{succeed_ingest_job, fail_ingest_job}
use imgsrv.Cas.Objects.{ObjectInfo, ObjectReader, CopyObjectParams}
use imgsrv.Cas.Keys.{storage_key}
use imgsrv.Cas.World.{
  Environment, World, CommitStagedUploadParams, CommitStagedUploadResult, VerifiedObject, wrapped,
  Io, on_db, on_objects, validate_commit_staged_upload_params,
}

-- Store.GetBlob, of internal/store/postgres/uploads/blobs.go.
unfoldable pub get_blob : String → UploadDb → Result CasBlob × UploadDb
unfolding validate_digest find_blob map_cas_error
get_blob digest =
    validated (wrapped (validate_digest digest))
      (transact map_cas_error (row (λ db. find_blob db digest)))

module _ {O : Type 0} (env : Environment O) where
  -- "sha256:" and the hash in hexadecimal digits.
  abbrev pub digest_of : List ℕ → String
  digest_of content = "sha256:" ++ env.sha256_hex content

  unfoldable pub verify_object_reader : ObjectReader → Result VerifiedObject
  verify_object_reader r = elim r.body [
    | err e ↦ err e
    | ok content ↦
        ok (record { info = r.info; digest = digest_of content; size_bytes = pos (length content) })
  ]

  -- cleanupStagingObject: the outcome of the deletion does not matter.
  unfoldable pub cleanup_staging_object : String → World O → World O
  unfolding is_blank
  cleanup_staging_object key w =
      if is_blank key then w else record w { objects = (env.objects.delete_object key w.objects).1 }

  -- What failCommit answers after FailIngestJob, and what it cleans up.
  unfoldable pub after_fail :
      {A : Type 0} → String → Error → Result IngestJob × World O → Result A × World O
  unfolding cleanup_staging_object
  after_fail key e (ok _, w) = (err e, cleanup_staging_object key w)
  after_fail key e (err x, w) = (err (append e x), w)

  -- failCommit; `cause` is empty where it is nil.
  unfoldable pub fail_commit : {A : Type 0} → Uuid → String → String → Error → Io O A
  unfolding fail_ingest_job cleanup_staging_object after_fail
  fail_commit job_id key message cause w =
      after_fail key (cas_failed_precondition ∷ cause)
        (on_db (fail_ingest_job env.now (record { id = job_id; failure_message = message })) w)

  abbrev pub size_message : ℤ → ℤ → String
  size_message size expected =
      "staged object is " ++ env.itoa size ++ " bytes, expected " ++ env.itoa expected ++ " bytes"

  abbrev pub digest_message : String → String → String
  digest_message digest expected = "staged object digest is " ++ digest ++ ", expected " ++ expected

  unfoldable pub check_staged : CommitStagedUploadParams → VerifiedObject → Io O VerifiedObject
  unfolding fail_commit
  check_staged p v w =
      if not (eqb_ℤ v.size_bytes p.expected_size_bytes)
      then fail_commit p.job_id p.staging_key (size_message v.size_bytes p.expected_size_bytes) [] w
      else if not (str_eq v.digest p.expected_digest)
      then fail_commit p.job_id p.staging_key (digest_message v.digest p.expected_digest) [] w
      else (ok v, w)

  -- What follows OpenObject in verifyStagedUpload.
  unfoldable pub after_open :
      CommitStagedUploadParams → Result ObjectReader × World O → Result VerifiedObject × World O
  unfolding fail_commit verify_object_reader check_staged
  after_open p (err e, w) =
      if errors_is e object_not_found
      then fail_commit p.job_id p.staging_key "staged object is missing" e w
      else (err e, w)
  after_open p (ok r, w) = elim (verify_object_reader r) [
    | err e ↦ (err e, w)
    | ok v ↦ check_staged p v w
  ]

  unfoldable pub verify_staged_upload : CommitStagedUploadParams → Io O VerifiedObject
  unfolding after_open
  verify_staged_upload p w = after_open p (on_objects (env.objects.open_object p.staging_key) w)

  -- requireTrustedBlob, and StatObject.
  unfoldable pub stat_trusted : String → ℤ → CasBlob → Io O ObjectInfo
  stat_trusted key size blob w =
      if not (str_eq blob.storage_key key) || not (eqb_ℤ blob.size_bytes size)
      then (err (cas_failed_precondition ∷ []), w)
      else on_objects (env.objects.stat_object blob.storage_key) w

  -- What recoverExistingCASObject makes of an object that is not trusted yet.
  unfoldable pub check_existing :
      String → ℤ → Result ObjectReader × World O → Result ObjectInfo × World O
  unfolding verify_object_reader
  check_existing digest size (err e, w) = (err e, w)
  check_existing digest size (ok r, w) = elim (verify_object_reader r) [
    | err e ↦ (err e, w)
    | ok v ↦
        if not (eqb_ℤ v.size_bytes size) || not (str_eq v.digest digest)
        then (err (cas_failed_precondition ∷ []), w)
        else (ok v.info, w)
  ]

  -- What follows GetBlob in recoverExistingCASObject.
  unfoldable pub after_get :
      String → ℤ → String → Result CasBlob × World O → Result ObjectInfo × World O
  unfolding stat_trusted check_existing
  after_get digest size key (ok blob, w) = stat_trusted key size blob w
  after_get digest size key (err e, w) =
      if errors_is e cas_not_found
      then check_existing digest size (on_objects (env.objects.open_object key) w)
      else (err e, w)

  unfoldable pub recover_existing_cas_object : String → ℤ → String → Io O ObjectInfo
  unfolding get_blob after_get
  recover_existing_cas_object digest size key w =
      after_get digest size key (on_db (get_blob digest) w)

  -- What ensureCASObject answers after a recovery without an entity tag.
  abbrev pub after_blind : Result ObjectInfo × World O → Result ObjectInfo × World O
  after_blind (ok info, w) = (ok info, w)
  after_blind (err e, w) =
      (err (if errors_is e object_not_found then cas_failed_precondition ∷ [] else e), w)

  -- And after a copy has failed with `e`.
  abbrev pub after_recovery : Error → Result ObjectInfo × World O → Result ObjectInfo × World O
  after_recovery e (ok info, w) = (ok info, w)
  after_recovery e (err x, w) = (
    err (
        if errors_is e object_conflict && errors_is x object_not_found
        then e
        else if errors_is x cas_failed_precondition
        then x
        else append e x),
    w,
  )

  unfoldable pub after_copy :
      String → ℤ → String → Result ObjectInfo × World O → Result ObjectInfo × World O
  unfolding recover_existing_cas_object
  after_copy digest size key (ok info, w) = (ok info, w)
  after_copy digest size key (err e, w) =
      if errors_is e object_already_exists || errors_is e object_conflict
      then after_recovery e (recover_existing_cas_object digest size key w)
      else (err e, w)

  abbrev pub copy_params : String → String → String → CopyObjectParams
  copy_params staging key etag = record {
    source_key = staging;
    if_source_etag = etag;
    destination_key = key;
    if_destination_absent = true;
  }

  -- ensureCASObject, for the entity tag of the staged object that was verified.
  unfoldable pub ensure_cas_object : String → ℤ → String → String → String → Io O ObjectInfo
  unfolding recover_existing_cas_object after_copy is_blank
  ensure_cas_object digest size staging key etag w =
      if is_blank etag
      then after_blind (recover_existing_cas_object digest size key w)
      else after_copy digest size key
          (on_objects (env.objects.copy_object (copy_params staging key etag)) w)

  -- What ensureCommittedCASObject makes of the outcome, with requireCASObjectInfo. The message is the
  -- text of the error without its prefix.
  unfoldable pub after_ensure :
      CommitStagedUploadParams → String → Result ObjectInfo × World O → Result String × World O
  unfolding fail_commit
  after_ensure p key (err e, w) =
      if errors_is e cas_failed_precondition
      then fail_commit p.job_id p.staging_key (env.text e) [] w
      else (err e, w)
  after_ensure p key (ok info, w) =
      if not (str_eq info.key key) || not (eqb_ℤ info.size_bytes p.expected_size_bytes)
      then fail_commit p.job_id p.staging_key (env.text (cas_failed_precondition ∷ [])) [] w
      else (ok key, w)

  unfoldable pub ensure_committed_cas_object :
      CommitStagedUploadParams → Result VerifiedObject × World O → Result String × World O
  unfolding ensure_cas_object after_ensure storage_key
  ensure_committed_cas_object p (err e, w) = (err e, w)
  ensure_committed_cas_object p (ok v, w) =
      let key = storage_key p.expected_digest in
      after_ensure p key
        (ensure_cas_object p.expected_digest p.expected_size_bytes p.staging_key key v.info.etag w)

  -- What follows SucceedIngestJob.
  unfoldable pub after_succeed :
      CommitStagedUploadParams
      → String
      → Result IngestJob × World O
      → Result CommitStagedUploadResult × World O
  unfolding cleanup_staging_object
  after_succeed p key (err e, w) = (err e, w)
  after_succeed p key (ok job, w) = (
    ok (record {
      job = job;
      digest = p.expected_digest;
      size_bytes = p.expected_size_bytes;
      storage_key = key;
    }),
    cleanup_staging_object p.staging_key w,
  )

  unfoldable pub record_commit :
      CommitStagedUploadParams → Result String × World O → Result CommitStagedUploadResult × World O
  unfolding succeed_ingest_job after_succeed
  record_commit p (err e, w) = (err e, w)
  record_commit p (ok key, w) = after_succeed p key (
      on_db
        (succeed_ingest_job env.now (record {
          id = p.job_id;
          digest = p.expected_digest;
          size_bytes = p.expected_size_bytes;
          storage_key = key;
          media_type = p.media_type;
        }))
        w)

  -- CommitStagedUpload.
  unfoldable pub commit_staged_upload : CommitStagedUploadParams → Io O CommitStagedUploadResult
  unfolding validate_commit_staged_upload_params verify_staged_upload ensure_committed_cas_object
      record_commit
  commit_staged_upload p w = elim (validate_commit_staged_upload_params env.uuid_text p) [
    | err e ↦ (err e, w)
    | ok _ ↦ record_commit p (ensure_committed_cas_object p (verify_staged_upload p w))
  ]
