-- ===== src/Cas/Grows.antt =====
-- The steps of internal/cas/service.go before a success is recorded add no blob and take no stored
-- object away.
use imgsrv.Prelude.{
  String, false, not, some, [], ◌∷◌, ◌≡◌, refl, ◌∙◌, inl, inr, ◌||◌, eqb_ℤ, str_eq, is_blank,
  Bool-cases, Result, Error, errors_is, ok, err, Result-cases, cas_failed_precondition,
  object_not_found,
}
use imgsrv.Publish.Domain.{Uuid}
use imgsrv.Uploads.Domain.{FailIngestJobParams, staging_key}
use imgsrv.Uploads.Tables.{IngestJob}
use imgsrv.Uploads.Statements.{checked_storage_key}
use imgsrv.Uploads.Ingest.{fail_ingest_job}
use imgsrv.Uploads.Blobs.{fail_ingest_job-blobs}
use imgsrv.Cas.Objects.{ObjectInfo, ObjectReader, Stored, IsLawful}
use imgsrv.Cas.Keys.{staging-apart}
use imgsrv.Cas.World.{
  Environment, World, CommitStagedUploadParams, VerifiedObject, on_db, on_objects,
}
use imgsrv.Cas.Commit.{
  verify_object_reader, cleanup_staging_object, after_fail, fail_commit, check_staged, size_message,
  digest_message, after_open, verify_staged_upload, after_ensure,
}

module _ {O : Type 0} (env : Environment O) (laws : IsLawful env.objects) where
  -- From one world to another, no blob is added and every object at a storage key is kept.
  pub record Grows (w w' : World O) : Type 0 where
    pub blobs : w'.db.blobs ≡ w.db.blobs
    pub kept :
        (digest : String) (x : Stored)
        → laws.stored w.objects (checked_storage_key digest) ≡ some x
        → laws.stored w'.objects (checked_storage_key digest) ≡ some x

  pub Grows-refl : (w : World O) → Grows w w
  Grows-refl w = record { blobs = refl; kept = λ _ _ h. h }

  pub Grows-trans : {a b c : World O} → Grows a b → Grows b c → Grows a c
  Grows-trans g h = record { blobs = h.blobs ∙ g.blobs; kept = λ d x e. h.kept d x (g.kept d x e) }

  pub open-Grows :
      (key : String) (w : World O) → Grows w (on_objects (env.objects.open_object key) w).1
  open-Grows key w = record { blobs = refl; kept = λ d x e. laws.open_keeps key w.objects _ ∙ e }

  pub stat-Grows :
      (key : String) (w : World O) → Grows w (on_objects (env.objects.stat_object key) w).1
  stat-Grows key w = record { blobs = refl; kept = λ d x e. laws.stat_keeps key w.objects _ ∙ e }

  -- With the staging key of an upload.
  module _ (key : String) (id : Uuid) (keyed : key ≡ staging_key env.uuid_text id) where
    pub cleanup-Grows : (w : World O) → Grows w (cleanup_staging_object env key w)
    unfolding cleanup_staging_object
    cleanup-Grows w = elim (Bool-cases (is_blank key)) [
      | inl e ↦ rw e (Grows-refl w)
      | inr e ↦
          rw e (record {
            blobs = refl;
            kept = λ d x h. laws.delete_keeps key w.objects _ (apart d) ∙ h;
          })
    ]
      where
        apart : (d : String) → str_eq key (checked_storage_key d) ≡ false
        apart d = rw keyed (staging-apart env.uuid_text id d)

    after_fail-Grows :
        (A : Type 0) (x : Result IngestJob × World O) (e : Error) {w : World O}
        → Grows w x.1
        → Grows w (after_fail env {A = A} key e x).1
    unfolding after_fail
    after_fail-Grows A (ok _, v) e g = Grows-trans g (cleanup-Grows v)
    after_fail-Grows A (err _, v) e g = g

    pub fail_commit-Grows :
        (A : Type 0) (job_id : Uuid) (message : String) (cause : Error) (w : World O)
        → Grows w (fail_commit env {A = A} job_id key message cause w).1
    unfolding fail_commit
    fail_commit-Grows A job_id message cause w =
        let p : FailIngestJobParams = record { id = job_id; failure_message = message } in
        after_fail-Grows A (on_db (fail_ingest_job env.now p) w) (cas_failed_precondition ∷ cause)
          (record { blobs = fail_ingest_job-blobs env.now p w.db; kept = λ _ _ h. h })

  module _ (p : CommitStagedUploadParams)
      (keyed : p.staging_key ≡ staging_key env.uuid_text p.upload_id) where
    check_staged-Grows : (v : VerifiedObject) (w : World O) → Grows w (check_staged env p v w).1
    unfolding check_staged
    check_staged-Grows v w = elim (Bool-cases (eqb_ℤ v.size_bytes p.expected_size_bytes)) [
      | inr n ↦ rw n (
          fail_commit-Grows p.staging_key p.upload_id keyed VerifiedObject p.job_id
            (size_message env v.size_bytes p.expected_size_bytes) [] w)
      | inl t ↦ elim (Bool-cases (str_eq v.digest p.expected_digest)) [
        | inr n ↦
            rw (t, n)
              (fail_commit-Grows p.staging_key p.upload_id keyed VerifiedObject p.job_id
                (digest_message env v.digest p.expected_digest) [] w)
        | inl u ↦ rw (t, u) (Grows-refl w)
      ]
    ]

    after_open-Grows :
        (x : Result ObjectReader × World O) {w : World O}
        → Grows w x.1
        → Grows w (after_open env p x).1
    unfolding after_open
    after_open-Grows (err e, v) g = elim (Bool-cases (errors_is e object_not_found)) [
      | inl t ↦ rw t (
          Grows-trans g (
            fail_commit-Grows p.staging_key p.upload_id keyed VerifiedObject p.job_id
              "staged object is missing" e v))
      | inr n ↦ rw n g
    ]
    after_open-Grows (ok r, v) g = elim (Result-cases (verify_object_reader env r)) [
      | inl (o, e) ↦ rw (after_open, e) (Grows-trans g (check_staged-Grows o v))
      | inr (e, h) ↦ rw (after_open, h) g
    ]

    pub verify-Grows : (w : World O) → Grows w (verify_staged_upload env p w).1
    unfolding verify_staged_upload
    verify-Grows w =
        after_open-Grows (on_objects (env.objects.open_object p.staging_key) w)
          (open-Grows p.staging_key w)

    pub after_ensure-Grows :
        (key : String) (x : Result ObjectInfo × World O) {w : World O}
        → Grows w x.1
        → Grows w (after_ensure env p key x).1
    unfolding after_ensure
    after_ensure-Grows key (err e, v) g = elim (Bool-cases (errors_is e cas_failed_precondition)) [
      | inl t ↦ rw t (
          Grows-trans g
            (fail_commit-Grows p.staging_key p.upload_id keyed String p.job_id (env.text e) [] v))
      | inr n ↦ rw n g
    ]
    after_ensure-Grows key (ok info, v) g =
        elim (Bool-cases
          (not (str_eq info.key key) || not (eqb_ℤ info.size_bytes p.expected_size_bytes))) [
            | inl t ↦ rw t (
                Grows-trans g (
                  fail_commit-Grows p.staging_key p.upload_id keyed String p.job_id
                    (env.text (cas_failed_precondition ∷ [])) [] v))
            | inr n ↦ rw n g
          ]
