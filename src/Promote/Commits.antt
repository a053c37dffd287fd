-- ===== src/Promote/Commits.antt =====
-- What CommitStagedUpload of internal/cas/service.go does to the tables of uploads.
use imgsrv.Prelude.{
  String, not, [], ◌∷◌, ◌≡◌, refl, ap, ◌||◌, eqb_ℤ, str_eq, is_blank, inl, inr, ℤ, Result, Error,
  errors_is, ok, err, Bool-cases, cas_failed_precondition, cas_not_found, object_not_found,
  object_already_exists, object_conflict,
}
use imgsrv.Publish.Domain.{Uuid}
use imgsrv.Uploads.Tables.{IngestJob, CasBlob, UploadDb}
use imgsrv.Uploads.Ingest.{fail_ingest_job}
use imgsrv.Uploads.Calls.{fail, apply}
use imgsrv.Cas.Objects.{ObjectInfo, ObjectReader}
use imgsrv.Cas.Keys.{storage_key}
use imgsrv.Cas.World.{
  Environment, World, CommitStagedUploadParams, VerifiedObject, on_db, on_objects,
}
use imgsrv.Cas.Commit.{
  get_blob, verify_object_reader, cleanup_staging_object, after_fail, fail_commit, check_staged,
  size_message, digest_message, after_open, after_get, recover_existing_cas_object, after_blind,
  after_recovery, copy_params, after_copy, ensure_cas_object, after_ensure,
  ensure_committed_cas_object,
}
use imgsrv.Cas.Recovery.{get_blob-same, check_existing-same}
use imgsrv.Promote.Leads.{
  Leads, equal-Leads, Leads-trans, apply-Leads, Follows, if-Follows, checked-Follows,
}

module _ {O : Type 0} (env : Environment O) (db : UploadDb) where
  pub cleanup-db : (key : String) (w : World O) → (cleanup_staging_object env key w).db ≡ w.db
  unfolding cleanup_staging_object
  cleanup-db key w = elim (Bool-cases (is_blank key)) [ inl t ↦ rw t refl | inr n ↦ rw n refl ]

  after_fail-Follows :
      (A : Type 0) (key : String) (e : Error) (r : Result IngestJob × World O)
      → Leads db r.1.db
      → Follows db (after_fail env {A = A} key e r)
  unfolding after_fail
  after_fail-Follows A key e (ok j, w) h = Leads-trans h (equal-Leads (cleanup-db key w))
  after_fail-Follows A key e (err x, w) h = h

  fail_commit-Follows :
      (A : Type 0) (job_id : Uuid) (key message : String) (cause : Error) (w : World O)
      → Leads db w.db
      → Follows db (fail_commit env {A = A} job_id key message cause w)
  unfolding fail_commit apply
  fail_commit-Follows A job_id key message cause w h =
      after_fail-Follows A key (cas_failed_precondition ∷ cause)
        (on_db (fail_ingest_job env.now (record { id = job_id; failure_message = message })) w)
        (Leads-trans h (
          apply-Leads env.uuid_text
            (fail env.now (record { id = job_id; failure_message = message })) w.db))

  check_staged-Follows :
      (p : CommitStagedUploadParams) (v : VerifiedObject) (w : World O)
      → Leads db w.db
      → Follows db (check_staged env p v w)
  unfolding check_staged
  check_staged-Follows p v w h =
      if-Follows db (not (eqb_ℤ v.size_bytes p.expected_size_bytes)) _ _
        (fail_commit-Follows _ p.job_id p.staging_key
          (size_message env v.size_bytes p.expected_size_bytes) [] w h)
        (if-Follows db (not (str_eq v.digest p.expected_digest)) _ _
          (fail_commit-Follows _ p.job_id p.staging_key
            (digest_message env v.digest p.expected_digest) [] w h)
          h)

  pub after_open-Follows :
      (p : CommitStagedUploadParams) (r : Result ObjectReader × World O)
      → Leads db r.1.db
      → Follows db (after_open env p r)
  unfolding after_open
  after_open-Follows p (err e, w) h =
      if-Follows db (errors_is e object_not_found) _ _
        (fail_commit-Follows _ p.job_id p.staging_key "staged object is missing" e w h) h
  after_open-Follows p (ok r, w) h =
      checked-Follows db (verify_object_reader env r) (λ e. (err e, w))
        (λ v. check_staged env p v w) (λ _. h) (λ v. check_staged-Follows p v w h)

  recover-Follows :
      (digest : String) (size : ℤ) (key : String) (w : World O)
      → Leads db w.db
      → Follows db (recover_existing_cas_object env digest size key w)
  unfolding recover_existing_cas_object
  recover-Follows digest size key w h =
      looked (on_db (get_blob digest) w) (Leads-trans h (equal-Leads (get_blob-same digest w.db)))
    where
      looked :
          (r : Result CasBlob × World O)
          → Leads db r.1.db
          → Follows db (after_get env digest size key r)
      looked (ok b, v) g =
          if-Follows db (not (str_eq b.storage_key key) || not (eqb_ℤ b.size_bytes size)) _ _ g g
      looked (err e, v) g =
          if-Follows db (errors_is e cas_not_found) _ _
            (Leads-trans g (
              equal-Leads (
                ap (λ (u : World O). u.db)
                  (check_existing-same env digest size
                    (on_objects (env.objects.open_object key) v)))))
            g

  ensure-Follows :
      (digest : String) (size : ℤ) (staging key etag : String) (w : World O)
      → Leads db w.db
      → Follows db (ensure_cas_object env digest size staging key etag w)
  unfolding ensure_cas_object
  ensure-Follows digest size staging key etag w h =
      if-Follows db (is_blank etag) _ _
        (blind (recover_existing_cas_object env digest size key w)
          (recover-Follows digest size key w h))
        (copied (on_objects (env.objects.copy_object (copy_params env staging key etag)) w) h)
    where
      blind : (r : Result ObjectInfo × World O) → Leads db r.1.db → Follows db (after_blind env r)
      blind (ok info, v) g = g
      blind (err e, v) g = g

      recovered :
          (e : Error) (r : Result ObjectInfo × World O)
          → Leads db r.1.db
          → Follows db (after_recovery env e r)
      recovered e (ok info, v) g = g
      recovered e (err x, v) g = g

      copied :
          (r : Result ObjectInfo × World O)
          → Leads db r.1.db
          → Follows db (after_copy env digest size key r)
      copied (ok info, v) g = g
      copied (err e, v) g =
          if-Follows db (errors_is e object_already_exists || errors_is e object_conflict) _ _
            (recovered e (recover_existing_cas_object env digest size key v)
              (recover-Follows digest size key v g))
            g

  after_ensure-Follows :
      (p : CommitStagedUploadParams) (key : String) (r : Result ObjectInfo × World O)
      → Leads db r.1.db
      → Follows db (after_ensure env p key r)
  unfolding after_ensure
  after_ensure-Follows p key (err e, w) h =
      if-Follows db (errors_is e cas_failed_precondition) _ _
        (fail_commit-Follows _ p.job_id p.staging_key (env.text e) [] w h) h
  after_ensure-Follows p key (ok i, w) h =
      if-Follows db (not (str_eq i.key key) || not (eqb_ℤ i.size_bytes p.expected_size_bytes)) _ _
        (fail_commit-Follows _ p.job_id p.staging_key (env.text (cas_failed_precondition ∷ [])) [] w
          h)
        h

  pub ensure_committed-Follows :
      (p : CommitStagedUploadParams) (r : Result VerifiedObject × World O)
      → Leads db r.1.db
      → Follows db (ensure_committed_cas_object env p r)
  unfolding ensure_committed_cas_object
  ensure_committed-Follows p (err e, w) h = h
  ensure_committed-Follows p (ok v, w) h =
      let key = storage_key p.expected_digest in
      after_ensure-Follows p key
        (ensure_cas_object env p.expected_digest p.expected_size_bytes p.staging_key key v.info.etag
          w)
        (ensure-Follows p.expected_digest p.expected_size_bytes p.staging_key key v.info.etag w h)
