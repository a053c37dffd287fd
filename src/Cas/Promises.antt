-- ===== src/Cas/Promises.antt =====
-- CommitStagedUpload of internal/cas/service.go as a whole: the trusted blobs before and after it.
use imgsrv.Prelude.{
  String, not, [], ◌∷◌, ◌≡◌, refl, sym, ◌∙◌, subst, inl, inr, ◌||◌, eqb_ℤ, str_eq, Bool-cases,
  Result, errors_is, ok, err, Result-cases, All, cas_failed_precondition, arith,
}
use imgsrv.Uploads.Domain.{staging_key, validate_digest, SucceedIngestJobParams}
use imgsrv.Uploads.Tables.{IngestJob}
use imgsrv.Uploads.Statements.{checked_storage_key}
use imgsrv.Uploads.Ingest.{succeed_ingest_job}
use imgsrv.Uploads.Blobs.{succeed_ingest_job-IsRecorded}
use imgsrv.Cas.Objects.{ObjectInfo, IsLawful}
use imgsrv.Cas.Keys.{storage_key, storage_key-checked}
use imgsrv.Cas.World.{
  Environment, World, CommitStagedUploadParams, CommitStagedUploadResult, VerifiedObject, on_db,
}
use imgsrv.Cas.Commit.{
  ensure_cas_object, after_ensure, ensure_committed_cas_object, after_succeed, record_commit,
}
use imgsrv.Cas.Grows.{Grows, Grows-refl, cleanup-Grows, after_ensure-Grows}
use imgsrv.Cas.Recovery.{ensure-Grows}
use imgsrv.Cas.Faithful.{Holds, IsKept, IsFaithful, Holds-Grows, IsFaithful-Grows}
use imgsrv.Cas.Ensured.{ensure-Holds}
use imgsrv.Cas.Committed.{IsVerified, fail_commit-err}

-- The outcome that a commit records.
abbrev pub outcome : CommitStagedUploadParams → String → SucceedIngestJobParams
outcome p key = record {
  id = p.job_id;
  digest = p.expected_digest;
  size_bytes = p.expected_size_bytes;
  storage_key = key;
  media_type = p.media_type;
}

module _ {O : Type 0} (env : Environment O) (laws : IsLawful env.objects)
    (p : CommitStagedUploadParams) where
  after_ensure-ok :
      (key : String) (x : Result ObjectInfo × World O) {k : String}
      → (after_ensure env p key x).0 ≡ ok k
      → (k ≡ key) × (i : ObjectInfo) × (x.0 ≡ ok i) × ((after_ensure env p key x).1 ≡ x.1)
  unfolding after_ensure
  after_ensure-ok key (err e, w) {k} h = elim (Bool-cases (errors_is e cas_failed_precondition)) [
    | inl t ↦ absurd (
        fail_commit-err env laws p k p.job_id p.staging_key (env.text e) [] w
          (rw (after_ensure, t) at h))
    | inr n ↦ absurd (cc (rw (after_ensure, n) at h))
  ]
  after_ensure-ok key (ok i, w) {k} h =
      elim (Bool-cases (not (str_eq i.key key) || not (eqb_ℤ i.size_bytes p.expected_size_bytes))) [
        | inl t ↦ absurd (
            fail_commit-err env laws p k p.job_id p.staging_key
              (env.text (cas_failed_precondition ∷ [])) [] w (rw (after_ensure, t) at h))
        | inr n ↦ (sym (at_key (rw (after_ensure, n) at h)), i, refl, rw (after_ensure, n) refl)
      ]
    where
      at_key : ◌≡◌ {A = Result String} (ok key) (ok k) → key ≡ k
      at_key e = ground (arith, e)

  abbrev pub IsCommitted : Result String × World O → Type 0
  IsCommitted x =
      (k : String)
      → x.0 ≡ ok k
      → (k ≡ checked_storage_key p.expected_digest)
        × Holds env laws x.1.objects k p.expected_digest p.expected_size_bytes

  pub ensure-IsCommitted :
      (x : Result VerifiedObject × World O)
      → validate_digest p.expected_digest ≡ ok tt
      → IsFaithful env laws x.1
      → ((v : VerifiedObject) → x.0 ≡ ok v → IsVerified env laws p v x.1)
      → IsCommitted (ensure_committed_cas_object env p x)
  unfolding ensure_committed_cas_object
  ensure-IsCommitted (err e, w) fine f verified k h = absurd (cc)
  ensure-IsCommitted (ok v, w) fine f verified k h =
      let keyed = storage_key-checked p.expected_digest fine in
      let key = storage_key p.expected_digest in
      let (c, at_staging, hashed, sized) = verified v refl in
      let done =
        ensure_cas_object env p.expected_digest p.expected_size_bytes p.staging_key key v.info.etag
          w in
      let (at_key, i, ensured, same) = after_ensure-ok key done h in
      let held =
        ensure-Holds env laws p.expected_digest p.expected_size_bytes p.staging_key key v.info.etag
          keyed w c f at_staging hashed sized ensured in
      (
        at_key ∙ keyed,
        subst
            (λ n.
              Holds env laws (ensure_committed_cas_object env p (ok v, w)).1.objects n
                p.expected_digest p.expected_size_bytes)
            (sym at_key)
            (subst
              (λ (u : World O).
                Holds env laws u.objects key p.expected_digest p.expected_size_bytes)
              (sym same) held),
      )

  pub ensure_committed-Grows :
      (x : Result VerifiedObject × World O)
      → p.staging_key ≡ staging_key env.uuid_text p.upload_id
      → Grows env laws x.1 (ensure_committed_cas_object env p x).1
  unfolding ensure_committed_cas_object
  ensure_committed-Grows (err e, w) keyed = Grows-refl env laws w
  ensure_committed-Grows (ok v, w) keyed =
      let key = storage_key p.expected_digest in
      after_ensure-Grows env laws p keyed key
        (ensure_cas_object env p.expected_digest p.expected_size_bytes p.staging_key key v.info.etag
          w)
        (ensure-Grows env laws p.expected_digest p.expected_size_bytes p.staging_key key v.info.etag
          w)

  succeed-IsFaithful :
      (key : String) (w : World O)
      → IsFaithful env laws w
      → Holds env laws w.objects key p.expected_digest p.expected_size_bytes
      → IsFaithful env laws (on_db (succeed_ingest_job env.now (outcome p key)) w).1
  succeed-IsFaithful key w f held =
      elim (succeed_ingest_job-IsRecorded env.now (outcome p key) w.db) [
        | inl e ↦ subst (All (IsKept env laws w.objects)) (sym e) f
        | inr (e, k) ↦ subst (All (IsKept env laws w.objects)) (sym e) ((k, held), f)
      ]

  after_succeed-Grows :
      (key : String) (x : Result IngestJob × World O)
      → p.staging_key ≡ staging_key env.uuid_text p.upload_id
      → Grows env laws x.1 (after_succeed env p key x).1
  unfolding after_succeed
  after_succeed-Grows key (err e, w) keyed = Grows-refl env laws w
  after_succeed-Grows key (ok j, w) keyed = cleanup-Grows env laws p.staging_key p.upload_id keyed w

  pub record_commit-IsFaithful :
      (x : Result String × World O)
      → p.staging_key ≡ staging_key env.uuid_text p.upload_id
      → IsFaithful env laws x.1
      → IsCommitted x
      → IsFaithful env laws (record_commit env p x).1
  unfolding record_commit
  record_commit-IsFaithful (err e, w) keyed f committed = f
  record_commit-IsFaithful (ok key, w) keyed f committed =
      let (_, held) = committed key refl in
      IsFaithful-Grows env laws
        (after_succeed-Grows key (on_db (succeed_ingest_job env.now (outcome p key)) w) keyed)
        (succeed-IsFaithful key w f held)

  pub record_commit-Holds :
      (x : Result String × World O) {r : CommitStagedUploadResult}
      → p.staging_key ≡ staging_key env.uuid_text p.upload_id
      → IsCommitted x
      → (record_commit env p x).0 ≡ ok r
      → (r.digest ≡ p.expected_digest)
        × (r.size_bytes ≡ p.expected_size_bytes)
        × Holds env laws
            (record_commit env p x).1.objects
            r.storage_key
            p.expected_digest
            p.expected_size_bytes
  unfolding record_commit after_succeed
  record_commit-Holds (err e, w) keyed committed h = absurd (cc)
  record_commit-Holds (ok key, w) {r} keyed committed h =
      let (at_key, held) = committed key refl in
      let stays =
        Holds-Grows env laws p.expected_digest
          (after_succeed-Grows key (on_db (succeed_ingest_job env.now (outcome p key)) w) keyed)
          at_key held in
      elim (Result-cases (succeed_ingest_job env.now (outcome p key) w.db).0) [
        | inr (e, n) ↦ absurd (cc (rw (record_commit, on_db, n, after_succeed) at h))
        | inl (j, e) ↦
            let made = rw (record_commit, on_db, e, after_succeed) at h in
            let same : key ≡ r.storage_key = ground (arith, made) in
            (
              ground (arith, made),
              ground (arith, made),
              subst
                  (λ k.
                    Holds env laws (record_commit env p (ok key, w)).1.objects k p.expected_digest
                      p.expected_size_bytes)
                  same stays,
            )
      ]
