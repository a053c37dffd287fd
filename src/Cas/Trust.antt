-- ===== src/Cas/Trust.antt =====
-- What internal/cas/service.go promises: a blob that the database trusts is in the object store.
use imgsrv.Prelude.{String, ◌≡◌, inl, inr, str_eq, eq_iff, Bool-cases, ok, Result-cases, arith}
use imgsrv.Publish.Domain.{Uuid}
use imgsrv.Uploads.Domain.{staging_key, validate_digest}
use imgsrv.Cas.Objects.{IsLawful}
use imgsrv.Cas.World.{
  Environment, World, CommitStagedUploadParams, CommitStagedUploadResult,
  validate_commit_staged_upload_params,
}
use imgsrv.Cas.Commit.{verify_staged_upload, ensure_committed_cas_object, commit_staged_upload}
use imgsrv.Cas.Grows.{verify-Grows}
use imgsrv.Cas.Faithful.{Holds, IsFaithful, IsFaithful-Grows}
use imgsrv.Cas.Committed.{verify-IsVerified}
use imgsrv.Cas.Promises.{
  IsCommitted, ensure-IsCommitted, ensure_committed-Grows, record_commit-IsFaithful,
  record_commit-Holds,
}

-- What the validation has found.
valid_params :
    (uuid_text : Uuid → String) (p : CommitStagedUploadParams)
    → validate_commit_staged_upload_params uuid_text p ≡ ok tt
    → (p.staging_key ≡ staging_key uuid_text p.upload_id)
      × (validate_digest p.expected_digest ≡ ok tt)
unfolding validate_commit_staged_upload_params
valid_params uuid_text p h = (
  elim (Bool-cases (str_eq p.staging_key (staging_key uuid_text p.upload_id))) [
    | inl t ↦ (eq_iff p.staging_key (staging_key uuid_text p.upload_id)).0 t
    | inr n ↦ absurd (ground (arith, n, h))
  ],
  elim (Result-cases (validate_digest p.expected_digest)) [
    | inl (tt, e) ↦ e
    | inr (x, e) ↦ absurd (ground (arith, e, h))
  ],
)

module _ {O : Type 0} (env : Environment O) (laws : IsLawful env.objects)
    (p : CommitStagedUploadParams) (w : World O) (f : IsFaithful env laws w) where
  ensured :
      validate_digest p.expected_digest ≡ ok tt
      → p.staging_key ≡ staging_key env.uuid_text p.upload_id
      → IsCommitted env laws p (ensure_committed_cas_object env p (verify_staged_upload env p w))
  ensured fine keyed =
      ensure-IsCommitted env laws p (verify_staged_upload env p w) fine
        (IsFaithful-Grows env laws (verify-Grows env laws p keyed w) f)
        (λ v h. verify-IsVerified env laws p w h)

  -- A call of CommitStagedUpload, whether it succeeds or fails, keeps every blob that the database trusts
  -- in the object store: at its storage key, with its digest and its size. The object store is lawful, and no other call comes between those of this one.
  pub commit_staged_upload-IsFaithful : IsFaithful env laws (commit_staged_upload env p w).1
  unfolding commit_staged_upload
  commit_staged_upload-IsFaithful =
      elim (Result-cases (validate_commit_staged_upload_params env.uuid_text p)) [
        | inr (e, h) ↦ rw (commit_staged_upload, h) f
        | inl (tt, h) ↦
            let (keyed, fine) = valid_params env.uuid_text p h in
            let verified = verify_staged_upload env p w in
            rw (commit_staged_upload, h)
              (record_commit-IsFaithful env laws p (ensure_committed_cas_object env p verified)
                keyed
                (IsFaithful-Grows env laws (ensure_committed-Grows env laws p verified keyed)
                  (IsFaithful-Grows env laws (verify-Grows env laws p keyed w) f))
                (ensured fine keyed))
      ]

  -- A call of CommitStagedUpload that succeeds returns the declared digest and size, and leaves at the key that it returns an object of that digest
  -- and that size. The object store is lawful, it has every trusted blob before the call, and no other call comes between those of this one.
  pub commit_staged_upload-Holds :
      (r : CommitStagedUploadResult)
      → (commit_staged_upload env p w).0 ≡ ok r
      → (r.digest ≡ p.expected_digest)
        × (r.size_bytes ≡ p.expected_size_bytes)
        × Holds env laws
            (commit_staged_upload env p w).1.objects
            r.storage_key
            p.expected_digest
            p.expected_size_bytes
  unfolding commit_staged_upload
  commit_staged_upload-Holds r done =
      elim (Result-cases (validate_commit_staged_upload_params env.uuid_text p)) [
        | inr (e, h) ↦ absurd (cc (rw (commit_staged_upload, h) at done))
        | inl (tt, h) ↦
            let (keyed, fine) = valid_params env.uuid_text p h in
            let x = ensure_committed_cas_object env p (verify_staged_upload env p w) in
            rw (commit_staged_upload, h)
              (record_commit-Holds env laws p x keyed (ensured fine keyed)
                (rw (commit_staged_upload, h) at done))
      ]
