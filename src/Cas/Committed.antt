-- ===== src/Cas/Committed.antt =====
-- CommitStagedUpload of internal/cas/service.go keeps every trusted blob at its storage key, and puts the
-- blob that it commits there.
use imgsrv.Prelude.{
  ℕ, String, some, List, [], ◌∷◌, ◌≡◌, refl, sym, ap, ◌∙◌, subst, inl, inr, pos, length, eqb_ℤ,
  eqb_ℤ_sound, str_eq, eq_iff, Bool-cases, Result, Error, errors_is, ok, err, if◌then◌else◌,
  Result-cases, cas_failed_precondition, object_not_found, arith,
}
use imgsrv.Publish.Domain.{Uuid}
use imgsrv.Uploads.Tables.{IngestJob}
use imgsrv.Cas.Objects.{ObjectInfo, IsLawful}
use imgsrv.Cas.World.{Environment, World, CommitStagedUploadParams, VerifiedObject, on_objects}
use imgsrv.Cas.Commit.{
  digest_of, verify_object_reader, check_staged, size_message, digest_message, fail_commit,
  after_fail, after_open, verify_staged_upload,
}
use imgsrv.Cas.Faithful.{verify-ok}

module _ {O : Type 0} (env : Environment O) (laws : IsLawful env.objects)
    (p : CommitStagedUploadParams) where
  -- A commit that fails returns no value.
  pub fail_commit-err :
      {A : Type 0} (a : A) (job_id : Uuid) (key message : String) (cause : Error) (w : World O)
      → (fail_commit env {A = A} job_id key message cause w).0 ≡ ok a
      → ⊥
  unfolding fail_commit after_fail
  fail_commit-err {A} a job_id key message cause w h = after a _ h
    where
      after :
          (a : A) (x : Result IngestJob × World O)
          → (after_fail env {A = A} key (cas_failed_precondition ∷ cause) x).0 ≡ ok a
          → ⊥
      after a (ok _, v) h = cc (h)
      after a (err _, v) h = cc (h)

  -- The staged object has been read whole, and has the digest and the size that were declared.
  abbrev pub IsVerified : VerifiedObject → World O → Type 0
  IsVerified v w =
      (c : List ℕ) × (laws.stored w.objects p.staging_key
        ≡ some (record { content = c; etag = v.info.etag }))
      × (digest_of env c ≡ p.expected_digest)
      × (pos (length c) ≡ p.expected_size_bytes)

  check_staged-ok :
      (o : VerifiedObject) (w : World O) {v : VerifiedObject}
      → (check_staged env p o w).0 ≡ ok v
      → (v ≡ o)
        × ((check_staged env p o w).1 ≡ w)
        × (o.size_bytes ≡ p.expected_size_bytes)
        × (o.digest ≡ p.expected_digest)
  unfolding check_staged
  check_staged-ok o w {v} h = elim (Bool-cases (eqb_ℤ o.size_bytes p.expected_size_bytes)) [
    | inr n ↦ absurd (
        fail_commit-err v p.job_id p.staging_key
          (size_message env o.size_bytes p.expected_size_bytes) [] w (rw (check_staged, n) at h))
    | inl t ↦ elim (Bool-cases (str_eq o.digest p.expected_digest)) [
      | inr n ↦ absurd (
          fail_commit-err v p.job_id p.staging_key (digest_message env o.digest p.expected_digest)
            [] w (rw (check_staged, t, n) at h))
      | inl u ↦
          let e = rw (check_staged, t, u) at h in
          (
            ground (arith, e),
            rw (check_staged, t, u) refl,
            eqb_ℤ_sound o.size_bytes p.expected_size_bytes t,
            (eq_iff o.digest p.expected_digest).0 u,
          )
    ]
  ]

  pub verify-IsVerified :
      (w : World O) {v : VerifiedObject}
      → (verify_staged_upload env p w).0 ≡ ok v
      → IsVerified v (verify_staged_upload env p w).1
  unfolding verify_staged_upload after_open
  verify-IsVerified w {v} h =
      elim (Result-cases (env.objects.open_object p.staging_key w.objects).0) [
        | inr (x, e) ↦
            absurd (missing x _ (rw (verify_staged_upload, on_objects, e, after_open) at h))
        | inl (r, e) ↦ elim (Result-cases (verify_object_reader env r)) [
          | inr (x, n) ↦ absurd (cc (rw (verify_staged_upload, on_objects, e, after_open, n) at h))
          | inl (o, n) ↦
              let w2 : World O = record w {
                objects = (env.objects.open_object p.staging_key w.objects).1;
              } in
              let (c, read, info, hashed, sized) = verify-ok env laws r n in
              let (same, kept, size, digest) =
                check_staged-ok o w2
                  (rw (verify_staged_upload, on_objects, e, after_open, n) at h) in
              let opened : laws.stored w2.objects p.staging_key
                  ≡ some (record { content = c; etag = r.info.etag }) =
                laws.open_keeps p.staging_key w.objects p.staging_key
                ∙ laws.open_reads p.staging_key w.objects r c e read in
              let etag : r.info.etag ≡ v.info.etag =
                sym (ap (λ (i : ObjectInfo). i.etag) info)
                ∙ sym (ap (λ (z : VerifiedObject). z.info.etag) same) in
              rw (verify_staged_upload, on_objects, e, after_open, n)
                (subst (IsVerified v) (sym kept) (
                  c,
                  subst
                      (λ t.
                        laws.stored w2.objects p.staging_key
                        ≡ some (record { content = c; etag = t }))
                      etag opened,
                  sym hashed ∙ digest,
                  sym sized ∙ size,
                ))
        ]
      ]
    where
      missing :
          (x : Error) (w2 : World O)
          → (if errors_is x object_not_found
              then fail_commit env p.job_id p.staging_key "staged object is missing" x w2
              else (err x, w2)).0
            ≡ ok v
          → ⊥
      missing x w2 h = elim (Bool-cases (errors_is x object_not_found)) [
        | inl t ↦
            fail_commit-err v p.job_id p.staging_key "staged object is missing" x w2 (rw t at h)
        | inr n ↦ cc (rw n at h)
      ]
