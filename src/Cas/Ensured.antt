-- ===== src/Cas/Ensured.antt =====
-- When recoverExistingCASObject and ensureCASObject of internal/cas/service.go succeed, the object is at
-- its storage key.
use imgsrv.Prelude.{
  ℕ, String, not, Option, some, List, ◌≡◌, refl, sym, ap, ◌∙◌, subst, inl, inr, ◌||◌, ℤ, pos,
  length, eqb_ℤ, eqb_ℤ_sound, str_eq, eq_iff, is_blank, Bool-cases, Result, Error, errors_is, ok,
  err, Result-cases, All-find, find, cas_not_found, object_already_exists, object_conflict, arith,
}
use imgsrv.Uploads.Tables.{CasBlob}
use imgsrv.Uploads.Statements.{checked_storage_key}
use imgsrv.Cas.Objects.{ObjectInfo, Stored, IsLawful}
use imgsrv.Cas.World.{Environment, World, on_db, on_objects}
use imgsrv.Cas.Commit.{
  digest_of, get_blob, stat_trusted, check_existing, after_get, recover_existing_cas_object,
  after_blind, after_recovery, after_copy, ensure_cas_object, copy_params,
}
use imgsrv.Cas.Recovery.{recover-Grows, copy-Grows, check_existing-same}
use imgsrv.Cas.Faithful.{
  Holds, IsKept, IsFaithful, Holds-Grows, IsFaithful-Grows, check_existing-Holds, get_blob-ok,
}

module _ {O : Type 0} (env : Environment O) (laws : IsLawful env.objects) where
  -- A trusted blob that is taken again.
  stat_trusted-Holds :
      (key digest : String) (size : ℤ) (b : CasBlob) (w w' : World O) {info : ObjectInfo}
      → IsFaithful env laws w
      → find (λ o. str_eq o.digest digest) w.db.blobs ≡ some b
      → (stat_trusted env key size b w').0 ≡ ok info
      → Holds env laws w.objects key digest size
  unfolding stat_trusted
  stat_trusted-Holds key digest size b w w' f found h =
      elim (Bool-cases (not (str_eq b.storage_key key) || not (eqb_ℤ b.size_bytes size))) [
        | inl bad ↦ absurd (cc (rw (stat_trusted, bad) at h))
        | inr good ↦
            let (kept, fit) =
              All-find (IsKept env laws w.objects) (λ o. str_eq o.digest digest) w.db.blobs f
                found in
            let at_key = (eq_iff b.storage_key key).0 (ground (arith, good)) in
            let of_digest = (eq_iff b.digest digest).0 fit in
            let of_size = eqb_ℤ_sound b.size_bytes size (ground (arith, good)) in
            rw (← at_key, ← of_digest, ← of_size) kept.1
      ]

  existing-Holds :
      (key digest : String) (size : ℤ) (w : World O) {info : ObjectInfo}
      → (check_existing env digest size (on_objects (env.objects.open_object key) w)).0 ≡ ok info
      → Holds env laws
          (check_existing env digest size (on_objects (env.objects.open_object key) w)).1.objects
          key
          digest
          size
  existing-Holds key digest size w h =
      subst (λ (v : World O). Holds env laws v.objects key digest size)
        (sym (check_existing-same env digest size (on_objects (env.objects.open_object key) w)))
        (check_existing-Holds env laws key digest size w h)

  pub recover-Holds :
      (digest : String) (size : ℤ) (key : String) (w : World O) {info : ObjectInfo}
      → IsFaithful env laws w
      → key ≡ checked_storage_key digest
      → (recover_existing_cas_object env digest size key w).0 ≡ ok info
      → Holds env laws (recover_existing_cas_object env digest size key w).1.objects key digest size
  unfolding recover_existing_cas_object after_get
  recover-Holds digest size key w f keyed h = elim (Result-cases (get_blob digest w.db).0) [
    | inl (b, e) ↦ Holds-Grows env laws digest (recover-Grows env laws digest size key w) keyed (
        stat_trusted-Holds key digest size b w _ f (get_blob-ok env laws digest w.db e)
          (rw (recover_existing_cas_object, on_db, e) at h))
    | inr (x, e) ↦ elim (Bool-cases (errors_is x cas_not_found)) [
      | inr n ↦ absurd (cc (rw (recover_existing_cas_object, on_db, e, after_get, n) at h))
      | inl t ↦
          rw (recover_existing_cas_object, on_db, e, after_get, t)
            (existing-Holds key digest size (record w { db = (get_blob digest w.db).1 })
              (rw (recover_existing_cas_object, on_db, e, after_get, t) at h))
    ]
  ]

  blind-ok :
      (x : Result ObjectInfo × World O) {info : ObjectInfo}
      → (after_blind env x).0 ≡ ok info
      → (x.0 ≡ ok info) × ((after_blind env x).1 ≡ x.1)
  blind-ok (ok i, w) h = (h, refl)
  blind-ok (err e, w) h = absurd (cc)

  recovery-ok :
      (e : Error) (x : Result ObjectInfo × World O) {info : ObjectInfo}
      → (after_recovery env e x).0 ≡ ok info
      → (x.0 ≡ ok info) × ((after_recovery env e x).1 ≡ x.1)
  recovery-ok e (ok i, w) h = (h, refl)
  recovery-ok e (err y, w) h = absurd (cc)

  -- The object is copied from verified bytes, or found.
  module _ (digest : String) (size : ℤ) (staging key etag : String)
      (keyed : key ≡ checked_storage_key digest) where
    after_copy-Holds :
        (x : Result ObjectInfo × World O) {info : ObjectInfo}
        → IsFaithful env laws x.1
        → ((i : ObjectInfo) → x.0 ≡ ok i → Holds env laws x.1.objects key digest size)
        → (after_copy env digest size key x).0 ≡ ok info
        → Holds env laws (after_copy env digest size key x).1.objects key digest size
    unfolding after_copy
    after_copy-Holds (ok i, v) f copied h = copied i refl
    after_copy-Holds (err e, v) f copied h =
        elim (Bool-cases (errors_is e object_already_exists || errors_is e object_conflict)) [
          | inr n ↦ absurd (cc (rw (after_copy, n) at h))
          | inl t ↦
              let (found, same) =
                recovery-ok e (recover_existing_cas_object env digest size key v)
                  (rw (after_copy, t) at h) in
              rw (after_copy, t)
                (subst (λ (u : World O). Holds env laws u.objects key digest size) (sym same)
                  (recover-Holds digest size key v f keyed found))
        ]

    copied-Holds :
        (w : World O) (c : List ℕ)
        → laws.stored w.objects staging ≡ some (record { content = c; etag = etag })
        → digest_of env c ≡ digest
        → pos (length c) ≡ size
        → (i : ObjectInfo)
        → (env.objects.copy_object (copy_params env staging key etag) w.objects).0 ≡ ok i
        → Holds env laws
            (env.objects.copy_object (copy_params env staging key etag) w.objects).1
            key
            digest
            size
    copied-Holds w c at_staging hashed sized i h =
        let (d, tag, source, target) =
          laws.copy_takes (copy_params env staging key etag) w.objects i h in
        let same : d ≡ c = same_content d c (sym source ∙ at_staging) in
        record {
          object = record { content = d; etag = tag };
          stored = target;
          of_digest = ap (digest_of env) same ∙ hashed;
          of_size = ap (λ l. pos (length l)) same ∙ sized;
        }
      where
        same_content :
            (a b : List ℕ)
            → ◌≡◌ {A = Option Stored}
                (some (record { content = a; etag = etag }))
                (some (record { content = b; etag = etag }))
            → a ≡ b
        same_content a b e = ground (arith, e)

    pub ensure-Holds :
        (w : World O) (c : List ℕ) {info : ObjectInfo}
        → IsFaithful env laws w
        → laws.stored w.objects staging ≡ some (record { content = c; etag = etag })
        → digest_of env c ≡ digest
        → pos (length c) ≡ size
        → (ensure_cas_object env digest size staging key etag w).0 ≡ ok info
        → Holds env laws
            (ensure_cas_object env digest size staging key etag w).1.objects
            key
            digest
            size
    unfolding ensure_cas_object
    ensure-Holds w c f at_staging hashed sized h = elim (Bool-cases (is_blank etag)) [
      | inl t ↦
          let (found, same) =
            blind-ok (recover_existing_cas_object env digest size key w)
              (rw (ensure_cas_object, t) at h) in
          rw (ensure_cas_object, t)
            (subst (λ (u : World O). Holds env laws u.objects key digest size) (sym same)
              (recover-Holds digest size key w f keyed found))
      | inr n ↦
          rw (ensure_cas_object, n)
            (after_copy-Holds
              (on_objects (env.objects.copy_object (copy_params env staging key etag)) w)
              (IsFaithful-Grows env laws (copy-Grows env laws staging key etag w) f)
              (copied-Holds w c at_staging hashed sized) (rw (ensure_cas_object, n) at h))
    ]
