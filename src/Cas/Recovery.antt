-- ===== src/Cas/Recovery.antt =====
-- recoverExistingCASObject and ensureCASObject of internal/cas/service.go add no blob and take no
-- stored object away.
use imgsrv.Prelude.{
  String, not, ◌≡◌, refl, sym, ap, subst, inl, inr, ◌||◌, ℤ, eqb_ℤ, str_eq, is_blank, Bool-cases,
  Result, Error, errors_is, ok, err, transact, validated, row, Result-cases, Option-cases,
  cas_not_found, object_already_exists, object_conflict,
}
use imgsrv.Uploads.Domain.{validate_digest}
use imgsrv.Uploads.Tables.{CasBlob, UploadDb}
use imgsrv.Uploads.Statements.{find_blob}
use imgsrv.Cas.Objects.{ObjectInfo, ObjectReader, IsLawful}
use imgsrv.Cas.World.{Environment, World, on_db, on_objects, wrapped}
use imgsrv.Cas.Commit.{
  get_blob, verify_object_reader, stat_trusted, check_existing, after_get,
  recover_existing_cas_object, after_blind, after_recovery, after_copy, ensure_cas_object,
  copy_params,
}
use imgsrv.Cas.Grows.{Grows, Grows-refl, Grows-trans, open-Grows, stat-Grows}

-- A lookup leaves the database.
pub get_blob-same : (digest : String) (db : UploadDb) → (get_blob digest db).1 ≡ db
unfolding get_blob
get_blob-same digest db = elim (Result-cases (wrapped (validate_digest digest))) [
  | inr (e, h) ↦ rw h refl
  | inl (_, h) ↦ elim (Option-cases (find_blob db digest)) [
    | inl n ↦ rw (h, validated, transact, row, n) refl
    | inr (b, f) ↦ rw (h, validated, transact, row, f) refl
  ]
]

-- A comparison leaves everything.
module _ {O : Type 0} (env : Environment O) where
  pub check_existing-same :
      (digest : String) (size : ℤ) (x : Result ObjectReader × World O)
      → (check_existing env digest size x).1 ≡ x.1
  unfolding check_existing
  check_existing-same digest size (err e, v) = refl
  check_existing-same digest size (ok r, v) = elim (Result-cases (verify_object_reader env r)) [
    | inr (e, h) ↦ rw (check_existing, h) refl
    | inl (o, h) ↦
        elim (Bool-cases (not (eqb_ℤ o.size_bytes size) || not (str_eq o.digest digest))) [
          | inl t ↦ rw (check_existing, h, t) refl
          | inr n ↦ rw (check_existing, h, n) refl
        ]
  ]

module _ {O : Type 0} (env : Environment O) (laws : IsLawful env.objects) where
  stat_trusted-Grows :
      (key : String) (size : ℤ) (b : CasBlob) (w : World O)
      → Grows env laws w (stat_trusted env key size b w).1
  unfolding stat_trusted
  stat_trusted-Grows key size b w =
      elim (Bool-cases (not (str_eq b.storage_key key) || not (eqb_ℤ b.size_bytes size))) [
        | inl t ↦ rw t (Grows-refl env laws w)
        | inr n ↦ rw n (stat-Grows env laws b.storage_key w)
      ]

  after_get-Grows :
      (digest : String) (size : ℤ) (key : String) (x : Result CasBlob × World O) {w : World O}
      → Grows env laws w x.1
      → Grows env laws w (after_get env digest size key x).1
  unfolding after_get
  after_get-Grows digest size key (ok b, v) g =
      Grows-trans env laws g (stat_trusted-Grows key size b v)
  after_get-Grows digest size key (err e, v) g = elim (Bool-cases (errors_is e cas_not_found)) [
    | inl t ↦ rw t (
        Grows-trans env laws g (
          subst (Grows env laws v)
            (sym (check_existing-same env digest size (on_objects (env.objects.open_object key) v)))
            (open-Grows env laws key v)))
    | inr n ↦ rw n g
  ]

  pub recover-Grows :
      (digest : String) (size : ℤ) (key : String) (w : World O)
      → Grows env laws w (recover_existing_cas_object env digest size key w).1
  unfolding recover_existing_cas_object
  recover-Grows digest size key w =
      after_get-Grows digest size key (on_db (get_blob digest) w) (record {
        blobs = ap (λ (d : UploadDb). d.blobs) (get_blob-same digest w.db);
        kept = λ _ _ h. h;
      })

  after_copy-Grows :
      (digest : String) (size : ℤ) (key : String) (x : Result ObjectInfo × World O) {w : World O}
      → Grows env laws w x.1
      → Grows env laws w (after_copy env digest size key x).1
  unfolding after_copy
  after_copy-Grows digest size key (ok info, v) g = g
  after_copy-Grows digest size key (err e, v) g =
      elim (Bool-cases (errors_is e object_already_exists || errors_is e object_conflict)) [
        | inl t ↦ rw t (
            recovered e (recover_existing_cas_object env digest size key v)
              (Grows-trans env laws g (recover-Grows digest size key v)))
        | inr n ↦ rw n g
      ]
    where
      recovered :
          (e : Error) (x : Result ObjectInfo × World O) {w : World O}
          → Grows env laws w x.1
          → Grows env laws w (after_recovery env e x).1
      recovered e (ok info, v) g = g
      recovered e (err y, v) g = g

  pub copy-Grows :
      (staging key etag : String) (w : World O)
      → Grows env laws w
          (on_objects (env.objects.copy_object (copy_params env staging key etag)) w).1
  copy-Grows staging key etag w = record {
    blobs = refl;
    kept = λ d x h. laws.copy_keeps (copy_params env staging key etag) w.objects _ x refl h;
  }

  pub ensure-Grows :
      (digest : String) (size : ℤ) (staging key etag : String) (w : World O)
      → Grows env laws w (ensure_cas_object env digest size staging key etag w).1
  unfolding ensure_cas_object
  ensure-Grows digest size staging key etag w = elim (Bool-cases (is_blank etag)) [
    | inl t ↦ rw t (
        blind (recover_existing_cas_object env digest size key w) (recover-Grows digest size key w))
    | inr n ↦ rw n (
        after_copy-Grows digest size key
          (on_objects (env.objects.copy_object (copy_params env staging key etag)) w)
          (copy-Grows staging key etag w))
  ]
    where
      blind :
          (x : Result ObjectInfo × World O) {w : World O}
          → Grows env laws w x.1
          → Grows env laws w (after_blind env x).1
      blind (ok info, v) g = g
      blind (err e, v) g = g
