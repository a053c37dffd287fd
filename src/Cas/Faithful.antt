-- ===== src/Cas/Faithful.antt =====
-- What internal/cas/service.go promises of a trusted blob: the object store has its bytes.
use imgsrv.Prelude.{
  ℕ, String, not, some, List, ◌≡◌, sym, ◌∙◌, subst, inl, inr, ◌||◌, ℤ, pos, length, eqb_ℤ,
  eqb_ℤ_sound, str_eq, eq_iff, Bool-cases, Option-cases, ok, Result-cases, All, All-map, find,
  validated, transact, row, arith,
}
use imgsrv.Uploads.Domain.{validate_digest}
use imgsrv.Uploads.Tables.{CasBlob, UploadDb}
use imgsrv.Uploads.Statements.{checked_storage_key, find_blob}
use imgsrv.Cas.Objects.{ObjectInfo, ObjectReader, Stored, IsLawful}
use imgsrv.Cas.World.{Environment, World, VerifiedObject, on_objects, wrapped}
use imgsrv.Cas.Commit.{digest_of, get_blob, verify_object_reader, check_existing}
use imgsrv.Cas.Grows.{Grows}

module _ {O : Type 0} (env : Environment O) (laws : IsLawful env.objects) where
  -- The object at a key has a digest and a size.
  pub record Holds (objects : O) (key digest : String) (size : ℤ) : Type 0 where
    pub object : Stored
    pub stored : laws.stored objects key ≡ some object
    pub of_digest : digest_of env object.content ≡ digest
    pub of_size : pos (length object.content) ≡ size

  -- A trusted blob stands at its storage key.
  abbrev pub IsKept : O → CasBlob → Type 0
  IsKept objects b =
      (b.storage_key ≡ checked_storage_key b.digest)
      × Holds objects b.storage_key b.digest b.size_bytes

  abbrev pub IsFaithful : World O → Type 0
  IsFaithful w = All (IsKept w.objects) w.db.blobs

  pub Holds-Grows :
      {w w' : World O} {key digest : String} {size : ℤ} (d : String)
      → Grows env laws w w'
      → key ≡ checked_storage_key d
      → Holds w.objects key digest size
      → Holds w'.objects key digest size
  Holds-Grows {w} {w'} {key} d g e h = record {
    object = h.object;
    stored =
        subst (λ k. laws.stored w'.objects k ≡ some h.object) (sym e)
          (g.kept d h.object (subst (λ k. laws.stored w.objects k ≡ some h.object) e h.stored));
    of_digest = h.of_digest;
    of_size = h.of_size;
  }

  pub IsFaithful-Grows : {w w' : World O} → Grows env laws w w' → IsFaithful w → IsFaithful w'
  IsFaithful-Grows {w} {w'} g f = subst (All (IsKept w'.objects)) (sym g.blobs) (
      All-map (IsKept w.objects) (IsKept w'.objects) w.db.blobs
        (λ b k. (k.0, Holds-Grows b.digest g k.0 k.1)) f)

  -- A reader that is verified has read the object.
  pub verify-ok :
      (r : ObjectReader) {v : VerifiedObject}
      → verify_object_reader env r ≡ ok v
      → (c : List ℕ) × (r.body ≡ ok c)
        × (v.info ≡ r.info)
        × (v.digest ≡ digest_of env c)
        × (v.size_bytes ≡ pos (length c))
  unfolding verify_object_reader
  verify-ok r h = elim (Result-cases r.body) [
    | inl (c, e) ↦
        (c, e, ground (arith, rw e at h), ground (arith, rw e at h), ground (arith, rw e at h))
    | inr (x, e) ↦ absurd (cc (rw e at h))
  ]

  -- The object that check_existing accepts.
  pub check_existing-Holds :
      (key digest : String) (size : ℤ) (w : World O) {info : ObjectInfo}
      → (check_existing env digest size (on_objects (env.objects.open_object key) w)).0 ≡ ok info
      → Holds (env.objects.open_object key w.objects).1 key digest size
  unfolding check_existing
  check_existing-Holds key digest size w h =
      elim (Result-cases (env.objects.open_object key w.objects).0) [
        | inr (x, e) ↦ absurd (cc (rw (on_objects, check_existing, e) at h))
        | inl (r, e) ↦ elim (Result-cases (verify_object_reader env r)) [
          | inr (x, n) ↦ absurd (cc (rw (on_objects, check_existing, e, n) at h))
          | inl (v, n) ↦
              let (c, read, _, hashed, sized) = verify-ok r n in
              elim (Bool-cases (not (eqb_ℤ v.size_bytes size) || not (str_eq v.digest digest))) [
                | inl bad ↦ absurd (cc (rw (on_objects, check_existing, e, n, bad) at h))
                | inr good ↦ record {
                  object = record { content = c; etag = r.info.etag };
                  stored =
                      laws.open_keeps key w.objects key ∙ laws.open_reads key w.objects r c e read;
                  of_digest = sym hashed ∙ (eq_iff v.digest digest).0 (ground (arith, good));
                  of_size = sym sized ∙ eqb_ℤ_sound v.size_bytes size (ground (arith, good));
                }
              ]
        ]
      ]

  -- The blob that GetBlob returns is a row of the table.
  pub get_blob-ok :
      (digest : String) (db : UploadDb) {b : CasBlob}
      → (get_blob digest db).0 ≡ ok b
      → find (λ o. str_eq o.digest digest) db.blobs ≡ some b
  unfolding get_blob find_blob
  get_blob-ok digest db h = elim (Result-cases (wrapped (validate_digest digest))) [
    | inr (e, n) ↦ absurd (cc (rw n at h))
    | inl (_, n) ↦ elim (Option-cases (find_blob db digest)) [
      | inl f ↦ absurd (cc (rw (n, validated, transact, row, f) at h))
      | inr (b, f) ↦ f ∙ ground (arith, rw (n, validated, transact, row, f) at h)
    ]
  ]
