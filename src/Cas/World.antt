-- ===== src/Cas/World.antt =====
-- The values of internal/cas/service.go, and what its operations run on: the database and the object
-- store. The object store, the hash function, the texts of numbers, errors and identities, and the time
-- of the transactions are fields of the environment.
use imgsrv.Prelude.{
  ℕ, String, Bool, not, Option, List, [], ◌∷◌, ℤ, str_eq, ◌==◌, is_blank, if◌then◌else◌, Result,
  Error, ok, err, cas_invalid,
}
use imgsrv.Publish.Domain.{Uuid, Time}
use imgsrv.Uploads.Domain.{
  staging_key, validate_digest, validate_non_negative_size, validate_optional_text,
}
use imgsrv.Uploads.Tables.{IngestJob, UploadDb}
use imgsrv.Cas.Objects.{ObjectStore, ObjectInfo}

pub record Environment (O : Type 0) : Type 0 where
  pub objects : ObjectStore O
  pub sha256_hex : List ℕ → String
  pub itoa : ℤ → String
  pub text : Error → String
  pub uuid_text : Uuid → String
  pub now : Time

-- The database and the object store.
pub record World (O : Type 0) : Type 0 where
  pub db : UploadDb
  pub objects : O

pub record CommitStagedUploadParams : Type 0 where
  pub job_id : Uuid
  pub upload_id : Uuid
  pub staging_key : String
  pub expected_digest : String
  pub expected_size_bytes : ℤ
  pub media_type : Option String

pub record CommitStagedUploadResult : Type 0 where
  pub job : IngestJob
  pub digest : String
  pub size_bytes : ℤ
  pub storage_key : String

pub record VerifiedObject : Type 0 where
  pub info : ObjectInfo
  pub digest : String
  pub size_bytes : ℤ

-- `%w` around the package's ErrInvalid.
abbrev pub wrapped : Result (Unit {0}) → Result (Unit {0})
wrapped (ok _) = ok tt
wrapped (err e) = err (cas_invalid ∷ e)

infixr 5 ◌and_then◌
abbrev ◌and_then◌ : Result (Unit {0}) → Result (Unit {0}) → Result (Unit {0})
(ok _) and_then rest = rest
(err e) and_then rest = err e

abbrev refuse_if : Bool → Result (Unit {0})
refuse_if b = if b then err (cas_invalid ∷ []) else ok tt

unfoldable pub validate_commit_staged_upload_params :
    (Uuid → String) → CommitStagedUploadParams → Result (Unit {0})
unfolding staging_key validate_digest validate_non_negative_size validate_optional_text is_blank
validate_commit_staged_upload_params uuid_text p =
    refuse_if (p.job_id == 0)
    and_then refuse_if (p.upload_id == 0)
    and_then refuse_if (is_blank p.staging_key)
    and_then refuse_if (not (str_eq p.staging_key (staging_key uuid_text p.upload_id)))
    and_then wrapped (validate_digest p.expected_digest)
    and_then wrapped (validate_non_negative_size p.expected_size_bytes)
    and_then wrapped (validate_optional_text p.media_type)

-- Calls that keep what they have written when they fail.
abbrev pub Io : Type 0 → Type 0 → Type 0
Io O A = World O → Result A × World O

abbrev pub bind : {O A B : Type 0} → Result A × World O → (A → Io O B) → Result B × World O
bind (ok a, w) f = f a w
bind (err e, w) f = (err e, w)

abbrev pub on_db : {O A : Type 0} → (UploadDb → Result A × UploadDb) → Io O A
on_db m w = let r = m w.db in (r.0, record w { db = r.1 })

abbrev pub on_objects : {O A : Type 0} → (O → Result A × O) → Io O A
on_objects m w = let r = m w.objects in (r.0, record w { objects = r.1 })
