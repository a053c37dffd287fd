-- ===== src/Uploads/Domain.antt =====
-- internal/uploads/uploads.go and internal/store/postgres/uploads/validate.go: the values of uploads
-- and CAS ingest, and their validation. Identities and instants are numbers, as in Publish/Domain;
-- sizes are int64. The text of an identity, uuid.UUID's String, is an argument.
use Prim.Native.String.{◌++◌}
use imgsrv.Prelude.{
  ℕ, String, Bool, true, false, ◌&&◌, ◌||◌, Option, none, some, [], ◌∷◌, ◌==◌, leb, ℤ, pos, ltb_ℤ,
  if◌then◌else◌, is_blank, cut_prefix, exactly, Result, ok, err, upload_invalid,
}
use imgsrv.Publish.Domain.{Uuid, Time}

pub data SessionState : Type 0 where
  created uploading completed ingesting ready failed aborted : SessionState

pub data IngestJobState : Type 0 where
  queued running succeeded failed : IngestJobState

abbrev pub is_session : SessionState → SessionState → Bool
is_session created created = true
is_session uploading uploading = true
is_session completed completed = true
is_session ingesting ingesting = true
is_session ready ready = true
is_session SessionState.failed SessionState.failed = true
is_session aborted aborted = true
is_session _ _ = false

abbrev pub is_ingest_job : IngestJobState → IngestJobState → Bool
is_ingest_job queued queued = true
is_ingest_job running running = true
is_ingest_job succeeded succeeded = true
is_ingest_job IngestJobState.failed IngestJobState.failed = true
is_ingest_job _ _ = false

pub record CreateSessionParams : Type 0 where
  pub id : Uuid
  pub expected_digest : String
  pub expected_size_bytes : ℤ
  pub storage_upload_id : String
  pub media_type_hint : Option String
  pub filename_hint : Option String
  pub expires_at : Time

pub record CreateReadySessionParams : Type 0 where
  pub id : Uuid
  pub expected_digest : String
  pub expected_size_bytes : ℤ
  pub media_type_hint : Option String
  pub filename_hint : Option String
  pub expires_at : Time

pub record PutPartParams : Type 0 where
  pub upload_id : Uuid
  pub part_number : ℤ
  pub etag : String
  pub size_bytes : ℤ

pub record SucceedIngestJobParams : Type 0 where
  pub id : Uuid
  pub digest : String
  pub size_bytes : ℤ
  pub storage_key : String
  pub media_type : Option String

pub record FailIngestJobParams : Type 0 where
  pub id : Uuid
  pub failure_message : String

-- StagingKey.
unfoldable pub staging_key : (Uuid → String) → Uuid → String
staging_key uuid_text id = "staging/uploads/" ++ uuid_text id

abbrev is_hex : ℕ → Bool
is_hex c = (leb b'0' c && leb c b'9') || (leb b'a' c && leb c b'f')

-- `^sha256:[0-9a-f]{64}$`.
unfoldable pub matches_digest : String → Bool
unfolding cut_prefix exactly
matches_digest raw = elim (cut_prefix raw "sha256:") [
  | none ↦ false
  | some hex ↦ exactly is_hex 64 hex
]

-- ErrInvalid, or the checks that follow.
abbrev pub refuse_if : Bool → Result (Unit {0}) → Result (Unit {0})
refuse_if b rest = if b then err (upload_invalid ∷ []) else rest

-- `if err := check; err != nil { return err }`, and the checks that follow.
infixr 5 ◌and_then◌
abbrev pub ◌and_then◌ : Result (Unit {0}) → Result (Unit {0}) → Result (Unit {0})
(ok _) and_then rest = rest
(err e) and_then rest = err e

-- ParseDigest.
unfoldable pub parse_digest : String → Result String
unfolding matches_digest
parse_digest raw = if matches_digest raw then ok raw else err (upload_invalid ∷ [])

unfoldable pub validate_digest : String → Result (Unit {0})
unfolding parse_digest
validate_digest digest = elim (parse_digest digest) [ ok _ ↦ ok tt | err e ↦ err e ]

abbrev pub max_part_number : ℤ
max_part_number = pos 10000

unfoldable pub validate_part_number : ℤ → Result (Unit {0})
validate_part_number n = refuse_if (ltb_ℤ n (pos 1) || ltb_ℤ max_part_number n) (ok tt)

unfoldable pub validate_non_negative_size : ℤ → Result (Unit {0})
validate_non_negative_size size = refuse_if (ltb_ℤ size (pos 0)) (ok tt)

unfoldable pub validate_required_text : String → Result (Unit {0})
unfolding is_blank
validate_required_text value = refuse_if (is_blank value) (ok tt)

unfoldable pub validate_optional_text : Option String → Result (Unit {0})
unfolding validate_required_text
validate_optional_text none = ok tt
validate_optional_text (some value) = validate_required_text value

-- validateUploadID, and validateIngestJobID.
unfoldable pub validate_upload_id : Uuid → Result (Unit {0})
validate_upload_id id = refuse_if (id == 0) (ok tt)

unfoldable pub validate_ingest_job_id : Uuid → Result (Unit {0})
validate_ingest_job_id id = refuse_if (id == 0) (ok tt)

unfoldable pub validate_create_session_params : CreateSessionParams → Result (Unit {0})
unfolding validate_upload_id validate_digest validate_non_negative_size validate_required_text
    validate_optional_text
validate_create_session_params p =
    validate_upload_id p.id
    and_then validate_digest p.expected_digest
    and_then validate_non_negative_size p.expected_size_bytes
    and_then validate_required_text p.storage_upload_id
    and_then validate_optional_text p.media_type_hint
    and_then validate_optional_text p.filename_hint
    and_then refuse_if (p.expires_at == 0) (ok tt)

unfoldable pub validate_create_ready_session_params : CreateReadySessionParams → Result (Unit {0})
unfolding validate_upload_id validate_digest validate_non_negative_size validate_optional_text
validate_create_ready_session_params p =
    validate_upload_id p.id
    and_then validate_digest p.expected_digest
    and_then validate_non_negative_size p.expected_size_bytes
    and_then validate_optional_text p.media_type_hint
    and_then validate_optional_text p.filename_hint
    and_then refuse_if (p.expires_at == 0) (ok tt)

unfoldable pub validate_put_part_params : PutPartParams → Result (Unit {0})
unfolding validate_upload_id validate_part_number validate_required_text validate_non_negative_size
validate_put_part_params p =
    validate_upload_id p.upload_id
    and_then validate_part_number p.part_number
    and_then validate_required_text p.etag
    and_then validate_non_negative_size p.size_bytes

unfoldable pub validate_succeed_ingest_job_params : SucceedIngestJobParams → Result (Unit {0})
unfolding validate_ingest_job_id validate_digest validate_non_negative_size validate_required_text
    validate_optional_text
validate_succeed_ingest_job_params p =
    validate_ingest_job_id p.id
    and_then validate_digest p.digest
    and_then validate_non_negative_size p.size_bytes
    and_then validate_required_text p.storage_key
    and_then validate_optional_text p.media_type

unfoldable pub validate_fail_ingest_job_params : FailIngestJobParams → Result (Unit {0})
unfolding validate_ingest_job_id validate_required_text
validate_fail_ingest_job_params p =
    validate_ingest_job_id p.id and_then validate_required_text p.failure_message
