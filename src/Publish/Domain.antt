-- ===== src/Publish/Domain.antt =====
-- internal/publish/publish.go: the values of the publish workflow and their validation.
-- Identities (uuid.UUID) and instants (time.Time) are numbers, with 0 for uuid.Nil and for the
-- zero time; an identity counts its 128 bits, so its order is Postgres's order of uuid.
use imgsrv.Prelude.{
  ℕ, ℤ, String, Bool, true, false, List, [], ◌∷◌, ◌==◌, is_blank, Result, ok, err, publish_invalid,
}

abbrev pub Uuid : Type 0
Uuid = ℕ

abbrev pub Time : Type 0
Time = ℕ

pub data JobState : Type 0 where
  queued running succeeded failed : JobState

pub data StepState : Type 0 where
  queued running succeeded failed skipped : StepState

-- The step names that the table admits.
pub data StepName : Type 0 where
  validate_catalog incus_index finalize_publish : StepName

-- catalog.VersionState.
pub data VersionState : Type 0 where
  draft publishing published : VersionState

abbrev pub is_job : JobState → JobState → Bool
is_job JobState.queued JobState.queued = true
is_job JobState.running JobState.running = true
is_job JobState.succeeded JobState.succeeded = true
is_job JobState.failed JobState.failed = true
is_job _ _ = false

abbrev pub is_step : StepState → StepState → Bool
is_step StepState.queued StepState.queued = true
is_step StepState.running StepState.running = true
is_step StepState.succeeded StepState.succeeded = true
is_step StepState.failed StepState.failed = true
is_step StepState.skipped StepState.skipped = true
is_step _ _ = false

abbrev pub is_name : StepName → StepName → Bool
is_name validate_catalog validate_catalog = true
is_name incus_index incus_index = true
is_name finalize_publish finalize_publish = true
is_name _ _ = false

abbrev pub is_version : VersionState → VersionState → Bool
is_version draft draft = true
is_version publishing publishing = true
is_version published published = true
is_version _ _ = false

-- What names a claimed attempt: validateStepLease reads the same fields of all params.
pub record Lease : Type 0 where
  pub id : Uuid
  pub worker_id : String
  pub attempt_count : ℕ

pub record ClaimStepParams : Type 0 where
  pub worker_id : String
  pub stale_running_before : Time

pub record FailStepParams : Type 0 where
  pub lease : Lease
  pub failure_message : String

-- One row of incus.ProjectionRow, with the fields that the store writes.
pub record ProjectionRow : Type 0 where
  pub version_id : Uuid
  pub artifact_id : Uuid
  pub metadata_attachment_id : Uuid
  pub metadata_path : String
  pub disk_path : String
  pub metadata_sha256 : String
  pub metadata_size_bytes : ℤ
  pub disk_sha256 : String
  pub disk_size_bytes : ℤ
  pub combined_disk_kvm_img_sha256 : String

pub record SucceedIncusIndexStepParams : Type 0 where
  pub lease : Lease
  pub version_id : Uuid
  pub rows : List ProjectionRow

abbrev pub invalid_if : Bool → Result (Unit {0}) → Result (Unit {0})
invalid_if true rest = err (publish_invalid ∷ [])
invalid_if false rest = rest

unfoldable pub validate_job_id : Uuid → Result (Unit {0})
validate_job_id id = invalid_if (id == 0) (ok tt)

unfoldable pub validate_claim_step_params : ClaimStepParams → Result (Unit {0})
validate_claim_step_params p =
    invalid_if (is_blank p.worker_id) (invalid_if (p.stale_running_before == 0) (ok tt))

unfoldable pub validate_step_lease : Lease → Result (Unit {0})
validate_step_lease l =
    invalid_if (l.id == 0)
      (invalid_if (is_blank l.worker_id) (invalid_if (l.attempt_count == 0) (ok tt)))

abbrev pub then_check : Result (Unit {0}) → Result (Unit {0}) → Result (Unit {0})
then_check (ok _) rest = rest
then_check (err e) rest = err e

unfoldable pub validate_succeed_incus_index_step_params :
    SucceedIncusIndexStepParams → Result (Unit {0})
unfolding validate_step_lease
validate_succeed_incus_index_step_params p =
    then_check (validate_step_lease p.lease) (invalid_if (p.version_id == 0) (ok tt))

unfoldable pub validate_fail_step_params : FailStepParams → Result (Unit {0})
unfolding validate_step_lease
validate_fail_step_params p =
    then_check (validate_step_lease p.lease) (invalid_if (is_blank p.failure_message) (ok tt))
