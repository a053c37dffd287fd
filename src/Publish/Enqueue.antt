-- ===== src/Publish/Enqueue.antt =====
-- EnqueueVersion and GetJob of internal/store/postgres/publish/store.go, each one transaction. Fresh
-- identities (uuid.New) and the time of the transaction are arguments.
use imgsrv.Prelude.{
  ℕ, String, true, ◌&&◌, ◌||◌, Option, none, some, List, [], ◌∷◌, ◌==◌, leb, if◌then◌else◌, any,
  Result, ok, err, pg_unique, pg_foreign_key, publish_failed_precondition, publish_invalid,
}
use imgsrv.Catalog.{validate_image_name, validate_version}
use imgsrv.Publish.Domain.{
  Uuid, Time, JobState, StepState, StepName, validate_catalog, incus_index, finalize_publish, draft,
  is_name, is_version, validate_job_id,
}
use imgsrv.Publish.Tables.{Job, Step, Db, Tx, ◌>>=◌, ◌>>◌, require, row, with_tx, validated}
use imgsrv.Publish.Statements.{StepView, find_image, find_version, find_job, view}
use imgsrv.Publish.Versions.{
  require_publishable_version, mark_version_publishing, lock_version_by_ref,
}

-- publish.Job: a job row joined with its version and image, and its steps in order.
pub record JobView : Type 0 where
  pub job : Job
  pub image_name : String
  pub version : String
  pub steps : List StepView

-- ORDER BY sequence.
unfoldable pub insert_by_sequence : StepView → List StepView → List StepView
insert_by_sequence v [] = v ∷ []
insert_by_sequence v (w ∷ ws) =
    if leb v.step.sequence w.step.sequence then v ∷ w ∷ ws else w ∷ insert_by_sequence v ws

abbrev add_view : Option StepView → List StepView → List StepView
unfolding insert_by_sequence
add_view none vs = vs
add_view (some v) vs = insert_by_sequence v vs

unfoldable pub steps_of : Db → Uuid → List Step → List StepView
unfolding add_view view
steps_of db id [] = []
steps_of db id (s ∷ ss) =
    let rest = steps_of db id ss in if s.job_id == id then add_view (view db s) rest else rest

unfoldable pub job_view : Db → Uuid → Option JobView
unfolding find_job find_version find_image steps_of
job_view db id = elim (find_job db id) [
  | none ↦ none
  | some j ↦ elim (find_version db j.version_id) [
    | none ↦ none
    | some v ↦ elim (find_image db v.image_id) [
      | none ↦ none
      | some i ↦ some (record {
        job = j;
        image_name = i.name;
        version = v.version;
        steps = steps_of db id db.steps;
      })
    ]
  ]
]

abbrev pub get_job_by_id : Uuid → Tx JobView
get_job_by_id id = row (λ db. job_view db id)

abbrev pub new_job : Uuid → Uuid → Job
new_job id version_id = record {
  id = id;
  version_id = version_id;
  state = JobState.queued;
  started_at = none;
  finished_at = none;
  failure_message = none;
}

-- INSERT INTO publish_jobs: primary key, unique version and foreign key.
unfoldable pub insert_job : Job → Tx (Unit {0})
unfolding any find_version
insert_job j db =
    if any (λ o. o.id == j.id || o.version_id == j.version_id) db.jobs
    then err (pg_unique ∷ [])
    else elim (find_version db j.version_id) [
      | none ↦ err (pg_foreign_key ∷ [])
      | some _ ↦ ok (tt, record db { jobs = j ∷ db.jobs })
    ]

abbrev pub new_step : Time → Uuid → Uuid → StepName → ℕ → Step
new_step now id job_id name sequence = record {
  id = id;
  job_id = job_id;
  name = name;
  state = StepState.queued;
  blocking = true;
  sequence = sequence;
  attempt_count = 0;
  run_after = now;
  locked_by = none;
  locked_at = none;
  started_at = none;
  finished_at = none;
  failure_message = none;
}

-- INSERT INTO publish_job_steps: primary key, unique name and sequence in the job, foreign key.
unfoldable pub insert_step : Step → Tx (Unit {0})
unfolding any find_job
insert_step s db =
    if any
      (λ o.
        o.id == s.id
        || (o.job_id == s.job_id && (is_name o.name s.name || o.sequence == s.sequence)))
      db.steps
    then err (pg_unique ∷ [])
    else elim (find_job db s.job_id) [
      | none ↦ err (pg_foreign_key ∷ [])
      | some _ ↦ ok (tt, record db { steps = s ∷ db.steps })
    ]

pub record FreshIds : Type 0 where
  pub job : Uuid
  pub validate : Uuid
  pub index : Uuid
  pub finalize : Uuid

abbrev invalid_name : Result (Unit {0}) → Result (Unit {0}) → Result (Unit {0})
invalid_name (ok _) rest = rest
invalid_name (err e) rest = err (publish_invalid ∷ e)

unfoldable pub validate_enqueue_version_params : String → String → Result (Unit {0})
unfolding validate_image_name validate_version
validate_enqueue_version_params image_name version =
    invalid_name (validate_image_name image_name) (invalid_name (validate_version version) (ok tt))

unfoldable pub insert_steps : Time → FreshIds → Tx (Unit {0})
unfolding insert_step
insert_steps now ids = do
  insert_step (new_step now ids.validate ids.job validate_catalog 10)
  insert_step (new_step now ids.index ids.job incus_index 20)
  insert_step (new_step now ids.finalize ids.job finalize_publish 30)

unfoldable pub enqueue_tx : Time → FreshIds → String → String → Tx JobView
unfolding lock_version_by_ref require_publishable_version mark_version_publishing insert_job
    insert_steps job_view
enqueue_tx now ids image_name version = do
  v ← lock_version_by_ref image_name version
  require (is_version v.state draft) (publish_failed_precondition ∷ [])
  require_publishable_version v.id
  mark_version_publishing v.id
  insert_job (new_job ids.job v.id)
  insert_steps now ids
  get_job_by_id ids.job

unfoldable pub enqueue_version : Time → FreshIds → String → String → Db → Result JobView × Db
unfolding validate_enqueue_version_params enqueue_tx with_tx
enqueue_version now ids image_name version =
    validated (validate_enqueue_version_params image_name version)
      (with_tx (enqueue_tx now ids image_name version))

unfoldable pub get_job : Uuid → Db → Result JobView × Db
unfolding validate_job_id job_view with_tx
get_job id = validated (validate_job_id id) (with_tx (get_job_by_id id))
