-- ===== src/Publish/Statements.antt =====
-- The statements of internal/store/postgres/publish/store.go, with the triggers and constraints of
-- the migrations (000001, 000003) that they meet. `now` is the time of the transaction.
use imgsrv.Prelude.{
  ℕ, ◌+◌, String, Bool, false, ◌&&◌, ◌||◌, not, Option, none, some, List, [], ◌∷◌, ◌==◌, str_eq,
  ltb, leb, if◌then◌else◌, any, find, update_where, count_where, trim_space, ok, err,
  publish_failed_precondition, publish_lease_lost,
}
use imgsrv.Publish.Domain.{
  Uuid, Time, JobState, StepState, StepName, is_job, is_step, is_name, Lease, ClaimStepParams,
}
use imgsrv.Publish.Tables.{
  Image, Version, Job, Step, Db, Tx, ◌>>=◌, ◌>>◌, pure, require, query, row, modify,
}

-- One row of the join that `stepColumns` selects.
pub record StepView : Type 0 where
  pub step : Step
  pub version_id : Uuid
  pub image_name : String
  pub version : String

unfoldable pub find_image : Db → Uuid → Option Image
unfolding find
find_image db id = find (λ i. i.id == id) db.images

unfoldable pub find_version : Db → Uuid → Option Version
unfolding find
find_version db id = find (λ v. v.id == id) db.versions

unfoldable pub find_job : Db → Uuid → Option Job
unfolding find
find_job db id = find (λ j. j.id == id) db.jobs

unfoldable pub find_step : Db → Uuid → Option Step
unfolding find
find_step db id = find (λ s. s.id == id) db.steps

-- The inner joins of a step with its job, version and image.
unfoldable pub view : Db → Step → Option StepView
unfolding find_image find_version find_job
view db s = elim (find_job db s.job_id) [
  | none ↦ none
  | some j ↦ elim (find_version db j.version_id) [
    | none ↦ none
    | some v ↦ elim (find_image db v.image_id) [
      | none ↦ none
      | some i ↦
          some (record {
            step = s;
            version_id = j.version_id;
            image_name = i.name;
            version = v.version;
          })
    ]
  ]
]

-- The RETURNING of an update of the step `id`, joined.
abbrev pub returning_step : Uuid → Tx StepView
returning_step id = row (λ db. elim (find_step db id) [ none ↦ none | some s ↦ view db s ])

abbrev pub blocks : Step → Bool
blocks s = s.blocking && not (is_step s.state StepState.succeeded)

-- EXISTS: an earlier blocking step of the job that has not succeeded.
unfoldable pub has_pending_before : List Step → Uuid → ℕ → Bool
unfolding any
has_pending_before steps job_id sequence =
    any (λ p. p.job_id == job_id && ltb p.sequence sequence && blocks p) steps

abbrev pub is_active : JobState → Bool
is_active st = is_job st JobState.queued || is_job st JobState.running

unfoldable pub has_active_job : Db → Uuid → Bool
unfolding any
has_active_job db job_id = any (λ j. j.id == job_id && is_active j.state) db.jobs

abbrev pub is_stale : Option Time → Time → Bool
is_stale none cutoff = false
is_stale (some t) cutoff = leb t cutoff

abbrev pub is_due : Time → Time → Step → Bool
is_due now cutoff s =
    (is_step s.state StepState.queued && leb s.run_after now)
    || (is_step s.state StepState.running && is_stale s.locked_at cutoff)

-- The WHERE of claimStep. `locked` holds the rows that other transactions lock: SKIP LOCKED.
unfoldable pub claimable : Db → Time → Time → (Uuid → Bool) → Step → Bool
unfolding has_active_job has_pending_before
claimable db now cutoff locked s =
    has_active_job db s.job_id
    && is_due now cutoff s
    && not (has_pending_before db.steps s.job_id s.sequence)
    && not (locked s.id)

-- ORDER BY run_after, sequence, id.
unfoldable pub comes_before : Step → Step → Bool
comes_before s t =
    if s.run_after == t.run_after
    then (if s.sequence == t.sequence then ltb s.id t.id else ltb s.sequence t.sequence)
    else ltb s.run_after t.run_after

abbrev pub earlier : Step → Option Step → Step
earlier s none = s
earlier s (some t) = if comes_before t s then t else s

-- ORDER BY ... LIMIT 1.
unfoldable pub first_of_order : (Step → Bool) → List Step → Option Step
first_of_order p [] = none
first_of_order p (s ∷ ss) =
    let best = first_of_order p ss in if p s then some (earlier s best) else best

abbrev pub or_now : Option Time → Time → Option Time
or_now none now = some now
or_now (some t) now = some t

abbrev pub claimed : String → Time → Step → Step
claimed worker now s = record s {
  state = StepState.running;
  attempt_count = s.attempt_count + 1;
  locked_by = some worker;
  locked_at = some now;
  started_at = or_now s.started_at now;
}

abbrev pub update_step : Uuid → (Step → Step) → Tx (Unit {0})
update_step id f = modify (λ db. record db { steps = update_where (λ s. s.id == id) f db.steps })

unfoldable pub claim_step : (Uuid → Bool) → Time → ClaimStepParams → Tx StepView
unfolding claimable first_of_order update_where
claim_step locked now p = do
  next ← row (λ db. first_of_order (claimable db now p.stale_running_before locked) db.steps)
  update_step next.id (claimed p.worker_id now)
  returning_step next.id

abbrev pub update_jobs : (Job → Bool) → (Job → Job) → Tx ℕ
update_jobs p f db = ok (count_where p db.jobs, record db { jobs = update_where p f db.jobs })

-- An UPDATE whose command tag must say one row.
abbrev pub one_row : Tx ℕ → Tx (Unit {0})
one_row m = m >>= λ n. require (n == 1) (publish_failed_precondition ∷ [])

unfoldable pub mark_job_running : Time → Uuid → Tx (Unit {0})
unfolding update_where
mark_job_running now id =
    update_jobs (λ j. j.id == id && is_job j.state JobState.queued)
      (λ j. record j { state = JobState.running; started_at = or_now j.started_at now })
    >> pure tt

abbrev pub is_locked_by : Option String → String → Bool
is_locked_by none worker = false
is_locked_by (some w) worker = str_eq w worker

-- The row is leased to the worker for the attempt.
unfoldable pub leased : Lease → Step → Bool
leased l s =
    s.id == l.id
    && is_step s.state StepState.running
    && is_locked_by s.locked_by l.worker_id
    && s.attempt_count == l.attempt_count

unfoldable pub lock_running_step : Lease → Tx StepView
unfolding find leased view
lock_running_step l db = elim (find (leased l) db.steps) [
  | none ↦ err (publish_lease_lost ∷ [])
  | some s ↦ elim (view db s) [ none ↦ err (publish_lease_lost ∷ []) | some v ↦ ok (v, db) ]
]

abbrev pub require_step_name : StepView → StepName → Tx (Unit {0})
require_step_name v want = require (is_name v.step.name want) (publish_failed_precondition ∷ [])

abbrev pub finished : StepState → Option String → Time → Step → Step
finished st message now s = record s {
  state = st;
  locked_by = none;
  locked_at = none;
  finished_at = some now;
  failure_message = message;
}

unfoldable pub mark_step_succeeded : Time → Uuid → Tx StepView
unfolding update_where find_step view
mark_step_succeeded now id = do
  update_step id (λ s. finished StepState.succeeded s.failure_message now s)
  returning_step id

unfoldable pub mark_step_failed : Time → Uuid → String → Tx StepView
unfolding update_where find_step view trim_space
mark_step_failed now id message = do
  update_step id (finished StepState.failed (some (trim_space message)) now)
  returning_step id

unfoldable pub require_previous_blocking_steps_succeeded : StepView → Tx (Unit {0})
unfolding has_pending_before
require_previous_blocking_steps_succeeded v = do
  pending ← query (λ db. has_pending_before db.steps v.step.job_id v.step.sequence)
  require (not pending) (publish_failed_precondition ∷ [])

unfoldable pub mark_job_succeeded : Time → Uuid → Tx (Unit {0})
unfolding update_where count_where
mark_job_succeeded now id = one_row (
    update_jobs (λ j. j.id == id && is_job j.state JobState.running)
      (λ j. record j { state = JobState.succeeded; finished_at = some now }))

unfoldable pub mark_job_failed : Time → Uuid → String → Tx (Unit {0})
unfolding update_where count_where trim_space
mark_job_failed now id message = one_row (
    update_jobs (λ j. j.id == id && is_active j.state)
      (λ j. record j {
        state = JobState.failed;
        finished_at = some now;
        failure_message = some (trim_space message);
      }))
