-- ===== src/Publish/RowEffects.antt =====
-- What the statements on jobs, versions and projection rows have done, when they succeed.
use imgsrv.Prelude.{
  ℕ, String, Bool, true, false, ◌&&◌, not, some, List, [], ◌∷◌, ◌≡◌, sym, ◌∙◌, ap, subst, ◌==◌, inl,
  inr, any, count_where, publish_failed_precondition, trim_space, Bool-cases, update_where, ok,
  arith,
}
use imgsrv.Publish.Domain.{
  Uuid, Time, JobState, is_job, VersionState, draft, is_version, publishing, published,
  ProjectionRow,
}
use imgsrv.Publish.Tables.{Version, Job, Db, Tx, require, >>=-eq-ok, require-ok}
use imgsrv.Publish.Statements.{
  StepView, mark_job_running, mark_job_succeeded, mark_job_failed, one_row, update_jobs, or_now,
  is_active, has_pending_before, require_previous_blocking_steps_succeeded,
}
use imgsrv.Publish.Versions.{
  guard_write, update_versions, mark_version_published, mark_version_publishing, insert_projection,
  insert_rows, replace_incus_rows, without_version, publishable, require_publishable_version,
}

pub one_row-ok :
    (m : Tx ℕ) (db : Db) {u : Unit {0}} {db' : Db}
    → one_row m db ≡ ok (u, db')
    → (n : ℕ) × (m db ≡ ok (n, db')) × (n ≡ 1)
one_row-ok m db h =
    let (n, mid, first, rest) =
      >>=-eq-ok m (λ n. require (n == 1) (publish_failed_precondition ∷ [])) db h in
    let r = require-ok (n == 1) (publish_failed_precondition ∷ []) mid rest in
    (n, subst (λ d. m db ≡ ok (n, d)) (sym r.1) first, ground (arith, r.0))

-- What the statements on jobs have done.
abbrev pub with_jobs : Db → List Job → Db
with_jobs db js = record db { jobs = js }

abbrev pub running_jobs : Db → Time → Uuid → List Job
running_jobs db now id =
    update_where (λ j. j.id == id && is_job j.state JobState.queued)
      (λ j. record j { state = JobState.running; started_at = or_now j.started_at now }) db.jobs

abbrev pub succeeded_jobs : Db → Time → Uuid → List Job
succeeded_jobs db now id =
    update_where (λ j. j.id == id && is_job j.state JobState.running)
      (λ j. record j { state = JobState.succeeded; finished_at = some now }) db.jobs

abbrev pub failed_jobs : Db → Time → Uuid → String → List Job
failed_jobs db now id message =
    update_where (λ j. j.id == id && is_active j.state)
      (λ j. record j {
        state = JobState.failed;
        finished_at = some now;
        failure_message = some (trim_space message);
      })
      db.jobs

pub mark_job_running-ok :
    (now : Time) (id : Uuid) (db : Db) {u : Unit {0}} {db' : Db}
    → mark_job_running now id db ≡ ok (u, db')
    → db' ≡ with_jobs db (running_jobs db now id)
unfolding mark_job_running
mark_job_running-ok now id db h = ground (arith, h)

pub update_jobs-ok :
    (p : Job → Bool) (f : Job → Job) (db : Db) {n : ℕ} {db' : Db}
    → update_jobs p f db ≡ ok (n, db')
    → (n ≡ count_where p db.jobs) × (db' ≡ with_jobs db (update_where p f db.jobs))
update_jobs-ok p f db h = ground (arith, h)

pub mark_job_succeeded-ok :
    (now : Time) (id : Uuid) (db : Db) {u : Unit {0}} {db' : Db}
    → mark_job_succeeded now id db ≡ ok (u, db')
    → (count_where (λ j. j.id == id && is_job j.state JobState.running) db.jobs ≡ 1)
      × (db' ≡ with_jobs db (succeeded_jobs db now id))
unfolding mark_job_succeeded
mark_job_succeeded-ok now id db h =
    let (n, done, one) = one_row-ok (update_jobs _ _) db h in
    let r = update_jobs-ok _ _ db done in (sym r.0 ∙ one, r.1)

pub mark_job_failed-ok :
    (now : Time) (id : Uuid) (message : String) (db : Db) {u : Unit {0}} {db' : Db}
    → mark_job_failed now id message db ≡ ok (u, db')
    → db' ≡ with_jobs db (failed_jobs db now id message)
unfolding mark_job_failed
mark_job_failed-ok now id message db h =
    let (n, done, one) = one_row-ok (update_jobs _ _) db h in (update_jobs-ok _ _ db done).1

-- An update of versions that goes through: every row that it reaches passes the trigger.
pub update_versions-ok :
    (p : Version → Bool) (f : Version → Version) (db : Db) {n : ℕ} {db' : Db}
    → update_versions p f db ≡ ok (n, db')
    → (any (λ v. p v && not (guard_write db v (f v))) db.versions ≡ false)
      × (n ≡ count_where p db.versions)
      × (db' ≡ record db { versions = update_where p f db.versions })
unfolding update_versions
update_versions-ok p f db h =
    elim (Bool-cases (any (λ v. p v && not (guard_write db v (f v))) db.versions)) [
      | inl e ↦ absurd (cc (rw e at h))
      | inr e ↦ let k = rw e at h in (e, ground (arith, k), ground (arith, k))
    ]

abbrev pub is_at : Uuid → VersionState → Version → Bool
is_at id st v = v.id == id && is_version v.state st

abbrev pub with_versions : Db → List Version → Db
with_versions db vs = record db { versions = vs }

abbrev pub publishing_versions : Db → Uuid → List Version
publishing_versions db id =
    update_where (is_at id draft) (λ v. record v { state = publishing }) db.versions

abbrev pub published_versions : Db → Time → Uuid → List Version
published_versions db now id =
    update_where (is_at id publishing)
      (λ v. record v { state = published; published_at = some now }) db.versions

pub mark_version_published-ok :
    (now : Time) (id : Uuid) (db : Db) {u : Unit {0}} {db' : Db}
    → mark_version_published now id db ≡ ok (u, db')
    → (count_where (is_at id publishing) db.versions ≡ 1)
      × (db' ≡ with_versions db (published_versions db now id))
unfolding mark_version_published
mark_version_published-ok now id db h =
    let m =
      update_versions (is_at id publishing)
        (λ v. record v { state = published; published_at = some now }) in
    let (n, done, one) = one_row-ok m db h in
    let r =
      update_versions-ok (is_at id publishing)
        (λ v. record v { state = published; published_at = some now }) db done in
    (sym r.1 ∙ one, r.2)

pub mark_version_publishing-ok :
    (id : Uuid) (db : Db) {u : Unit {0}} {db' : Db}
    → mark_version_publishing id db ≡ ok (u, db')
    → (count_where (is_at id draft) db.versions ≡ 1)
      × (db' ≡ with_versions db (publishing_versions db id))
unfolding mark_version_publishing
mark_version_publishing-ok id db h =
    let m = update_versions (is_at id draft) (λ v. record v { state = publishing }) in
    let (n, done, one) = one_row-ok m db h in
    let r = update_versions-ok (is_at id draft) (λ v. record v { state = publishing }) db done in
    (sym r.1 ∙ one, r.2)

abbrev pub with_projection : Db → List ProjectionRow → Db
with_projection db rs = record db { projection = rs }

-- Replacing the projection of a version writes that table alone.
insert_projection-ok :
    (r : ProjectionRow) (db : Db) {u : Unit {0}} {db' : Db}
    → insert_projection r db ≡ ok (u, db')
    → db' ≡ with_projection db db'.projection
unfolding insert_projection
insert_projection-ok r db h = ground (arith, h)

insert_rows-ok :
    (id : Uuid) (rows : List ProjectionRow) (db : Db) {u : Unit {0}} {db' : Db}
    → insert_rows id rows db ≡ ok (u, db')
    → db' ≡ with_projection db db'.projection
unfolding insert_rows
insert_rows-ok id [] db h = ground (arith, h)
insert_rows-ok id (r ∷ rows) db {u} {db'} h = elim (Bool-cases (r.version_id == id)) [
  | inl e ↦
      let (_, mid, first, rest) =
        >>=-eq-ok (insert_projection r) (λ _. insert_rows id rows) db (rw e at h) in
      insert_rows-ok id rows mid rest
      ∙ ap (λ d. with_projection d db'.projection) (insert_projection-ok r db first)
  | inr e ↦ absurd (ground (arith, e, h))
]

pub replace_incus_rows-ok :
    (id : Uuid) (rows : List ProjectionRow) (db : Db) {u : Unit {0}} {db' : Db}
    → replace_incus_rows id rows db ≡ ok (u, db')
    → db' ≡ with_projection db db'.projection
unfolding replace_incus_rows
replace_incus_rows-ok id rows db h =
    insert_rows-ok id rows (with_projection db (without_version id db.projection)) h

pub require_publishable_version-ok :
    (id : Uuid) (db : Db) {u : Unit {0}} {db' : Db}
    → require_publishable_version id db ≡ ok (u, db')
    → (publishable db id ≡ true) × (db' ≡ db)
unfolding require_publishable_version
require_publishable_version-ok id db h =
    require-ok (publishable db id) (publish_failed_precondition ∷ []) db h

pub require_previous-ok :
    (v : StepView) (db : Db) {u : Unit {0}} {db' : Db}
    → require_previous_blocking_steps_succeeded v db ≡ ok (u, db')
    → (has_pending_before db.steps v.step.job_id v.step.sequence ≡ false) × (db' ≡ db)
unfolding require_previous_blocking_steps_succeeded
require_previous-ok v db h =
    let r =
      require-ok (not (has_pending_before db.steps v.step.job_id v.step.sequence))
        (publish_failed_precondition ∷ []) db h in
    (ground (arith, r.0), r.1)
