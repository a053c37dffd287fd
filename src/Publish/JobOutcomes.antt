-- ===== src/Publish/JobOutcomes.antt =====
-- What an enqueue and a retry have done, when their transactions commit.
use imgsrv.Prelude.{
  String, List, ◌∷◌, Bool, true, false, ◌&&◌, ◌||◌, some, ◌≡◌, refl, ◌∙◌, ◌==◌, any, find,
  count_where, ok, arith, Bool-cases, Option-cases, inl, inr,
}
use imgsrv.Publish.Domain.{
  Time, is_name, validate_catalog, incus_index, finalize_publish, draft, is_version,
}
use imgsrv.Publish.Tables.{Job, Step, Version, Db, bind-elim, bind-at, bind-require, row-ok}
use imgsrv.Publish.Statements.{find_job, find_version}
use imgsrv.Publish.Versions.{
  publishable, require_publishable_version, mark_version_publishing, lock_version_by_ref, has_ref,
}
use imgsrv.Publish.Enqueue.{
  JobView, job_view, FreshIds, new_job, new_step, insert_job, insert_step, insert_steps, enqueue_tx,
}
use imgsrv.Publish.Effects.{with_steps}
use imgsrv.Publish.RowEffects.{
  with_jobs, with_versions, publishing_versions, mark_version_publishing-ok,
  require_publishable_version-ok, is_at,
}

-- A row of jobs with the identity of a job, or with its version.
abbrev pub is_same_job : Job → Job → Bool
is_same_job j o = o.id == j.id || o.version_id == j.version_id

insert_job-ok :
    (j : Job) (db : Db) {u : Unit {0}} {db' : Db}
    → insert_job j db ≡ ok (u, db')
    → (any (is_same_job j) db.jobs ≡ false) × (db' ≡ with_jobs db (j ∷ db.jobs))
unfolding insert_job
insert_job-ok j db h = elim (Bool-cases (any (is_same_job j) db.jobs)) [
  | inl e ↦ absurd (cc (rw e at h))
  | inr e ↦ elim (Option-cases (find_version db j.version_id)) [
    | inl n ↦ absurd (ground (arith, e, n, h))
    | inr (v, f) ↦ ground (arith, e, f, h)
  ]
]

-- A row of steps that an inserted step may not stand beside.
abbrev pub is_same_step : Step → Step → Bool
is_same_step s o =
    o.id == s.id || (o.job_id == s.job_id && (is_name o.name s.name || o.sequence == s.sequence))

insert_step-ok :
    (s : Step) (db : Db) {u : Unit {0}} {db' : Db}
    → insert_step s db ≡ ok (u, db')
    → (any (is_same_step s) db.steps ≡ false) × (db' ≡ with_steps db (s ∷ db.steps))
unfolding insert_step
insert_step-ok s db h = elim (Bool-cases (any (is_same_step s) db.steps)) [
  | inl e ↦ absurd (cc (rw e at h))
  | inr e ↦ elim (Option-cases (find_job db s.job_id)) [
    | inl n ↦ absurd (ground (arith, e, n, h))
    | inr (v, f) ↦ ground (arith, e, f, h)
  ]
]

module _ (now : Time) (ids : FreshIds) where
  abbrev pub validate_row : Step
  validate_row = new_step now ids.validate ids.job validate_catalog 10

  abbrev pub index_row : Step
  index_row = new_step now ids.index ids.job incus_index 20

  abbrev pub finalize_row : Step
  finalize_row = new_step now ids.finalize ids.job finalize_publish 30

-- The three rows go in one after the other.
pub record Inserted (now : Time) (ids : FreshIds) (xs ys : List Step) : Type 0 where
  pub first : any (is_same_step (validate_row now ids)) xs ≡ false
  pub second : any (is_same_step (index_row now ids)) (validate_row now ids ∷ xs) ≡ false
  pub third :
      any (is_same_step (finalize_row now ids)) (index_row now ids ∷ validate_row now ids ∷ xs)
      ≡ false
  pub after : ys ≡ finalize_row now ids ∷ index_row now ids ∷ validate_row now ids ∷ xs

insert_steps-ok :
    (now : Time) (ids : FreshIds) (db : Db) {u : Unit {0}} {db' : Db}
    → insert_steps now ids db ≡ ok (u, db')
    → (ys : List Step) × Inserted now ids db.steps ys × (db' ≡ with_steps db ys)
unfolding insert_steps
insert_steps-ok now ids db h =
    let d1 = with_steps db (validate_row now ids ∷ db.steps) in
    let d2 = with_steps db (index_row now ids ∷ validate_row now ids ∷ db.steps) in
    bind-at (insert_step (validate_row now ids)) _ db d1
      (λ _ _ e. (insert_step-ok (validate_row now ids) db e).1) h
      (λ _ one h1.
        bind-at (insert_step (index_row now ids)) _ d1 d2
          (λ _ _ e. (insert_step-ok (index_row now ids) d1 e).1) h1
          (λ _ two h2. (
            finalize_row now ids ∷ index_row now ids ∷ validate_row now ids ∷ db.steps,
            record {
              first = (insert_step-ok (validate_row now ids) db one).0;
              second = (insert_step-ok (index_row now ids) d1 two).0;
              third = (insert_step-ok (finalize_row now ids) d2 h2).0;
              after = refl;
            },
            (insert_step-ok (finalize_row now ids) d2 h2).1,
          )))

pub record Enqueued (now : Time) (ids : FreshIds) (image_name version : String) (db db' : Db)
    : Type 0 where
  pub target : Version
  pub found : find (has_ref db image_name version) db.versions ≡ some target
  pub was_draft : is_version target.state draft ≡ true
  pub sound : publishable db target.id ≡ true
  pub one_draft : count_where (is_at target.id draft) db.versions ≡ 1
  pub no_job : any (is_same_job (new_job ids.job target.id)) db.jobs ≡ false
  pub steps : List Step
  pub inserted : Inserted now ids db.steps steps
  pub after : db' ≡ record db {
    versions = publishing_versions db target.id;
    jobs = new_job ids.job target.id ∷ db.jobs;
    steps = steps;
  }

pub enqueue_tx-ok :
    (now : Time) (ids : FreshIds) (image_name version : String) (db : Db) {v : JobView} {db' : Db}
    → enqueue_tx now ids image_name version db ≡ ok (v, db')
    → Enqueued now ids image_name version db db'
unfolding enqueue_tx lock_version_by_ref
enqueue_tx-ok now ids image_name version db {v} {db'} h =
    bind-at (lock_version_by_ref image_name version) _ db db
      (λ w d e. (row-ok (λ x. find (has_ref x image_name version) x.versions) db e).1) h
      (λ w found h1.
        let d1 = with_versions db (publishing_versions db w.id) in
        let d2 = with_jobs d1 (new_job ids.job w.id ∷ db.jobs) in
        bind-require _ _ _ db h1 (λ draft_ok h2.
          bind-at (require_publishable_version w.id) _ db db
            (λ _ _ e. (require_publishable_version-ok w.id db e).1) h2
            (λ _ sound h3.
              bind-at (mark_version_publishing w.id) _ db d1
                (λ _ _ e. (mark_version_publishing-ok w.id db e).1) h3
                (λ _ marked h4.
                  bind-at (insert_job (new_job ids.job w.id)) _ d1 d2
                    (λ _ _ e. (insert_job-ok (new_job ids.job w.id) d1 e).1) h4
                    (λ _ put h5. bind-elim (insert_steps now ids) _ d2 h5 (λ _ d3 grown h6.
                      let (ys, ins, e3) = insert_steps-ok now ids d2 grown in
                      record {
                        target = w;
                        found =
                            (row-ok (λ x. find (has_ref x image_name version) x.versions) db
                              found).0;
                        was_draft = draft_ok;
                        sound = (require_publishable_version-ok w.id db sound).0;
                        one_draft = (mark_version_publishing-ok w.id db marked).0;
                        no_job = (insert_job-ok (new_job ids.job w.id) d1 put).0;
                        steps = ys;
                        inserted = ins;
                        after = (row-ok (λ x. job_view x ids.job) d3 h6).1 ∙ e3;
                      }))))))
