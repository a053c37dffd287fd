-- ===== src/Publish/Coupled.antt =====
-- Enqueueing and finalizing, of internal/store/postgres/publish/store.go, keep the states of jobs and
-- versions together.
use imgsrv.Prelude.{
  ◌∷◌, Bool, true, false, ◌&&◌, some, ◌≡◌, refl, sym, ◌∙◌, subst, ap, ◌==◌, ==_iff, ==_refl, inl,
  inr, Bool-cases, Option-cases, find, find-update_where, find-by_key, count_where,
  count_where-find, any, All-map, All-zip, All-find, everywhere, All-update_where,
  IsDistinct-update_where, find-IsSole, any-false, arith, if◌then◌else◌,
}
use imgsrv.Publish.Domain.{
  Uuid, Time, JobState, VersionState, draft, publishing, published, is_version, is_job,
}
use imgsrv.Publish.Tables.{Version, Job, Step, Db}
use imgsrv.Publish.Statements.{StepView, view, find_job, find_version, find_image}
use imgsrv.Publish.Enqueue.{new_job}
use imgsrv.Publish.RowEffects.{is_at, publishing_versions, published_versions, succeeded_jobs}
use imgsrv.Publish.JobOutcomes.{is_same_job}
use imgsrv.Publish.Coupling.{
  version_state, IsCoupledTo, IsCoupled, version_key, job_key, job_version, kept, found_id,
}

-- The job of a step, as the join finds it.
pub view-job :
    (db : Db) (s : Step) {v : StepView}
    → view db s ≡ some v
    → (j : Job) × (find_job db s.job_id ≡ some j) × (j.version_id ≡ v.version_id)
unfolding view
view-job db s {v} h = elim (Option-cases (find_job db s.job_id)) [
  | inl e ↦ absurd (ground (arith, e, h))
  | inr (j, e) ↦ elim (Option-cases (find_version db j.version_id)) [
    | inl f ↦ absurd (ground (arith, e, f, h))
    | inr (w, f) ↦ elim (Option-cases (find_image db w.image_id)) [
      | inl g ↦ absurd (ground (arith, e, f, g, h))
      | inr (i, g) ↦ (j, e, ground (arith, e, f, g, h))
    ]
  ]
]

is_version-eq : (s t : VersionState) → is_version s t ≡ true → s ≡ t
is_version-eq draft draft h = refl
is_version-eq draft publishing h = absurd (cc)
is_version-eq draft published h = absurd (cc)
is_version-eq publishing publishing h = refl
is_version-eq publishing draft h = absurd (cc)
is_version-eq publishing published h = absurd (cc)
is_version-eq published published h = refl
is_version-eq published draft h = absurd (cc)
is_version-eq published publishing h = absurd (cc)

pub enqueue-IsCoupled :
    (db : Db) (q : Version → Bool) (t : Version) (id : Uuid)
    → IsCoupled db.versions db.jobs
    → find q db.versions ≡ some t
    → is_version t.state draft ≡ true
    → any (is_same_job (new_job id t.id)) db.jobs ≡ false
    → IsCoupled (publishing_versions db t.id) (new_job id t.id ∷ db.jobs)
enqueue-IsCoupled db q t id (dv, dj, dn, c) found was_draft fresh =
    let apart = any-false (is_same_job (new_job id t.id)) db.jobs fresh in
    let freeze = λ (w : Version). record w { state = publishing } in
    let by_key =
      find-by_key version_key q db.versions (find-IsSole version_key q db.versions dv found)
        found in
    let moved : find (λ w. w.id == t.id) (publishing_versions db t.id)
        ≡ some (if is_at t.id draft t then freeze t else t) =
      find-update_where (λ w. w.id == t.id) (is_at t.id draft) freeze db.versions (λ _. refl)
        by_key in
    let hit : is_at t.id draft t ≡ true = rw (==_refl t.id, was_draft) refl in
    (
      IsDistinct-update_where version_key (is_at t.id draft) freeze db.versions (λ _. refl) dv,
      (
        All-map (λ o. is_same_job (new_job id t.id) o ≡ false) _ db.jobs (λ o e. ground (arith, e))
            apart,
        dj,
      ),
      (
        All-map (λ o. is_same_job (new_job id t.id) o ≡ false) _ db.jobs (λ o e. ground (arith, e))
            apart,
        dn,
      ),
      (
        (freeze t, rw hit at moved, refl),
        All-map (λ o. IsCoupledTo db.versions o × (is_same_job (new_job id t.id) o ≡ false)) _
            db.jobs (λ o h. other o h.0 h.1)
            (All-zip (IsCoupledTo db.versions) (λ o. is_same_job (new_job id t.id) o ≡ false)
              db.jobs c apart),
      ),
    )
  where
    other :
        (o : Job)
        → IsCoupledTo db.versions o
        → is_same_job (new_job id t.id) o ≡ false
        → IsCoupledTo (publishing_versions db t.id) o
    other o (v, f, st) e =
        let same = found_id db.versions v o.version_id f in
        let out : is_at t.id draft v ≡ false = ground (arith, e, same) in
        (
          v,
          kept (is_at t.id draft) (λ w. record w { state = publishing }) db.versions v o.version_id
              (λ _. refl) f out,
          st,
        )

pub is_job-eq : (s : JobState) → is_job s JobState.running ≡ true → s ≡ JobState.running
is_job-eq JobState.running h = refl
is_job-eq JobState.queued h = absurd (cc)
is_job-eq JobState.succeeded h = absurd (cc)
is_job-eq JobState.failed h = absurd (cc)

-- The job `j0` and its version succeed together; the other rows stay.
pub finalize-IsCoupled :
    (db : Db) (now : Time) (job_id version_id : Uuid) (j0 : Job)
    → IsCoupled db.versions db.jobs
    → find (λ j. j.id == job_id) db.jobs ≡ some j0
    → j0.version_id ≡ version_id
    → count_where (λ j. j.id == job_id && is_job j.state JobState.running) db.jobs ≡ 1
    → IsCoupled (published_versions db now version_id) (succeeded_jobs db now job_id)
finalize-IsCoupled db now job_id version_id j0 (dv, dj, dn, c) found same one =
    let runs = λ (j : Job). j.id == job_id && is_job j.state JobState.running in
    let publish = λ (w : Version). record w { state = published; published_at = some now } in
    let succeed = λ (j : Job). record j { state = JobState.succeeded; finished_at = some now } in
    let sole = find-IsSole job_key (λ j. j.id == job_id) db.jobs dj found in
    let sole_version = find-IsSole job_version (λ j. j.id == job_id) db.jobs dn found in
    let (k, found_k) = count_where-find runs db.jobs one in
    let at_id : (j0.id == job_id) ≡ true =
      (All-find (λ _. Unit {0}) (λ j. j.id == job_id) db.jobs (everywhere _ (λ _. tt) db.jobs)
        found).1 in
    let id0 : j0.id ≡ job_id = (==_iff j0.id job_id).0 at_id in
    let (k_is, k_runs) =
      All-find (λ o. (o.id == j0.id) ≡ true → o ≡ j0) runs db.jobs sole found_k in
    let runs0 : runs j0 ≡ true = subst (λ x. runs x ≡ true) (k_is (key_of k id0 k_runs)) k_runs in
    (
      IsDistinct-update_where version_key (is_at version_id publishing) publish db.versions
          (λ _. refl) dv,
      IsDistinct-update_where job_key runs succeed db.jobs (λ _. refl) dj,
      IsDistinct-update_where job_version runs succeed db.jobs (λ _. refl) dn,
      All-update_where
          (λ j.
            IsCoupledTo db.versions j
            × (((j.id == j0.id) ≡ true → j ≡ j0)
                × ((j.version_id == j0.version_id) ≡ true → j ≡ j0)))
          (IsCoupledTo (published_versions db now version_id)) runs succeed db.jobs
          (λ j h t. hit j h.0 (h.1.0 (key_of j id0 t)) t) (λ j h n. miss j h.0 h.1.1 runs0 n)
          (All-zip (IsCoupledTo db.versions) _ db.jobs c (All-zip _ _ db.jobs sole sole_version)),
    )
  where
    key_of :
        (j : Job)
        → j0.id ≡ job_id
        → (j.id == job_id && is_job j.state JobState.running) ≡ true
        → (j.id == j0.id) ≡ true
    key_of j e t = ground (arith, e, t)

    hit :
        (j : Job)
        → IsCoupledTo db.versions j
        → j ≡ j0
        → (j.id == job_id && is_job j.state JobState.running) ≡ true
        → IsCoupledTo
            (published_versions db now version_id)
            (record j { state = JobState.succeeded; finished_at = some now })
    hit j (v, f, st) e t =
        let running = is_job-eq j.state (ground (arith, t)) in
        let state : v.state ≡ publishing = st ∙ ap version_state running in
        let id_v : v.id ≡ version_id =
          found_id db.versions v j.version_id f ∙ ap (λ (x : Job). x.version_id) e ∙ same in
        let yes : is_at version_id publishing v ≡ true =
          rw (id_v, ==_refl version_id, state) refl in
        let moved : find (λ w. w.id == j.version_id) (published_versions db now version_id)
            ≡ some (
                if is_at version_id publishing v
                then record v { state = published; published_at = some now }
                else v) =
          find-update_where (λ w. w.id == j.version_id) (is_at version_id publishing)
            (λ w. record w { state = published; published_at = some now }) db.versions (λ _. refl)
            f in
        (record v { state = published; published_at = some now }, rw yes at moved, refl)

    miss :
        (j : Job)
        → IsCoupledTo db.versions j
        → ((j.version_id == j0.version_id) ≡ true → j ≡ j0)
        → (j0.id == job_id && is_job j0.state JobState.running) ≡ true
        → (j.id == job_id && is_job j.state JobState.running) ≡ false
        → IsCoupledTo (published_versions db now version_id) j
    miss j (v, f, st) e t n =
        let id_v = found_id db.versions v j.version_id f in
        let other : (j.version_id == j0.version_id) ≡ false =
          elim (Bool-cases (j.version_id == j0.version_id)) [
            | inl y ↦ absurd (
                cc (
                  subst (λ (x : Job). (x.id == job_id && is_job x.state JobState.running) ≡ true)
                      (sym (e y)) t,
                  n,
                ))
            | inr y ↦ y
          ] in
        let out : is_at version_id publishing v ≡ false = ground (arith, other, id_v, same) in
        (
          v,
          kept (is_at version_id publishing)
              (λ w. record w { state = published; published_at = some now }) db.versions v
              j.version_id (λ _. refl) f out,
          st,
        )
