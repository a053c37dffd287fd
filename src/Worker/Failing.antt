-- ===== src/Worker/Failing.antt =====
-- A worker of internal/jobs/publishflow/job.go whose indexer fails.
use imgsrv.Prelude.{
  String, true, false, none, some, [], ◌∷◌, ◌≡◌, refl, sym, ap, ◌∙◌, subst, ◌⊎◌, inl, inr, ◌==◌,
  ==_refl, ==_iff, ℤ, Result, Error, errors_is, ok, err, Bool-cases, Result-cases,
  publish_lease_lost, find, All-find, everywhere, find-update_where, find-by_key, if◌then◌else◌,
  update_where, trim_space, arith,
}
use imgsrv.Publish.Domain.{
  Time, StepState, incus_index, Lease, FailStepParams, validate_fail_step_params,
}
use imgsrv.Publish.Tables.{Step, Db, with_tx-cases, validated, validated-ok}
use imgsrv.Publish.Statements.{StepView, find_step, leased, finished}
use imgsrv.Publish.Steps.{claim, fail_tx, fail_step}
use imgsrv.Publish.EndOutcomes.{fail_tx-ok}
use imgsrv.Publish.Next.{IsSound}
use imgsrv.Publish.Moves.{IsOnly-found, claim_next, apply, run}
use imgsrv.Publish.Reach.{run-IsSound}
use imgsrv.Worker.Flow.{
  Surroundings, Outcome, claim_params, lease_of, index_step, run_named, run_step, after_fail,
  record_failure, unless_lost, end_step, carry_out, run_once,
}

-- The row of a lease has failed with a message, and is free.
abbrev pub IsFailed : Db → Lease → String → Type 0
IsFailed db l message =
    (t : Step) × (find_step db l.id ≡ some t)
    × (t.state ≡ StepState.failed)
    × (t.failure_message ≡ some (trim_space message))
    × (t.locked_by ≡ none)

-- FailStep has a row that the lease holds, and fails it.
fail_step-IsFailed :
    (now : Time) (p : FailStepParams) (db : Db) {v : StepView}
    → IsSound db
    → (fail_step now p db).0 ≡ ok v
    → ((s : Step) × (find (leased p.lease) db.steps ≡ some s))
      × IsFailed (fail_step now p db).1 p.lease p.failure_message
unfolding fail_step find_step leased
fail_step-IsFailed now p db sound h =
    let done = (validated-ok (validate_fail_step_params p) (fail_tx now p) db h).1 in
    let r = fail_tx-ok now p db done in
    let s = r.target.step in
    let F = finished StepState.failed (some (trim_space p.failure_message)) now in
    let at_id =
      find-by_key (λ (o : Step). o.id) (leased p.lease) db.steps
        (IsOnly-found (leased p.lease) db.steps sound.0 r.lease.held) r.lease.held in
    let fit =
      (All-find (λ _. Unit {0}) (leased p.lease) db.steps (everywhere _ (λ _. tt) db.steps)
        r.lease.held).1 in
    let same : s.id ≡ p.lease.id = (==_iff s.id p.lease.id).0 (ground (arith, fit)) in
    let moved : find (λ o. o.id == s.id) (update_where (λ o. o.id == s.id) F db.steps)
        ≡ some (if s.id == s.id then F s else s) =
      find-update_where (λ o. o.id == s.id) (λ o. o.id == s.id) F db.steps (λ _. refl) at_id in
    (
      (s, r.lease.held),
      (
        F s,
        ap (λ (d : Db). find (λ o. o.id == p.lease.id) d.steps) r.after
            ∙ subst
                (λ n.
                  find (λ o. o.id == n) (update_where (λ o. o.id == s.id) F db.steps) ≡ some (F s))
                same (rw (==_refl s.id) at moved),
        refl,
        refl,
        refl,
      ),
    )

-- FailStep that fails writes nothing.
fail_step-err :
    (now : Time) (p : FailStepParams) (db : Db) {y : Error}
    → (fail_step now p db).0 ≡ err y
    → fail_step now p db ≡ (err y, db)
unfolding fail_step
fail_step-err now p db {y} h = elim (Result-cases (validate_fail_step_params p)) [
  | inr (e, n) ↦
      rw (fail_step, validated, n) (ap (λ r. (r, db)) (rw (fail_step, validated, n) at h))
  | inl (_, n) ↦ elim (with_tx-cases (fail_tx now p) db) [
    | inl (a, _, good) ↦ absurd (cc (rw (fail_step, validated, n, good) at h))
    | inr (e, _, same) ↦
        let at_h = rw (fail_step, validated, n) at h in
        rw (fail_step, validated, n) (same ∙ ap (λ r. (r, db)) (sym (ap (λ r. r.0) same) ∙ at_h))
  ]
]

-- What the worker reports of a failure that it has recorded, or could not for want of the lease.
abbrev pub IsReported : Surroundings → Lease → Error → Db → Db → Type 0
IsReported e l x late after =
    let failing : FailStepParams = record { lease = l; failure_message = e.text x } in
    (((s : Step) × (find (leased l) late.steps ≡ some s)) × IsFailed after l (e.text x))
    ⊎ ((y : Error) × (fail_step e.fail_time failing late ≡ (err y, late))
        × (errors_is y publish_lease_lost ≡ true)
        × (after ≡ late))

after_fail-IsReported :
    (e : Surroundings) (l : Lease) (x : Error) (late : Db)
    → IsSound late
    → (r : Result StepView × Db)
    → fail_step e.fail_time (record { lease = l; failure_message = e.text x }) late ≡ r
    → (after_fail x r).0.failure ≡ none
    → ((after_fail x r).0.worked ≡ true) × IsReported e l x late (after_fail x r).1
after_fail-IsReported e l x late sound (ok v, d) q h =
    let p : FailStepParams = record { lease = l; failure_message = e.text x } in
    let (held, failed) = fail_step-IsFailed e.fail_time p late sound (ap (λ r. r.0) q) in
    (refl, inl (held, subst (λ u. IsFailed u l (e.text x)) (ap (λ r. r.1) q) failed))
after_fail-IsReported e l x late sound (err y, d) q h =
    let p : FailStepParams = record { lease = l; failure_message = e.text x } in
    elim (Bool-cases (errors_is y publish_lease_lost)) [
      | inr n ↦ absurd (cc (rw (unless_lost, n) at h))
      | inl t ↦
          let kept = fail_step-err e.fail_time p late (ap (λ r. r.0) q) in
          (rw (unless_lost, t) refl, inr (y, kept, t, sym (ap (λ r. r.1) q) ∙ ap (λ r. r.1) kept))
    ]

-- When the indexer fails on the step that a run has claimed, and the run reports no error, it reports work,
-- and either a step that its lease held has failed with the text of the indexer's error, and is free, or
-- FailStep has answered ErrLeaseLost and the tables are as the others left them. The tables are sound before,
-- and the error is not itself a lost lease.
pub run_once-IsReported :
    (e : Surroundings) (timeout : ℤ) (worker_id : String) (db : Db) (v : StepView) (x : Error)
    → IsSound db
    → (claim e.locked e.claim_time (claim_params e timeout worker_id) db).0 ≡ ok v
    → v.step.name ≡ incus_index
    → e.index_version v ≡ err x
    → errors_is x publish_lease_lost ≡ false
    → (run_once e timeout worker_id db).0.failure ≡ none
    → ((run_once e timeout worker_id db).0.worked ≡ true)
      × IsReported e
          (lease_of v worker_id)
          x
          (run e.before_fail (
            run e.before_end (claim e.locked e.claim_time (claim_params e timeout worker_id) db).1))
          (run_once e timeout worker_id db).1
unfolding run_once carry_out end_step record_failure run_step run_named index_step run apply
run_once-IsReported e timeout worker_id db v x sound got named failed own h =
    let next = (claim e.locked e.claim_time (claim_params e timeout worker_id) db).1 in
    let mid = run e.before_end next in
    let late = run e.before_fail mid in
    let l = lease_of v worker_id in
    let p : FailStepParams = record { lease = l; failure_message = e.text x } in
    let sound_late = run-IsSound e.before_fail mid (
      run-IsSound e.before_end next (
        run-IsSound (claim_next e.locked e.claim_time (claim_params e timeout worker_id) ∷ []) db
          sound)) in
    let done : run_once e timeout worker_id db ≡ after_fail x (fail_step e.fail_time p late) =
      ap (λ r. carry_out e worker_id (r, next)) got
      ∙ ap (λ n. end_step e v worker_id (run_named n e v worker_id mid)) named
      ∙ ap (λ r. end_step e v worker_id (index_step e l v.version_id r mid)) failed
      ∙ ap
          (λ b.
            if b
            then (record { worked = true; failure = none }, mid)
            else after_fail x (fail_step e.fail_time p late))
          own in
    subst (λ (r : Outcome × Db). (r.0.worked ≡ true) × IsReported e l x late r.1) (sym done)
      (after_fail-IsReported e l x late sound_late (fail_step e.fail_time p late) refl
        (sym (ap (λ (r : Outcome × Db). r.0.failure) done) ∙ h))
