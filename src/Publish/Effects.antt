-- ===== src/Publish/Effects.antt =====
-- What each statement and each operation that succeeds has done to the tables.
use imgsrv.Prelude.{
  String, Bool, Option, some, List, ◌≡◌, sym, subst, ◌==◌, inl, inr, find, trim_space, update_where,
  ok, Option-cases, arith,
}
use imgsrv.Publish.Domain.{Uuid, Time, StepState, Lease, ClaimStepParams}
use imgsrv.Publish.Tables.{Step, Db, ◌>>=◌}
use imgsrv.Publish.Statements.{
  StepView, find_step, view, claimable, first_of_order, claimed, finished, returning_step,
  claim_step, leased, lock_running_step, mark_step_succeeded, mark_step_failed,
}

pub view-step : (db : Db) (s : Step) {v : StepView} → view db s ≡ some v → v.step ≡ s
unfolding view
view-step db s h = ground arith

pub lock_running_step-ok :
    (l : Lease) (db : Db) {v : StepView} {db' : Db}
    → lock_running_step l db ≡ ok (v, db')
    → (find (leased l) db.steps ≡ some v.step) × (view db v.step ≡ some v) × (db' ≡ db)
unfolding lock_running_step
lock_running_step-ok l db {v} {db'} h = elim (Option-cases (find (leased l) db.steps)) [
  | inl e ↦ absurd (ground (arith, e, h))
  | inr (s, e) ↦ elim (Option-cases (view db s)) [
    | inl f ↦ absurd (ground (arith, e, f, h))
    | inr (w, f) ↦ ground (arith, e, f, h, view-step db s f)
  ]
]

returning_step-ok :
    (id : Uuid) (db : Db) {v : StepView} {db' : Db}
    → returning_step id db ≡ ok (v, db')
    → (find_step db id ≡ some v.step) × (view db v.step ≡ some v) × (db' ≡ db)
returning_step-ok id db {v} {db'} h = elim (Option-cases (find_step db id)) [
  | inl e ↦ absurd (ground (arith, e, h))
  | inr (s, e) ↦ elim (Option-cases (view db s)) [
    | inl f ↦ absurd (ground (arith, e, f, h))
    | inr (w, f) ↦ ground (arith, e, f, h, view-step db s f)
  ]
]

abbrev pub with_steps : Db → List Step → Db
with_steps db ss = record db { steps = ss }

-- The table of steps after the claim of `s`, and after its end.
abbrev pub claimed_steps : Db → Step → String → Time → List Step
claimed_steps db s worker now = update_where (λ o. o.id == s.id) (claimed worker now) db.steps

abbrev pub ended_steps : Db → Step → StepState → (Step → Option String) → Time → List Step
ended_steps db s st message now =
    update_where (λ o. o.id == s.id) (λ o. finished st (message o) now o) db.steps

-- What a claim has done: the step it chose, the table after, and the row it returns.
pub claim_step-ok :
    (locked : Uuid → Bool) (now : Time) (p : ClaimStepParams) (db : Db) {v : StepView} {db' : Db}
    → claim_step locked now p db ≡ ok (v, db')
    → (s : Step) × (first_of_order (claimable db now p.stale_running_before locked) db.steps
        ≡ some s)
      × (find_step (with_steps db (claimed_steps db s p.worker_id now)) s.id ≡ some v.step)
      × (db' ≡ with_steps db (claimed_steps db s p.worker_id now))
unfolding claim_step
claim_step-ok locked now p db {v} {db'} h =
    elim (Option-cases (first_of_order (claimable db now p.stale_running_before locked) db.steps)) [
      | inl e ↦ absurd (ground (arith, e, h))
      | inr (s, e) ↦
          let r =
            returning_step-ok s.id (with_steps db (claimed_steps db s p.worker_id now))
              (rw (e, ◌>>=◌) at h) in
          (s, e, r.0, r.2)
    ]

pub mark_step_succeeded-ok :
    (now : Time) (id : Uuid) (db : Db) {v : StepView} {db' : Db}
    → mark_step_succeeded now id db ≡ ok (v, db')
    → db'
      ≡ with_steps db (
          update_where
            (λ o. o.id == id)
            (λ o. finished StepState.succeeded o.failure_message now o)
            db.steps)
unfolding mark_step_succeeded
mark_step_succeeded-ok now id db h =
    (returning_step-ok id
      (with_steps db (
        update_where (λ o. o.id == id) (λ o. finished StepState.succeeded o.failure_message now o)
          db.steps))
      h).2

pub mark_step_failed-ok :
    (now : Time) (id : Uuid) (message : String) (db : Db) {v : StepView} {db' : Db}
    → mark_step_failed now id message db ≡ ok (v, db')
    → (find_step db' id ≡ some v.step)
      × (db'
          ≡ with_steps db (
              update_where
                (λ o. o.id == id)
                (finished StepState.failed (some (trim_space message)) now)
                db.steps))
unfolding mark_step_failed
mark_step_failed-ok now id message db {v} h =
    let r =
      returning_step-ok id
        (with_steps db (
          update_where (λ o. o.id == id) (finished StepState.failed (some (trim_space message)) now)
            db.steps))
        h in
    (subst (λ d. find_step d id ≡ some v.step) (sym r.2) r.0, r.2)
