-- ===== src/Publish/Outcomes.antt =====
-- What each operation on steps has done, when its transaction commits.
use imgsrv.Prelude.{String, Bool, true, some, ◌≡◌, sym, ◌∙◌, ap, subst, ◌==◌, find, ok}
use imgsrv.Publish.Domain.{
  Uuid, Time, StepState, is_name, validate_catalog, incus_index, Lease, ClaimStepParams,
  SucceedIncusIndexStepParams,
}
use imgsrv.Publish.Tables.{
  Step, Db, Tx, ◌>>=◌, ◌>>◌, pure, bind-elim, bind-at, bind-require, pure-ok,
}
use imgsrv.Publish.Statements.{
  StepView, find_step, view, claimable, first_of_order, claim_step, leased, lock_running_step,
  mark_job_running,
}
use imgsrv.Publish.Versions.{publishable, require_publishable_version, replace_incus_rows}
use imgsrv.Publish.Steps.{claim_tx, succeed_validate_catalog_tx, succeed_incus_index_tx}
use imgsrv.Publish.Effects.{
  lock_running_step-ok, claim_step-ok, mark_step_succeeded-ok, with_steps, claimed_steps,
  ended_steps,
}
use imgsrv.Publish.RowEffects.{
  with_projection, running_jobs, mark_job_running-ok, replace_incus_rows-ok,
  require_publishable_version-ok,
}

-- The database after the claim of `s`.
abbrev pub claimed_db : Db → Step → String → Time → Uuid → Db
claimed_db db s worker now job_id = record db {
  steps = claimed_steps db s worker now;
  jobs = running_jobs db now job_id;
}

pub record Claimed (locked : Uuid → Bool) (now : Time) (p : ClaimStepParams) (db db' : Db)
    (v : StepView) : Type 0 where
  pub chosen : Step
  pub is_first :
      first_of_order (claimable db now p.stale_running_before locked) db.steps ≡ some chosen
  pub returned :
      find_step (with_steps db (claimed_steps db chosen p.worker_id now)) chosen.id ≡ some v.step
  pub after : db' ≡ claimed_db db chosen p.worker_id now v.step.job_id

pub claim_tx-ok :
    (locked : Uuid → Bool) (now : Time) (p : ClaimStepParams) (db : Db) {v : StepView} {db' : Db}
    → claim_tx locked now p db ≡ ok (v, db')
    → Claimed locked now p db db' v
unfolding claim_tx
claim_tx-ok locked now p db {v} {db'} h =
    bind-elim (claim_step locked now p) (λ w. mark_job_running now w.step.job_id >> pure w) db h
      (λ w d took rest.
        let (s, first, found, e) = claim_step-ok locked now p db took in
        bind-at (mark_job_running now w.step.job_id) (λ _. pure w)
          (with_steps db (claimed_steps db s p.worker_id now))
          (claimed_db db s p.worker_id now w.step.job_id)
          (λ _ _.
            mark_job_running-ok now w.step.job_id
              (with_steps db (claimed_steps db s p.worker_id now)))
          (subst (λ x. (mark_job_running now w.step.job_id >> pure w) x ≡ ok (v, db')) e rest)
          (λ _ _ out. claim_done w s first found out))
  where
    claim_done :
        (w : StepView) (s : Step)
        → first_of_order (claimable db now p.stale_running_before locked) db.steps ≡ some s
        → find_step (with_steps db (claimed_steps db s p.worker_id now)) s.id ≡ some w.step
        → pure w (claimed_db db s p.worker_id now w.step.job_id) ≡ ok (v, db')
        → Claimed locked now p db db' v
    claim_done w s first found out =
        let (same, e) = pure-ok w (claimed_db db s p.worker_id now w.step.job_id) out in
        record {
          chosen = s;
          is_first = first;
          returned =
              subst
                (λ (x : StepView).
                  find_step (with_steps db (claimed_steps db s p.worker_id now)) s.id ≡ some x.step)
                (sym same) found;
          after =
              e ∙ ap (λ (x : StepView). claimed_db db s p.worker_id now x.step.job_id) (sym same);
        }

-- The step that a lease holds, as an operation finds it, under its name.
pub record Held (l : Lease) (db : Db) (v : StepView) : Type 0 where
  pub held : find (leased l) db.steps ≡ some v.step
  pub joined : view db v.step ≡ some v

-- Every operation that ends a step starts by its lease.
pub with_lease :
    {B C : Type 0} (l : Lease) (f : StepView → Tx B) (db : Db) {r : B × Db}
    → (lock_running_step l >>= f) db ≡ ok r
    → ((v : StepView) → Held l db v → f v db ≡ ok r → C)
    → C
with_lease l f db h k =
    bind-at (lock_running_step l) f db db (λ v d e. (lock_running_step-ok l db e).2) h
      (λ v took rest.
        let (found, seen, _) = lock_running_step-ok l db took in
        k v (record { held = found; joined = seen }) rest)

pub record Validated (now : Time) (l : Lease) (db db' : Db) : Type 0 where
  pub target : StepView
  pub lease : Held l db target
  pub named : is_name target.step.name validate_catalog ≡ true
  pub sound : publishable db target.version_id ≡ true
  pub after :
      db'
      ≡ with_steps db (ended_steps db target.step StepState.succeeded (λ o. o.failure_message) now)

pub succeed_validate_catalog_tx-ok :
    (now : Time) (l : Lease) (db : Db) {v : StepView} {db' : Db}
    → succeed_validate_catalog_tx now l db ≡ ok (v, db')
    → Validated now l db db'
unfolding succeed_validate_catalog_tx
succeed_validate_catalog_tx-ok now l db h = with_lease l _ db h (λ w lease h1.
    bind-require _ _ _ db h1 (λ name h2.
      bind-at (require_publishable_version w.version_id) _ db db
        (λ _ _ e. (require_publishable_version-ok w.version_id db e).1) h2
        (λ _ fine h3. record {
          target = w;
          lease = lease;
          named = name;
          sound = (require_publishable_version-ok w.version_id db fine).0;
          after = mark_step_succeeded-ok now w.step.id db h3;
        })))

pub record Indexed (now : Time) (p : SucceedIncusIndexStepParams) (db db' : Db) : Type 0 where
  pub target : StepView
  pub lease : Held p.lease db target
  pub named : is_name target.step.name incus_index ≡ true
  pub version : (target.version_id == p.version_id) ≡ true
  pub after :
      db'
      ≡ with_steps
          (with_projection db db'.projection)
          (ended_steps db target.step StepState.succeeded (λ o. o.failure_message) now)

pub succeed_incus_index_tx-ok :
    (now : Time) (p : SucceedIncusIndexStepParams) (db : Db) {v : StepView} {db' : Db}
    → succeed_incus_index_tx now p db ≡ ok (v, db')
    → Indexed now p db db'
unfolding succeed_incus_index_tx
succeed_incus_index_tx-ok now p db {v} {db'} h = with_lease p.lease _ db h (λ w lease h1.
    bind-require _ _ _ db h1 (λ name h2. bind-require _ _ _ db h2 (λ version h3.
      bind-elim (replace_incus_rows p.version_id p.rows) _ db h3 (λ _ d wrote h4.
        let e = replace_incus_rows-ok p.version_id p.rows db wrote in
        record {
          target = w;
          lease = lease;
          named = name;
          version = version;
          after = indexed_db w.step d e (mark_step_succeeded-ok now w.step.id d h4);
        }))))
  where
    indexed_db :
        (s : Step) (d : Db)
        → d ≡ with_projection db d.projection
        → db' ≡ with_steps d (ended_steps d s StepState.succeeded (λ o. o.failure_message) now)
        → db'
          ≡ with_steps
              (with_projection db db'.projection)
              (ended_steps db s StepState.succeeded (λ o. o.failure_message) now)
    indexed_db s d e k =
        k
        ∙ ap (λ x. with_steps x (ended_steps x s StepState.succeeded (λ o. o.failure_message) now))
            e
        ∙ ap
            (λ q.
              with_steps (with_projection db q)
                (ended_steps db s StepState.succeeded (λ o. o.failure_message) now))
            (sym (ap (λ (x : Db). x.projection) k))
