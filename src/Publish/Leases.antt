-- ===== src/Publish/Leases.antt =====
-- What a worker may still do in internal/store/postgres/publish/store.go after another has claimed
-- its step: nothing.
use imgsrv.Prelude.{
  find-any, String, List, [], ◌∷◌, Bool, true, false, some, ◌≡◌, refl, sym, ◌∙◌, subst, ap, ◌==◌,
  ◌<◌, find, All-map, All-find, everywhere, Result, ok, err, publish_lease_lost, is_blank, arith,
  ==_iff,
}
use imgsrv.Prelude.{transact}
use imgsrv.Publish.Domain.{
  Uuid, Time, Lease, ClaimStepParams, ProjectionRow, validate_step_lease,
  validate_claim_step_params, validate_succeed_incus_index_step_params, validate_fail_step_params,
}
use imgsrv.Publish.Tables.{Step, Db, Tx, ◌>>=◌, with_tx, validated, validated-ok, map_publish_error}
use imgsrv.Publish.Statements.{StepView, find_step, lock_running_step}
use imgsrv.Publish.Steps.{
  claim_tx, claim, succeed_validate_catalog_tx, succeed_validate_catalog_step,
  succeed_incus_index_tx, succeed_incus_index_step, finalize_publish_tx, finalize_publish_step,
  fail_tx, fail_step,
}
use imgsrv.Publish.Effects.{claimed_steps}
use imgsrv.Publish.Keys.{IsKeyed}
use imgsrv.Publish.Outcomes.{claim_tx-ok}
use imgsrv.Publish.Moves.{Op, claim_next, apply, run, IsOnly-found}
use imgsrv.Publish.Next.{IsSound, Changes-elim, apply_Next}
use imgsrv.Publish.Reach.{apply_Sound}
use imgsrv.Publish.Fencing.{IsOverdue, Change-IsOverdue, IsOverdue-leased}

-- The call is refused with ErrLeaseLost and writes nothing.
abbrev pub lost : {A : Type 0} → Db → Result A × Db
lost db = (err (publish_lease_lost ∷ []), db)

found-IsOverdue :
    (l : Lease) (ss : List Step) {s : Step}
    → IsKeyed ss
    → find (λ o. o.id == l.id) ss ≡ some s
    → l.attempt_count < s.attempt_count
    → IsOverdue l ss
found-IsOverdue l ss {s} k h more =
    let only = IsOnly-found (λ o. o.id == l.id) ss k h in
    let same = (All-find (λ _. Unit {0}) (λ o. o.id == l.id) ss (everywhere _ (λ _. tt) ss) h).1 in
    record {
      exists = find-any (λ o. o.id == l.id) ss h;
      passed = All-map (λ o. (o.id == s.id) ≡ true → o ≡ s) _ ss (λ o e t. later o same e t) only;
    }
  where
    later :
        (o : Step)
        → (s.id == l.id) ≡ true
        → ((o.id == s.id) ≡ true → o ≡ s)
        → (o.id == l.id) ≡ true
        → l.attempt_count < o.attempt_count
    later o e same t =
        let eq : (o.id == s.id) ≡ true = ground (arith, e, t) in
        subst (λ (x : Step). l.attempt_count < x.attempt_count) (sym (same eq)) more

run-IsOverdue :
    (l : Lease) (ops : List Op) (db : Db)
    → IsSound db
    → IsOverdue l db.steps
    → IsOverdue l (run ops db).steps
unfolding run
run-IsOverdue l [] db s o = o
run-IsOverdue l (op ∷ ops) db s o =
    run-IsOverdue l ops (apply op db) (apply_Sound op db s)
      (Changes-elim (IsOverdue l) (Change-IsOverdue l) (apply_Next op db s).0 o)

lock-lost :
    {A : Type 0} (l : Lease) (f : StepView → Tx A) (db : Db)
    → IsOverdue l db.steps
    → with_tx (lock_running_step l >>= f) db ≡ lost db
unfolding with_tx lock_running_step map_publish_error
lock-lost l f db o =
    rw (IsOverdue-leased l db.steps o, lock_running_step, ◌>>=◌, with_tx, transact) refl

-- The validation passes, so the call is its transaction.
past_validation :
    {A : Type 0} (check : Result (Unit {0})) (m : Db → Result A × Db) (db : Db) {r : Result A × Db}
    → check ≡ ok tt
    → m db ≡ r
    → validated check m db ≡ r
past_validation check m db c e = rw c e

module _ (l : Lease) (db : Db) (o : IsOverdue l db.steps) (now : Time) where
  pub succeed_validate-lost :
      validate_step_lease l ≡ ok tt → succeed_validate_catalog_step now l db ≡ lost db
  unfolding succeed_validate_catalog_step succeed_validate_catalog_tx
  succeed_validate-lost fine = past_validation _ _ db fine (lock-lost l _ db o)

  pub finalize-lost : validate_step_lease l ≡ ok tt → finalize_publish_step now l db ≡ lost db
  unfolding finalize_publish_step finalize_publish_tx
  finalize-lost fine = past_validation _ _ db fine (lock-lost l _ db o)

  pub succeed_index-lost :
      (version_id : Uuid) (rows : List ProjectionRow)
      → validate_step_lease l ≡ ok tt
      → (version_id == 0) ≡ false
      → succeed_incus_index_step now (record { lease = l; version_id = version_id; rows = rows }) db
        ≡ lost db
  unfolding succeed_incus_index_step succeed_incus_index_tx validate_succeed_incus_index_step_params
  succeed_index-lost version_id rows fine known =
      past_validation
        (validate_succeed_incus_index_step_params
          (record { lease = l; version_id = version_id; rows = rows }))
        _ db (rw (fine, known) refl) (lock-lost l _ db o)

  pub fail-lost :
      (message : String)
      → validate_step_lease l ≡ ok tt
      → is_blank message ≡ false
      → fail_step now (record { lease = l; failure_message = message }) db ≡ lost db
  unfolding fail_step fail_tx validate_fail_step_params
  fail-lost message fine said =
      past_validation (validate_fail_step_params (record { lease = l; failure_message = message }))
        _ db (rw (fine, said) refl) (lock-lost l _ db o)

-- A claim that succeeds has made the leases of its step that it found overdue.
claim-IsOverdue :
    (locked : Uuid → Bool) (now : Time) (p : ClaimStepParams) (db : Db) (v : StepView) (l : Lease)
    → IsSound db
    → (claim locked now p db).0 ≡ ok v
    → v.step.id ≡ l.id
    → l.attempt_count < v.step.attempt_count
    → IsOverdue l (claim locked now p db).1.steps
unfolding claim find_step apply
claim-IsOverdue locked now p db v l sound h same more =
    let committed = (validated-ok (validate_claim_step_params p) (claim_tx locked now p) db h).1 in
    let r = claim_tx-ok locked now p db committed in
    let next = claimed_steps db r.chosen p.worker_id now in
    let after : (claim locked now p db).1.steps ≡ next = ap (λ (x : Db). x.steps) r.after in
    let found : find (λ o. o.id == r.chosen.id) next ≡ some v.step = r.returned in
    let known : (v.step.id == r.chosen.id) ≡ true =
      (All-find (λ _. Unit {0}) _ next (everywhere _ (λ _. tt) next) found).1 in
    let ids : r.chosen.id ≡ l.id = sym ((==_iff v.step.id r.chosen.id).0 known) ∙ same in
    subst (IsOverdue l) (sym after) (
      found-IsOverdue l next
        (subst IsKeyed after (apply_Sound (claim_next locked now p) db sound).0)
        (subst (λ i. find (λ o. o.id == i) next ≡ some v.step) ids found) more)

-- Once a claim has returned a step with a greater attempt count, no call that ends a step succeeds
-- under the old lease, whatever calls of the store come between: each is refused with ErrLeaseLost
-- and writes nothing. The lease, the version and the message are valid parameters of the calls.
pub reclaimed_lease-lost :
    (locked : Uuid → Bool) (now : Time) (p : ClaimStepParams) (db : Db) (v : StepView) (l : Lease)
    (ops : List Op) (later : Time) (version_id : Uuid) (rows : List ProjectionRow)
    (message : String)
    → IsSound db
    → (claim locked now p db).0 ≡ ok v
    → v.step.id ≡ l.id
    → l.attempt_count < v.step.attempt_count
    → validate_step_lease l ≡ ok tt
    → (version_id == 0) ≡ false
    → is_blank message ≡ false
    → (succeed_validate_catalog_step later l (run ops (claim locked now p db).1)
        ≡ lost (run ops (claim locked now p db).1))
      × (succeed_incus_index_step later
            (record { lease = l; version_id = version_id; rows = rows })
            (run ops (claim locked now p db).1)
          ≡ lost (run ops (claim locked now p db).1))
      × (finalize_publish_step later l (run ops (claim locked now p db).1)
          ≡ lost (run ops (claim locked now p db).1))
      × (fail_step later
            (record { lease = l; failure_message = message })
            (run ops (claim locked now p db).1)
          ≡ lost (run ops (claim locked now p db).1))
unfolding apply
reclaimed_lease-lost locked now p db v l ops later version_id rows message sound h same more fine
      known said =
    let next = (claim locked now p db).1 in
    let first = claim-IsOverdue locked now p db v l sound h same more in
    let o = run-IsOverdue l ops next (apply_Sound (claim_next locked now p) db sound) first in
    (
      succeed_validate-lost l (run ops next) o later fine,
      succeed_index-lost l (run ops next) o later version_id rows fine known,
      finalize-lost l (run ops next) o later fine,
      fail-lost l (run ops next) o later message fine said,
    )
