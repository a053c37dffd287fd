-- ===== src/Publish/Moves.antt =====
-- Operations in sequence, and what each does to the table of steps.
use imgsrv.Prelude.{
  String, List, [], ◌∷◌, Bool, true, false, Option, some, ◌≡◌, refl, sym, subst, inl, inr,
  everywhere, All-find, find, Result, ok, err, arith,
}
use imgsrv.Publish.Domain.{
  Uuid, Time, StepState, Lease, ClaimStepParams, FailStepParams, SucceedIncusIndexStepParams,
  is_step,
}
use imgsrv.Publish.Tables.{Step, Db, Tx, with_tx, validated, with_tx-cases}
use imgsrv.Publish.Statements.{has_pending_before, claimable, first_of_order, leased}
use imgsrv.Publish.Enqueue.{FreshIds, enqueue_version}
use imgsrv.Publish.Retry.{retry_job}
use imgsrv.Publish.Steps.{
  claim, succeed_validate_catalog_step, succeed_incus_index_step, finalize_publish_step, fail_step,
}
use imgsrv.Publish.Change
use imgsrv.Publish.Change.{Change, Changes, done, ◌then◌, as_succeeded, as_failed}
use imgsrv.Publish.Attached.{All-first_of_order}
use imgsrv.Publish.Effects.{claimed_steps, ended_steps}
use imgsrv.Publish.Keys.{IsKeyed, IsOnly, IsKeyed-IsOnly}

-- A call of the store, with what the environment supplies to it.
pub data Op : Type 0 where
  enqueue : Time → FreshIds → String → String → Op
  retry : Time → Uuid → Op
  claim_next : (Uuid → Bool) → Time → ClaimStepParams → Op
  succeed_validate : Time → Lease → Op
  succeed_index : Time → SucceedIncusIndexStepParams → Op
  finalize : Time → Lease → Op
  fail : Time → FailStepParams → Op

-- The database after a call.
unfoldable pub apply : Op → Db → Db
apply (enqueue now ids image_name version) db = (enqueue_version now ids image_name version db).1
apply (retry now id) db = (retry_job now id db).1
apply (claim_next locked now p) db = (claim locked now p db).1
apply (succeed_validate now l) db = (succeed_validate_catalog_step now l db).1
apply (succeed_index now p) db = (succeed_incus_index_step now p db).1
apply (finalize now l) db = (finalize_publish_step now l db).1
apply (fail now p) db = (fail_step now p db).1

unfoldable pub run : List Op → Db → Db
run [] db = db
run (op ∷ ops) db = run ops (apply op db)

-- A call writes nothing, or its transaction commits.
pub committed :
    {A : Type 0} (check : Result (Unit {0})) (m : Tx A) (db : Db) {C : Db → Type 0}
    → C db
    → ((a : A) (db' : Db) → m db ≡ ok (a, db') → C db')
    → C (validated check (with_tx m) db).1
committed (ok _) m db {C} same commit = elim (with_tx-cases m db) [
  | inl (a, e, _) ↦ commit a _ e
  | inr (_, _, e) ↦ subst (λ r. C r.1) (sym e) same
]
committed (err e) m db same commit = same

pub running_of_leased :
    (l : Lease) (s : Step) → leased l s ≡ true → is_step s.state StepState.running ≡ true
unfolding leased
running_of_leased l s h = ground (arith, h)

-- The rows with the identity of a row that is found are that row.
pub IsOnly-found :
    (p : Step → Bool) (ss : List Step) {s : Step} → IsKeyed ss → find p ss ≡ some s → IsOnly ss s
IsOnly-found p ss k e = (All-find (IsOnly ss) p ss (IsKeyed-IsOnly ss k) e).0

pub end_Change :
    (l : Lease) (db : Db) (s : Step) (st : StepState) (message : Step → Option String) (now : Time)
    → Change.IsEnd st
    → IsKeyed db.steps
    → find (leased l) db.steps ≡ some s
    → Change db.steps (ended_steps db s st message now)
end_Change l db s st message now ended k e =
    Change.end s st message now ended
      (running_of_leased l s
        (All-find (λ _. Unit {0}) (leased l) db.steps (everywhere _ (λ _. tt) db.steps) e).1)
      (IsOnly-found (leased l) db.steps k e) refl

pub claimable_parts :
    (db : Db) (now cutoff : Time) (locked : Uuid → Bool) (s : Step)
    → claimable db now cutoff locked s ≡ true
    → (is_step s.state StepState.succeeded ≡ false)
      × (has_pending_before db.steps s.job_id s.sequence ≡ false)
unfolding claimable
claimable_parts db now cutoff locked s h = ground (arith, h)

pub claim_Change :
    (locked : Uuid → Bool) (now : Time) (p : ClaimStepParams) (db : Db) (s : Step)
    → IsKeyed db.steps
    → first_of_order (claimable db now p.stale_running_before locked) db.steps ≡ some s
    → Change db.steps (claimed_steps db s p.worker_id now)
claim_Change locked now p db s k e =
    let (only, fit) =
      All-first_of_order (IsOnly db.steps) (claimable db now p.stale_running_before locked) db.steps
        (IsKeyed-IsOnly db.steps k) e in
    let (live, calm) = claimable_parts db now p.stale_running_before locked s fit in
    Change.claim s p.worker_id now live calm only refl
