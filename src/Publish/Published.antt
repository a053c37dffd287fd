-- ===== src/Publish/Published.antt =====
-- Published versions in internal/store/postgres/publish/store.go: no call changes them.
use imgsrv.Prelude.{
  List, [], ◌∷◌, true, false, some, ◌≡◌, refl, sym, subst, ◌==◌, find, find-update_where, arith,
  if◌then◌else◌,
}
use imgsrv.Publish.Domain.{
  Uuid, Time, draft, publishing, published, is_version, validate_claim_step_params,
  validate_step_lease, validate_fail_step_params, validate_succeed_incus_index_step_params,
  validate_job_id,
}
use imgsrv.Publish.Tables.{Version, Db}
use imgsrv.Publish.Enqueue.{enqueue_version, enqueue_tx, validate_enqueue_version_params}
use imgsrv.Publish.Retry.{retry_tx, retry_job}
use imgsrv.Publish.Steps.{
  claim_tx, claim, succeed_validate_catalog_tx, succeed_validate_catalog_step,
  succeed_incus_index_tx, succeed_incus_index_step, finalize_publish_tx, finalize_publish_step,
  fail_tx, fail_step,
}
use imgsrv.Publish.RowEffects.{is_at, publishing_versions, published_versions}
use imgsrv.Publish.Outcomes.{claim_tx-ok, succeed_validate_catalog_tx-ok, succeed_incus_index_tx-ok}
use imgsrv.Publish.EndOutcomes.{finalize_publish_tx-ok, fail_tx-ok}
use imgsrv.Publish.JobOutcomes.{enqueue_tx-ok}
use imgsrv.Publish.RetryOutcome.{retry_tx-ok}
use imgsrv.Publish.Moves.{
  Op, enqueue, retry, claim_next, succeed_validate, succeed_index, finalize, fail, apply, run,
  committed,
}

-- The row of `id` is the published version `v`.
abbrev pub IsPublished : Uuid → Version → List Version → Type 0
IsPublished id v vs = (find (λ w. w.id == id) vs ≡ some v) × (is_version v.state published ≡ true)

pub publishing_versions-IsPublished :
    (db : Db) (i : Uuid) (v : Version) (id : Uuid)
    → IsPublished i v db.versions
    → IsPublished i v (publishing_versions db id)
publishing_versions-IsPublished db i v id (f, p) =
    let out : is_at id draft v ≡ false = ground (arith, p) in
    let moved : find (λ w. w.id == i) (publishing_versions db id)
        ≡ some (if is_at id draft v then record v { state = publishing } else v) =
      find-update_where (λ w. w.id == i) (is_at id draft) (λ w. record w { state = publishing })
        db.versions (λ _. refl) f in
    (rw out at moved, p)

published_versions-IsPublished :
    (db : Db) (i : Uuid) (v : Version) (now : Time) (id : Uuid)
    → IsPublished i v db.versions
    → IsPublished i v (published_versions db now id)
published_versions-IsPublished db i v now id (f, p) =
    let out : is_at id publishing v ≡ false = ground (arith, p) in
    let moved : find (λ w. w.id == i) (published_versions db now id)
        ≡ some (
            if is_at id publishing v
            then record v { state = published; published_at = some now }
            else v) =
      find-update_where (λ w. w.id == i) (is_at id publishing)
        (λ w. record w { state = published; published_at = some now }) db.versions (λ _. refl) f in
    (rw out at moved, p)

apply-IsPublished :
    (op : Op) (db : Db) (i : Uuid) (v : Version)
    → IsPublished i v db.versions
    → IsPublished i v (apply op db).versions
unfolding apply enqueue_version retry_job claim succeed_validate_catalog_step
    succeed_incus_index_step finalize_publish_step fail_step
apply-IsPublished (enqueue now ids name version) db i v h =
    committed (validate_enqueue_version_params name version) (enqueue_tx now ids name version) db
      {C = λ d. IsPublished i v d.versions} h
      (λ _ _ e.
        let r = enqueue_tx-ok now ids name version db e in
        subst (λ (d : Db). IsPublished i v d.versions) (sym r.after)
          (publishing_versions-IsPublished db i v r.target.id h))
apply-IsPublished (retry now id) db i v h =
    committed (validate_job_id id) (retry_tx now id) db {C = λ d. IsPublished i v d.versions} h
      (λ _ _ e.
        subst (λ (d : Db). IsPublished i v d.versions) (sym (retry_tx-ok now id db e).after) h)
apply-IsPublished (claim_next locked now p) db i v h =
    committed (validate_claim_step_params p) (claim_tx locked now p) db
      {C = λ d. IsPublished i v d.versions} h
      (λ _ _ e.
        subst (λ (d : Db). IsPublished i v d.versions) (sym (claim_tx-ok locked now p db e).after)
          h)
apply-IsPublished (succeed_validate now l) db i v h =
    committed (validate_step_lease l) (succeed_validate_catalog_tx now l) db
      {C = λ d. IsPublished i v d.versions} h
      (λ _ _ e.
        subst (λ (d : Db). IsPublished i v d.versions)
          (sym (succeed_validate_catalog_tx-ok now l db e).after) h)
apply-IsPublished (succeed_index now p) db i v h =
    committed (validate_succeed_incus_index_step_params p) (succeed_incus_index_tx now p) db
      {C = λ d. IsPublished i v d.versions} h
      (λ _ _ e.
        subst (λ (d : Db). IsPublished i v d.versions)
          (sym (succeed_incus_index_tx-ok now p db e).after) h)
apply-IsPublished (finalize now l) db i v h =
    committed (validate_step_lease l) (finalize_publish_tx now l) db
      {C = λ d. IsPublished i v d.versions} h
      (λ _ _ e.
        let r = finalize_publish_tx-ok now l db e in
        subst (λ (d : Db). IsPublished i v d.versions) (sym r.after)
          (published_versions-IsPublished db i v now r.target.version_id h))
apply-IsPublished (fail now p) db i v h =
    committed (validate_fail_step_params p) (fail_tx now p) db {C = λ d. IsPublished i v d.versions}
      h
      (λ _ _ e.
        subst (λ (d : Db). IsPublished i v d.versions) (sym (fail_tx-ok now p db e).after) h)

-- A version that is published stays as it is, with its state and its time of publication, under
-- every sequence of calls.
pub run-IsPublished :
    (ops : List Op) (db : Db) (i : Uuid) (v : Version)
    → IsPublished i v db.versions
    → IsPublished i v (run ops db).versions
unfolding run
run-IsPublished [] db i v h = h
run-IsPublished (op ∷ ops) db i v h =
    run-IsPublished ops (apply op db) i v (apply-IsPublished op db i v h)
