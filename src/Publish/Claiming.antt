-- ===== src/Publish/Claiming.antt =====
-- ClaimStep of internal/store/postgres/publish/store.go: which step it takes, and when none.
use imgsrv.Prelude.{[], ◌∷◌, Bool, false, ◌≡◌, refl, All, ok, err, no_rows, publish_not_found}
use imgsrv.Prelude.{transact}
use imgsrv.Publish.Domain.{Uuid, Time, ClaimStepParams, validate_claim_step_params}
use imgsrv.Publish.Tables.{Db, with_tx, validated, row, ◌>>=◌, map_publish_error}
use imgsrv.Publish.Statements.{claimable, claim_step}
use imgsrv.Publish.Steps.{claim_tx, claim}
use imgsrv.Publish.Attached.{first_of_order-none_of_All}

-- When no step may be claimed, a claim with valid parameters answers ErrNotFound and writes nothing.
pub claim-not_found :
    (locked : Uuid → Bool) (now : Time) (p : ClaimStepParams) (db : Db)
    → validate_claim_step_params p ≡ ok tt
    → All (λ s. claimable db now p.stale_running_before locked s ≡ false) db.steps
    → claim locked now p db ≡ (err (publish_not_found ∷ no_rows ∷ []), db)
unfolding claim claim_tx claim_step with_tx map_publish_error
claim-not_found locked now p db fine h =
    rw
      (
        fine,
        first_of_order-none_of_All (claimable db now p.stale_running_before locked) db.steps h,
        validated,
        with_tx,
        transact,
        claim_tx,
        claim_step,
        row,
        ◌>>=◌,
      )
      refl
