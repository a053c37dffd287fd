-- ===== src/Publish/Tests.antt =====
-- Runs of the publish workflow on a database with one draft version.
mod Retry
use imgsrv.Prelude.{
  ℕ, String, Bool, true, false, none, some, List, [], ◌∷◌, ◌≡◌, refl, map, is_blank, All, err,
  arith, no_rows, publish_not_found,
}
use imgsrv.Publish.Domain.{
  draft, published, Lease, ClaimStepParams, validate_step_lease, validate_claim_step_params,
}
use imgsrv.Publish.Domain.{JobState, StepState}
use imgsrv.Publish.Tables.{Db, Step, Version}
use imgsrv.Publish.Statements.{StepView, claimed, finished, find_step}
use imgsrv.Publish.Enqueue.{FreshIds, JobView, enqueue_version}
use imgsrv.Publish.Steps.{
  claim, succeed_validate_catalog_step, succeed_incus_index_step, finalize_publish_step, fail_step,
}
use imgsrv.Publish.JobOutcomes.{validate_row, index_row, finalize_row}
use imgsrv.Publish.Moves.{
  Op, enqueue, claim_next, succeed_validate, succeed_index, finalize, apply, run,
}
use imgsrv.Publish.Next.{IsSound}
use imgsrv.Publish.Reach.{run-IsSound}
use imgsrv.Publish.Leases.{lost, reclaimed_lease-lost}
use imgsrv.Publish.Exclusion.{rivals, run-rivals}
use imgsrv.Publish.Published.{IsPublished, run-IsPublished}
use imgsrv.Publish.Agreement.{AreCoupled, run-AreCoupled}
use imgsrv.Publish.Finalizing.{Publication, finalize_publish_step-Publication}
use imgsrv.Publish.Claiming.{claim-not_found}

abbrev digest : String
digest = "sha256:1"

abbrev start : Db
start = record {
  images = record { id = 1; name = "debian" } ∷ [];
  versions =
      record { id = 2; image_id = 1; version = "12"; state = draft; published_at = none } ∷ [];
  artifacts =
      record { id = 3; version_id = 2; primary_blob_digest = digest; primary_blob_size_bytes = 7 }
      ∷ [];
  attachments = [];
  blobs = record { digest = digest; size_bytes = 7 } ∷ [];
  jobs = [];
  steps = [];
  projection = [];
}

abbrev ids : FreshIds
ids = record { job = 10; validate = 11; index = 12; finalize = 13 }

abbrev worker : ℕ → ClaimStepParams
worker cutoff = record { worker_id = "w"; stale_running_before = cutoff }

abbrev lease : ℕ → ℕ → Lease
lease id n = record { id = id; worker_id = "w"; attempt_count = n }

abbrev unlocked : ℕ → Bool
unlocked _ = false

abbrev enqueued : Op
enqueued = enqueue 100 ids "debian" "12"

abbrev taken : List Op
taken = enqueued ∷ claim_next unlocked 101 (worker 50) ∷ []

abbrev workflow : List Op
workflow =
    enqueued
    ∷ claim_next unlocked 101 (worker 50)
    ∷ succeed_validate 102 (lease 11 1)
    ∷ claim_next unlocked 103 (worker 50)
    ∷ succeed_index 104 (record { lease = lease 12 1; version_id = 2; rows = [] })
    ∷ claim_next unlocked 105 (worker 50)
    ∷ finalize 106 (lease 13 1)
    ∷ []

publishes : map (λ v. v.state) (run workflow start).versions ≡ published ∷ []
unfolding run is_blank apply finalize_publish_step claim succeed_incus_index_step
    succeed_validate_catalog_step enqueue_version
publishes = refl

start-IsSound : IsSound start
start-IsSound = (tt, tt, tt)

run-IsSound_example : IsSound (run workflow start)
run-IsSound_example = run-IsSound workflow start start-IsSound

run-rivals_example :
    All
      (λ s. All (λ t. rivals s t ≡ true → s.sequence ≡ t.sequence) (run workflow start).steps)
      (run workflow start).steps
run-rivals_example = run-rivals workflow start start-IsSound

abbrev first_step : StepView
first_step = record {
  step = claimed "w" 101 (validate_row 100 ids);
  version_id = 2;
  image_name = "debian";
  version = "12";
}

-- The validation of the catalog, claimed once more.
abbrev second_attempt : StepView
second_attempt = record first_step { step = claimed "w" 300 (first_step.step) }

reclaimed_lease-lost_example :
    (succeed_validate_catalog_step 303
        (lease 11 1)
        (run [] (claim unlocked 300 (worker 200) (run taken start)).1)
      ≡ lost (run [] (claim unlocked 300 (worker 200) (run taken start)).1))
    × (succeed_incus_index_step 303
          (record { lease = lease 11 1; version_id = 2; rows = [] })
          (run [] (claim unlocked 300 (worker 200) (run taken start)).1)
        ≡ lost (run [] (claim unlocked 300 (worker 200) (run taken start)).1))
    × (finalize_publish_step 303
          (lease 11 1)
          (run [] (claim unlocked 300 (worker 200) (run taken start)).1)
        ≡ lost (run [] (claim unlocked 300 (worker 200) (run taken start)).1))
    × (fail_step 303
          (record { lease = lease 11 1; failure_message = "late" })
          (run [] (claim unlocked 300 (worker 200) (run taken start)).1)
        ≡ lost (run [] (claim unlocked 300 (worker 200) (run taken start)).1))
unfolding run claim is_blank validate_step_lease apply enqueue_version find_step
reclaimed_lease-lost_example =
    reclaimed_lease-lost unlocked 300 (worker 200) (run taken start) second_attempt (lease 11 1) []
      303 2 [] "late" (run-IsSound taken start start-IsSound) refl refl (omega arith) refl refl refl

claim-not_found_example :
    claim unlocked 101 (worker 50) start ≡ (err (publish_not_found ∷ no_rows ∷ []), start)
unfolding validate_claim_step_params is_blank
claim-not_found_example = claim-not_found unlocked 101 (worker 50) start refl tt

abbrev published_row : Version
published_row = record {
  id = 2;
  image_id = 1;
  version = "12";
  state = published;
  published_at = some 106;
}

run-IsPublished_example :
    IsPublished 2 published_row
      (run (enqueued ∷ finalize 200 (lease 13 1) ∷ []) (run workflow start)).versions
unfolding run is_blank apply finalize_publish_step claim succeed_incus_index_step
    succeed_validate_catalog_step enqueue_version
run-IsPublished_example =
    run-IsPublished (enqueued ∷ finalize 200 (lease 13 1) ∷ []) (run workflow start) 2 published_row
      (refl, refl)

start-AreCoupled : AreCoupled start
start-AreCoupled = ((tt, tt), tt, tt, tt)

run-AreCoupled_example : AreCoupled (run workflow start)
run-AreCoupled_example = run-AreCoupled workflow start start-AreCoupled

-- The workflow but for its last call.
abbrev ready : List Op
ready =
    enqueued
    ∷ claim_next unlocked 101 (worker 50)
    ∷ succeed_validate 102 (lease 11 1)
    ∷ claim_next unlocked 103 (worker 50)
    ∷ succeed_index 104 (record { lease = lease 12 1; version_id = 2; rows = [] })
    ∷ claim_next unlocked 105 (worker 50)
    ∷ []

abbrev ended_row : Step → ℕ → ℕ → StepView
ended_row row taken_at ended_at = record {
  step = finished StepState.succeeded none ended_at (claimed "w" taken_at row);
  version_id = 2;
  image_name = "debian";
  version = "12";
}

abbrev finished_job : JobView
finished_job = record {
  job = record {
    id = 10;
    version_id = 2;
    state = JobState.succeeded;
    started_at = some 101;
    finished_at = some 106;
    failure_message = none;
  };
  image_name = "debian";
  version = "12";
  steps =
      ended_row (validate_row 100 ids) 101 102
      ∷ ended_row (index_row 100 ids) 103 104
      ∷ ended_row (finalize_row 100 ids) 105 106
      ∷ [];
}

finalize_publish_step-Publication_example :
    Publication 106
      (lease 13 1)
      (run ready start)
      (finalize_publish_step 106 (lease 13 1) (run ready start)).1
unfolding run is_blank apply finalize_publish_step claim succeed_incus_index_step
    succeed_validate_catalog_step enqueue_version
finalize_publish_step-Publication_example =
    finalize_publish_step-Publication 106 (lease 13 1) (run ready start) finished_job
      (run-IsSound ready start start-IsSound) (run-AreCoupled ready start start-AreCoupled) refl
