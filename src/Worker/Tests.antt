-- ===== src/Worker/Tests.antt =====
-- Runs of the publish worker.
use imgsrv.Prelude.{
  true, false, none, List, [], ◌∷◌, ◌≡◌, refl, pos, ok, err, object_not_found, is_blank, arith, any,
}
use imgsrv.Publish.Domain.{draft, validate_step_lease, validate_claim_step_params}
use imgsrv.Publish.Tables.{Db}
use imgsrv.Publish.Statements.{StepView, claimed, find_step}
use imgsrv.Publish.Enqueue.{FreshIds, enqueue_version}
use imgsrv.Publish.Steps.{claim}
use imgsrv.Publish.JobOutcomes.{validate_row, index_row}
use imgsrv.Publish.Moves.{Op, enqueue, claim_next, succeed_validate, apply, run}
use imgsrv.Worker.Flow.{Surroundings, claim_params, lease_of, run_once}
use imgsrv.Publish.Reach.{run-IsSound}
use imgsrv.Publish.Steps.{succeed_validate_catalog_step, fail_step}
use imgsrv.Worker.Failing.{IsReported, run_once-IsReported}
use imgsrv.Worker.Superseded.{run_once-superseded, run_once-idle}

abbrev start : Db
start = record {
  images = record { id = 1; name = "debian" } ∷ [];
  versions =
      record { id = 2; image_id = 1; version = "12"; state = draft; published_at = none } ∷ [];
  artifacts =
      record {
        id = 3;
        version_id = 2;
        primary_blob_digest = "sha256:1";
        primary_blob_size_bytes = 7;
      }
      ∷ [];
  attachments = [];
  blobs = record { digest = "sha256:1"; size_bytes = 7 } ∷ [];
  jobs = [];
  steps = [];
  projection = [];
}

abbrev ids : FreshIds
ids = record { job = 10; validate = 11; index = 12; finalize = 13 }

abbrev queued : List Op
queued = enqueue 100 ids "debian" "12" ∷ []

-- Another worker claims the step at 300, as stale since 200.
abbrev reclaim : List Op
reclaim =
    claim_next (λ _. false) 300 (record { worker_id = "other"; stale_running_before = 200 }) ∷ []

abbrev around : List Op → Surroundings
around ops = record {
  clock = 150;
  locked = λ _. false;
  claim_time = 101;
  before_end = ops;
  end_time = 301;
  before_fail = [];
  fail_time = 302;
  index_version = λ _. ok [];
  text = λ _. "failed";
}

abbrev taken : StepView
taken = record {
  step = claimed "w" 101 (validate_row 100 ids);
  version_id = 2;
  image_name = "debian";
  version = "12";
}

run_once-superseded_example : run_once (around reclaim) (pos 100) "w" (run queued start) ≡ (
  record { worked = true; failure = none },
  run reclaim
      (claim (λ _. false) 101 (claim_params (around reclaim) (pos 100) "w") (run queued start)).1,
)
unfolding run apply enqueue_version claim claim_params is_blank validate_step_lease any find_step
run_once-superseded_example =
    run_once-superseded (around reclaim) (pos 100) "w" (run queued start) taken [] refl refl refl
      refl
      (record {
        exists = refl;
        passed = ((λ t. absurd (cc)), ((λ t. absurd (cc)), ((λ _. omega arith), tt)));
      })

run_once-idle_example :
    run_once (around []) (pos 100) "w" start ≡ (record { worked = false; failure = none }, start)
unfolding validate_claim_step_params claim_params is_blank
run_once-idle_example = run_once-idle (around []) (pos 100) "w" start refl tt

-- The first step is done, and the second is free.
abbrev to_index : List Op
to_index =
    enqueue 100 ids "debian" "12"
    ∷ claim_next (λ _. false) 100 (record { worker_id = "w"; stale_running_before = 50 })
    ∷ succeed_validate 100 (record { id = 11; worker_id = "w"; attempt_count = 1 })
    ∷ []

abbrev broken : Surroundings
broken = record (around []) { index_version = λ _. err (object_not_found ∷ []) }

abbrev index_step_taken : StepView
index_step_taken = record {
  step = claimed "w" 101 (index_row 100 ids);
  version_id = 2;
  image_name = "debian";
  version = "12";
}

takes_index :
    (claim (λ _. false) 101 (claim_params broken (pos 100) "w") (run to_index start)).0
    ≡ ok index_step_taken
unfolding run apply enqueue_version claim claim_params succeed_validate_catalog_step is_blank
takes_index = refl

reports_nothing : (run_once broken (pos 100) "w" (run to_index start)).0.failure ≡ none
unfolding run_once run apply enqueue_version claim claim_params succeed_validate_catalog_step
    fail_step is_blank
reports_nothing = refl

run_once-IsReported_example :
    ((run_once broken (pos 100) "w" (run to_index start)).0.worked ≡ true)
    × IsReported broken
        (lease_of index_step_taken "w")
        (object_not_found ∷ [])
        (run [] (
          run []
            (claim (λ _. false) 101 (claim_params broken (pos 100) "w") (run to_index start)).1))
        (run_once broken (pos 100) "w" (run to_index start)).1
run_once-IsReported_example =
    run_once-IsReported broken (pos 100) "w" (run to_index start) index_step_taken
      (object_not_found ∷ []) (run-IsSound to_index start (tt, tt, tt)) takes_index refl refl refl
      reports_nothing
