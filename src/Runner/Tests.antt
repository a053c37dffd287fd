-- ===== src/Runner/Tests.antt =====
-- Runs of the background loop.
use imgsrv.Prelude.{suc, true, ◌≡◌, refl, [], ◌∷◌, some, if◌then◌else◌, ◌==◌, ◌^◌, ◌*◌, pos, arith}
use imgsrv.Runner.Loop.{Config, failed, idle, next_backoff, new, start, turn, turns}
use imgsrv.Runner.Backoff.{min, next_backoff-pos, new-sleeps, IsSleep}
use imgsrv.Runner.Breaker.{failures, at, turns-breaker}

abbrev config : Config
config = record {
  has_handler = true;
  worker_id = "w";
  interval = pos 5;
  error_backoff_initial = pos 3;
  error_backoff_max = pos 10;
  circuit_breaker_failures = pos 4;
  circuit_breaker_cooldown = pos 50;
}

-- Doubling the greatest int64 wraps around, and the maximum is taken.
next_backoff-pos_example :
    next_backoff (pos 9223372036854775807) (pos 9000000000000000000)
    ≡ pos (min (9223372036854775807 * 2) 9000000000000000000)
next_backoff-pos_example =
    next_backoff-pos 9223372036854775807 9000000000000000000 (omega arith) (omega arith)

new-sleeps_example :
    IsSleep
      (new config)
      failed
      (turn
        (new config)
        failed
        (turns (new config) (failed ∷ idle ∷ failed ∷ []) (start (new config))).0).1
new-sleeps_example =
    new-sleeps config (failed ∷ idle ∷ failed ∷ []) failed (omega arith, omega arith)
      (omega arith, omega arith) (omega arith, omega arith)

turns-breaker_example :
    turn (new config) failed (turns (new config) (failures 3) (start (new config))).0 ≡ (
      if suc 3 == 4
      then (start (new config), some (new config).circuit_breaker.cooldown)
      else (at 3 10 4, some (pos (min (3 * 2 ^ 3) 10))))
unfolding new
turns-breaker_example =
    turns-breaker (new config) 3 10 4 3 (refl, refl, refl, omega arith, omega arith, omega arith)
      (omega arith)
