-- ===== src/Runner/Loop.antt =====
-- The state and the turns of Runner.Run, of internal/jobs/runner.go.
use imgsrv.Prelude.{
  String, Bool, ◌&&◌, ◌||◌, not, Option, none, some, List, [], ◌∷◌, is_blank, if◌then◌else◌, ℤ, pos,
  add64, double64, ltb_ℤ, leb_ℤ, Result, ok, err, other,
}

abbrev pub Duration : Type 0
Duration = ℤ

abbrev pub default_interval : Duration
default_interval = pos 5000000000

abbrev pub default_error_backoff_max : Duration
default_error_backoff_max = pos 60000000000

-- The numbers of Config.
pub record Config : Type 0 where
  pub has_handler : Bool
  pub worker_id : String
  pub interval : Duration
  pub error_backoff_initial : Duration
  pub error_backoff_max : Duration
  pub circuit_breaker_failures : ℤ
  pub circuit_breaker_cooldown : Duration

pub record ErrorBackoff : Type 0 where
  pub initial : Duration
  pub max : Duration

pub record CircuitBreaker : Type 0 where
  pub failures : ℤ
  pub cooldown : Duration

pub record Runner : Type 0 where
  pub has_handler : Bool
  pub worker_id : String
  pub interval : Duration
  pub backoff : ErrorBackoff
  pub circuit_breaker : CircuitBreaker

-- `d`, or `fallback` where d is not positive.
abbrev pub or_default : Duration → Duration → Duration
or_default d fallback = if leb_ℤ d (pos 0) then fallback else d

unfoldable pub new_error_backoff : Duration → Duration → Duration → ErrorBackoff
new_error_backoff interval initial max_delay =
    let first = or_default initial interval in
    let top = or_default max_delay default_error_backoff_max in
    record { initial = first; max = if ltb_ℤ top first then first else top }

unfoldable pub next_backoff : Duration → Duration → Duration
next_backoff current max_delay =
    let next = double64 current in
    if ltb_ℤ next current || ltb_ℤ max_delay next then max_delay else next

unfoldable pub new_circuit_breaker : ℤ → Duration → Duration → CircuitBreaker
new_circuit_breaker failures cooldown fallback = record {
  failures = failures;
  cooldown = or_default cooldown fallback;
}

-- circuitBreaker.open.
unfoldable pub is_open : CircuitBreaker → ℤ → Bool
is_open b failures = ltb_ℤ (pos 0) b.failures && leb_ℤ b.failures failures

unfoldable pub new : Config → Runner
unfolding new_error_backoff new_circuit_breaker
new c =
    let interval = or_default c.interval default_interval in
    let backoff = new_error_backoff interval c.error_backoff_initial c.error_backoff_max in
    record {
      has_handler = c.has_handler;
      worker_id = c.worker_id;
      interval = interval;
      backoff = backoff;
      circuit_breaker =
          new_circuit_breaker c.circuit_breaker_failures c.circuit_breaker_cooldown backoff.max;
    }

-- Runner.dependencies: what Run and RunOnce ask for before the first attempt.
unfoldable pub dependencies : Runner → Result String
unfolding is_blank
dependencies r =
    if not r.has_handler
    then err (other ∷ [])
    else if is_blank r.worker_id
    then err (other ∷ [])
    else ok r.worker_id

-- What an attempt of the handler comes to.
pub data Attempt : Type 0 where
  failed worked idle : Attempt

-- The variables of the loop.
pub record State : Type 0 where
  pub failures : ℤ
  pub error_delay : Duration

unfoldable pub start : Runner → State
start r = record { failures = pos 0; error_delay = r.backoff.initial }

-- One turn: the state after, and how long the loop sleeps, if it does.
unfoldable pub turn : Runner → Attempt → State → State × Option Duration
unfolding is_open next_backoff
turn r failed s =
    let failures = add64 s.failures (pos 1) in
    if is_open r.circuit_breaker failures
    then (
      record { failures = pos 0; error_delay = r.backoff.initial },
      some r.circuit_breaker.cooldown,
    )
    else (
      record { failures = failures; error_delay = next_backoff s.error_delay r.backoff.max },
      some s.error_delay,
    )
turn r worked s = (record { failures = pos 0; error_delay = r.backoff.initial }, none)
turn r idle s = (record { failures = pos 0; error_delay = r.backoff.initial }, some r.interval)

-- The sleeps of the turns that a sequence of attempts makes, and the state after them.
unfoldable pub turns : Runner → List Attempt → State → State × List (Option Duration)
unfolding turn
turns r [] s = (s, [])
turns r (a ∷ rest) s =
    let (next, sleep) = turn r a s in
    let (last, sleeps) = turns r rest next in (last, sleep ∷ sleeps)
