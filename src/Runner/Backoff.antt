-- ===== src/Runner/Backoff.antt =====
-- The retry delays of internal/jobs/runner.go stay in their bounds, and grow by doubling.
use imgsrv.Prelude.{
  ℕ, suc, ◌*◌, ◌<◌, Option, none, some, List, [], ◌∷◌, ◌≡◌, zero, refl, inl, inr, if◌then◌else◌,
  ltb, pos, negsuc, pos_part, IsInt64, ◌⊎◌, add64, ltb_ℤ, two63, ◌≤ℤ◌, ◌<ℤ◌, Bool-cases, arith,
}
use imgsrv.Runner.Loop.{
  Duration, or_default, default_interval, default_error_backoff_max, new_circuit_breaker, Config,
  ErrorBackoff, Runner, State, Attempt, failed, worked, idle, new_error_backoff, next_backoff, new,
  is_open, start, turn, turns,
}

abbrev pub min : ℕ → ℕ → ℕ
min a b = if ltb b a then b else a

-- Doubling wraps around, but the guards of nextBackoff see it: for delays from zero on the next delay
-- is the lesser of twice the current one and the maximum.
pub next_backoff-pos :
    (n m : ℕ) → n < two63 → m < two63 → next_backoff (pos n) (pos m) ≡ pos (min (n * 2) m)
unfolding next_backoff
next_backoff-pos n m h k = ground arith

-- A delay that waits and does not exceed the maximum.
abbrev pub IsDelay : ErrorBackoff → Duration → Type 0
IsDelay b d = (pos 0 <ℤ d) × (d ≤ℤ b.max)

-- What New makes of any configuration.
pub record IsSane (r : Runner) : Type 0 where
  pub interval : pos 0 <ℤ r.interval
  pub initial : IsDelay r.backoff r.backoff.initial
  pub max : pos_part r.backoff.max < two63
  pub cooldown : pos 0 <ℤ r.circuit_breaker.cooldown

or_default_of_pos : (n : ℕ) (f : Duration) → or_default (pos (suc n)) f ≡ pos (suc n)
or_default_of_pos n f = ground arith

or_default_of_negsuc : (n : ℕ) (f : Duration) → or_default (negsuc n) f ≡ f
or_default_of_negsuc n f = ground arith

or_default_positive : (d fallback : Duration) → pos 0 <ℤ fallback → pos 0 <ℤ or_default d fallback
or_default_positive (pos zero) f h = h
or_default_positive (pos (suc n)) f h = rw (or_default_of_pos n f) (omega arith)
or_default_positive (negsuc n) f h = rw (or_default_of_negsuc n f) h

or_default_int64 :
    (d fallback : Duration)
    → pos_part d < two63
    → pos_part fallback < two63
    → pos_part (or_default d fallback) < two63
or_default_int64 (pos zero) f h k = k
or_default_int64 (pos (suc n)) f h k = rw (or_default_of_pos n f) h
or_default_int64 (negsuc n) f h k = rw (or_default_of_negsuc n f) k

-- The greater of the two delays.
raise_IsDelay :
    (first top : Duration)
    → pos 0 <ℤ first
    → pos_part first < two63
    → pos_part top < two63
    → (first ≤ℤ (if ltb_ℤ top first then first else top))
      × (pos_part (if ltb_ℤ top first then first else top) < two63)
raise_IsDelay (pos a) (pos b) h k l = elim (Bool-cases (ltb b a)) [
  | inl e ↦ ground (arith, e)
  | inr e ↦ ground (arith, e)
]
raise_IsDelay (pos a) (negsuc b) h k l = ground arith
raise_IsDelay (negsuc a) b h k l = absurd (omega arith)

pub new-IsSane :
    (c : Config)
    → IsInt64 c.interval
    → IsInt64 c.error_backoff_initial
    → IsInt64 c.error_backoff_max
    → IsSane (new c)
unfolding new new_error_backoff new_circuit_breaker
new-IsSane c i e m =
    let interval = or_default c.interval default_interval in
    let first = or_default c.error_backoff_initial interval in
    let top = or_default c.error_backoff_max default_error_backoff_max in
    let waits = or_default_positive c.interval default_interval (omega arith) in
    let first_waits = or_default_positive c.error_backoff_initial interval waits in
    let int64 = or_default_int64 c.interval default_interval i.0 (omega arith) in
    let first_int64 = or_default_int64 c.error_backoff_initial interval e.0 int64 in
    let top_int64 =
      or_default_int64 c.error_backoff_max default_error_backoff_max m.0 (omega arith) in
    let raised = raise_IsDelay first top first_waits first_int64 top_int64 in
    record {
      interval = waits;
      initial = (first_waits, raised.0);
      max = raised.1;
      cooldown =
          or_default_positive c.circuit_breaker_cooldown (new c).backoff.max
            (below_positive first (new c).backoff.max first_waits raised.0);
    }
  where
    below_positive : (a b : Duration) → pos 0 <ℤ a → a ≤ℤ b → pos 0 <ℤ b
    below_positive a b h k = omega arith

pub next_backoff-IsDelay :
    (b : ErrorBackoff) (d : Duration)
    → pos_part b.max < two63
    → IsDelay b d
    → IsDelay b (next_backoff d b.max)
next_backoff-IsDelay b d int64 h = grown b.max d int64 h
  where
    grown :
        (m x : Duration)
        → pos_part m < two63
        → (pos 0 <ℤ x) × (x ≤ℤ m)
        → (pos 0 <ℤ next_backoff x m) × (next_backoff x m ≤ℤ m)
    grown (pos m) (pos n) k h = rw (next_backoff-pos n m (omega (arith, h)) k) (ground (arith, h))
    grown (negsuc m) (pos n) k h = absurd (omega (arith, h))
    grown m (negsuc n) k h = absurd (omega (arith, h))

-- What the loop sleeps after an attempt: nothing after work, the interval after an idle attempt, and a
-- retry delay in its bounds or the cooldown after a failure.
pub data IsSleep (r : Runner) : Attempt → Option Duration → Type 0 where
  after_work : IsSleep r worked none
  after_idle : pos 0 <ℤ r.interval → IsSleep r idle (some r.interval)
  after_failure :
      (d : Duration)
      → pos 0 <ℤ d
      → (d ≤ℤ r.backoff.max) ⊎ (d ≡ r.circuit_breaker.cooldown)
      → IsSleep r failed (some d)

turn-IsSleep :
    (r : Runner) (a : Attempt) (s : State)
    → IsSane r
    → IsDelay r.backoff s.error_delay
    → IsDelay r.backoff (turn r a s).0.error_delay × IsSleep r a (turn r a s).1
unfolding turn
turn-IsSleep r worked s k h = (k.initial, after_work)
turn-IsSleep r idle s k h = (k.initial, after_idle k.interval)
turn-IsSleep r failed s k h =
    elim (Bool-cases (is_open r.circuit_breaker (add64 s.failures (pos 1)))) [
      | inl e ↦ rw e (k.initial, after_failure r.circuit_breaker.cooldown k.cooldown (inr refl))
      | inr e ↦ rw e (
        next_backoff-IsDelay r.backoff s.error_delay k.max h,
        after_failure s.error_delay h.0 (inl h.1),
      )
    ]

turns-IsDelay :
    (r : Runner) (attempts : List Attempt) (s : State)
    → IsSane r
    → IsDelay r.backoff s.error_delay
    → IsDelay r.backoff (turns r attempts s).0.error_delay
unfolding turns
turns-IsDelay r [] s k h = h
turns-IsDelay r (a ∷ rest) s k h = turns-IsDelay r rest (turn r a s).0 k (turn-IsSleep r a s k h).0

-- A loop with any configuration spins neither on failure nor on idleness: whatever the attempts before,
-- it sleeps for a positive time after each attempt that does no work, namely the interval when there was
-- none, and when the attempt failed a delay of at most the maximum or the cooldown. The durations of the
-- configuration are int64.
pub new-sleeps :
    (c : Config) (before : List Attempt) (a : Attempt)
    → IsInt64 c.interval
    → IsInt64 c.error_backoff_initial
    → IsInt64 c.error_backoff_max
    → IsSleep (new c) a (turn (new c) a (turns (new c) before (start (new c))).0).1
unfolding start
new-sleeps c before a i e m =
    let sane = new-IsSane c i e m in
    let delay = turns-IsDelay (new c) before (start (new c)) sane sane.initial in
    (turn-IsSleep (new c) a (turns (new c) before (start (new c))).0 sane delay).1
