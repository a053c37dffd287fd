-- ===== src/Runner/Breaker.antt =====
-- The circuit breaker of internal/jobs/runner.go, and the delays before it opens.
use imgsrv.Prelude.{
  ℕ, zero, suc, ◌+◌, ◌*◌, ◌^◌, ◌≤◌, ◌<◌, true, false, Option, some, List, [], ◌∷◌, ◌≡◌, refl, sym,
  subst, pos, add64, ltb, leb, ◌==◌, if◌then◌else◌, Bool-cases, inl, inr, ◌&&◌, two63, arith,
}
use imgsrv.Runner.Loop.{Duration, Runner, State, Attempt, failed, is_open, start, turn, turns}
use imgsrv.Runner.Backoff.{min, next_backoff-pos}

-- Failures without end.
abbrev pub failures : ℕ → List Attempt
failures zero = []
failures (suc n) = failed ∷ failures n

-- The delay after k doublings.
abbrev pub doubled : ℕ → ℕ → ℕ → ℕ
doubled i m k = min (i * 2 ^ k) m

doubled-suc : (i m k : ℕ) → min (doubled i m k * 2) m ≡ doubled i m (suc k)
doubled-suc i m k = let twice : i * 2 ^ suc k ≡ i * 2 ^ k * 2 = grind arith in ground (arith, twice)

-- A runner with an initial delay i of at most the maximum m, whose breaker opens after n failures.
abbrev pub Opens : Runner → ℕ → ℕ → ℕ → Type 0
Opens r i m n =
    (r.backoff.initial ≡ pos i)
    × (r.backoff.max ≡ pos m)
    × (r.circuit_breaker.failures ≡ pos n)
    × (i ≤ m)
    × (m < two63)
    × (n < two63)

abbrev pub at : ℕ → ℕ → ℕ → State
at i m k = record { failures = pos k; error_delay = pos (doubled i m k) }

count_up : (k : ℕ) → k < two63 → suc k < two63 → add64 (pos k) (pos 1) ≡ pos (suc k)
count_up k h l = ground arith

-- A failure before the last that the breaker allows, and the last.
turn-failed :
    (r : Runner) (i m n k : ℕ)
    → Opens r i m n
    → suc k < n
    → turn r failed (at i m k) ≡ (at i m (suc k), some (pos (doubled i m k)))
unfolding turn is_open
turn-failed r i m n k (ei, em, en, h, bm, bn) less =
    let shut : (ltb 0 (n + 0) && leb (n + 0) (suc k + 0)) ≡ false = ground arith in
    rw
      (
        count_up k (omega arith) (omega arith),
        en,
        em,
        shut,
        next_backoff-pos (doubled i m k) m (ground arith) bm,
        doubled-suc i m k,
      )
      refl

turn-opened :
    (r : Runner) (i m n k : ℕ)
    → Opens r i m n
    → suc k ≡ n
    → turn r failed (at i m k) ≡ (start r, some r.circuit_breaker.cooldown)
unfolding turn is_open start
turn-opened r i m n k (ei, em, en, h, bm, bn) last =
    let shut : (ltb 0 (n + 0) && leb (n + 0) (suc k + 0)) ≡ true = ground arith in
    rw (count_up k (omega arith) (omega arith), en, shut) refl

turns-failures :
    (r : Runner) (i m n a k : ℕ)
    → Opens r i m n
    → a + k < n
    → (turns r (failures k) (at i m a)).0 ≡ at i m (a + k)
unfolding turns
turns-failures r i m n a zero o h = let e : a + 0 ≡ a = omega arith in rw e refl
turns-failures r i m n a (suc k) o h =
    let e : a + suc k ≡ suc a + k = omega arith in
    subst (λ (z : State × Option Duration). (turns r (failures k) z.0).0 ≡ at i m (a + suc k))
      (sym (turn-failed r i m n a o (omega arith)))
      (rw e (turns-failures r i m n (suc a) k o (omega arith)))

start-at : (r : Runner) (i m n : ℕ) → Opens r i m n → start r ≡ at i m 0
unfolding start
start-at r i m n (ei, em, en, h, bm, bn) =
    let first : doubled i m 0 ≡ i = ground arith in rw (ei, first) refl

-- With a breaker that opens after n failures, the loop sleeps the lesser of i * 2 ^ k and m after the
-- failure that follows k others, if k + 1 < n; after the n-th failure in a row it sleeps the cooldown,
-- and starts over. The initial delay i does not exceed the maximum m, and the numbers are int64.
pub turns-breaker :
    (r : Runner) (i m n k : ℕ)
    → Opens r i m n
    → k < n
    → turn r failed (turns r (failures k) (start r)).0 ≡ (
        if suc k == n
        then (start r, some r.circuit_breaker.cooldown)
        else (at i m (suc k), some (pos (min (i * 2 ^ k) m))))
turns-breaker r i m n k o h =
    let none_before : 0 + k ≡ k = omega arith in
    let at_k : (turns r (failures k) (start r)).0 ≡ at i m k =
      rw (start-at r i m n o) (rw none_before at (turns-failures r i m n 0 k o (omega arith))) in
    elim (Bool-cases (suc k == n)) [
      | inl e ↦ rw (at_k, e) (turn-opened r i m n k o (ground (arith, e)))
      | inr e ↦ rw (at_k, e) (turn-failed r i m n k o (ground (arith, e)))
    ]
