-- ===== src/Publish/Exclusion.antt =====
-- The steps of one job in internal/store/postgres/publish/store.go: which of them run together.
use imgsrv.Prelude.{
  List, Bool, true, false, ◌&&◌, ◌≡◌, ◌==◌, ltb, All, All-map, All-zip, All-swap, everywhere,
  Bool-cases, inl, inr, any-false, arith,
}
use imgsrv.Publish.Domain.{StepState, is_step}
use imgsrv.Publish.Tables.{Step, Db}
use imgsrv.Publish.Statements.{blocks, has_pending_before}
use imgsrv.Publish.Order.{IsOrdered, IsOrderedIn}
use imgsrv.Publish.Moves.{Op, run}
use imgsrv.Publish.Next.{IsSound}
use imgsrv.Publish.Reach.{run-IsSound}

-- Two blocking steps of one job, both running.
abbrev pub rivals : Step → Step → Bool
rivals s t =
    (t.job_id == s.job_id)
    && s.blocking
    && t.blocking
    && is_step s.state StepState.running
    && is_step t.state StepState.running

not_before :
    (ss : List Step) (s : Step)
    → IsOrderedIn ss s
    → All (λ t. rivals s t ≡ true → ltb t.sequence s.sequence ≡ false) ss
unfolding has_pending_before
not_before ss s o = elim (Bool-cases (is_step s.state StepState.queued)) [
  | inl q ↦ everywhere _ (λ t r. absurd (ground (arith, q, r))) ss
  | inr n ↦
      All-map (λ t. (t.job_id == s.job_id && ltb t.sequence s.sequence && blocks t) ≡ false) _ ss
        (λ t e r. ground (arith, e, r)) (any-false _ ss (o n))
]

-- In an ordered table, two steps that run together for one job have one place in its sequence.
IsOrdered-rivals :
    (ss : List Step)
    → IsOrdered ss
    → All (λ s. All (λ t. rivals s t ≡ true → s.sequence ≡ t.sequence) ss) ss
IsOrdered-rivals ss o =
    let before = All-map (IsOrderedIn ss) _ ss (not_before ss) o in
    All-map
      (λ s.
        All (λ t. rivals s t ≡ true → ltb t.sequence s.sequence ≡ false) ss
        × All (λ t. rivals t s ≡ true → ltb s.sequence t.sequence ≡ false) ss)
      (λ s. All (λ t. rivals s t ≡ true → s.sequence ≡ t.sequence) ss) ss
      (λ s h.
        All-map
          (λ t.
            (rivals s t ≡ true → ltb t.sequence s.sequence ≡ false)
            × (rivals t s ≡ true → ltb s.sequence t.sequence ≡ false))
          _ ss (λ t k r. one_place s t k.0 k.1 r) (All-zip _ _ ss h.0 h.1))
      (All-zip _ _ ss before (All-swap _ ss ss before))
  where
    one_place :
        (s t : Step)
        → (rivals s t ≡ true → ltb t.sequence s.sequence ≡ false)
        → (rivals t s ≡ true → ltb s.sequence t.sequence ≡ false)
        → rivals s t ≡ true
        → s.sequence ≡ t.sequence
    one_place s t a b r =
        let back : rivals t s ≡ true = ground (arith, r) in
        let x = a r in let y = b back in ground (arith, x, y)

-- After any sequence of calls, two blocking steps of one job that both run stand at the same place of
-- the job's sequence.
pub run-rivals :
    (ops : List Op) (db : Db)
    → IsSound db
    → All
        (λ s. All (λ t. rivals s t ≡ true → s.sequence ≡ t.sequence) (run ops db).steps)
        (run ops db).steps
run-rivals ops db s = IsOrdered-rivals (run ops db).steps (run-IsSound ops db s).2
