-- ===== src/Publish/Change.antt =====
-- What the operations do to the table of steps: the ways in which one table follows another.
use imgsrv.Prelude.{ℕ, String, true, false, Option, List, ◌∷◌, ◌≡◌, ◌==◌, All, update_where}
use imgsrv.Publish.Domain.{Uuid, Time, StepState, is_step}
use imgsrv.Publish.Tables.{Step}
use imgsrv.Publish.Statements.{has_pending_before, claimed, finished}
use imgsrv.Publish.Retry.{to_requeue, requeued}

-- The states in which an operation leaves a step.
pub data IsEnd : StepState → Type 0 where
  as_succeeded : IsEnd StepState.succeeded
  as_failed : IsEnd StepState.failed

-- `ys` is `xs` after one statement on the steps.
pub data Change (xs ys : List Step) : Type 0 where
  claim :
      (s : Step) (worker : String) (now : Time)
      → is_step s.state StepState.succeeded ≡ false
      → has_pending_before xs s.job_id s.sequence ≡ false
      → All (λ o. (o.id == s.id) ≡ true → o ≡ s) xs
      → ys ≡ update_where (λ o. o.id == s.id) (claimed worker now) xs
      → Change xs ys
  end :
      (s : Step) (st : StepState) (message : Step → Option String) (now : Time)
      → IsEnd st
      → is_step s.state StepState.running ≡ true
      → All (λ o. (o.id == s.id) ≡ true → o ≡ s) xs
      → ys ≡ update_where (λ o. o.id == s.id) (λ o. finished st (message o) now o) xs
      → Change xs ys
  requeue :
      (job_id : Uuid) (sequence : ℕ) (now : Time)
      → ys ≡ update_where (to_requeue job_id sequence) (requeued now) xs
      → Change xs ys
  insert :
      (s : Step)
      → is_step s.state StepState.queued ≡ true
      → All (λ o. (o.id == s.id) ≡ false) xs
      → All (λ o. (o.job_id == s.job_id) ≡ true → is_step o.state StepState.queued ≡ true) xs
      → ys ≡ s ∷ xs
      → Change xs ys

infixr 5 ◌then◌
pub data Changes (xs : List Step) : List Step → Type 0 where
  done : Changes xs xs
  ◌then◌ : {ys zs : List Step} → Changes xs ys → Change ys zs → Changes xs zs
