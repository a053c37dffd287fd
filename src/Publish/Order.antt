-- ===== src/Publish/Order.antt =====
-- The steps of a job are taken in order: a step that has left the queue has no earlier blocking
-- step that has not succeeded.
use imgsrv.Prelude.{
  ℕ, String, Option, everywhere, Bool, true, false, ◌&&◌, inl, inr, List, ◌∷◌, ◌≡◌, refl, sym,
  subst, ◌==◌, ltb, All, All-map, All-zip, All-update_where, any, any-false, any-false_of_All,
  update_where, Bool-cases, arith,
}
use imgsrv.Publish.Domain.{Uuid, StepState, is_step}
use imgsrv.Publish.Tables.{Step}
use imgsrv.Publish.Statements.{blocks, has_pending_before, claimed, finished}
use imgsrv.Publish.Retry.{to_requeue, requeued}
use imgsrv.Publish.Change.{Change, claim, end, requeue, insert, IsEnd, as_succeeded, as_failed}

abbrev pub IsOrderedIn : List Step → Step → Type 0
IsOrderedIn ss s =
    is_step s.state StepState.queued ≡ false → has_pending_before ss s.job_id s.sequence ≡ false

abbrev pub IsOrdered : List Step → Type 0
IsOrdered ss = All (IsOrderedIn ss) ss

abbrev pends : Uuid → ℕ → Step → Bool
pends job_id sequence p = p.job_id == job_id && ltb p.sequence sequence && blocks p

-- An update that keeps the place of a step, and makes none block that did not.
abbrev Calms : (Step → Step) → Step → Type 0
Calms f s =
    ((f s).job_id ≡ s.job_id)
    × ((f s).sequence ≡ s.sequence)
    × (blocks s ≡ false → blocks (f s) ≡ false)

weaken_last :
    (a b c d : Bool) → (c ≡ false → d ≡ false) → (a && b && c) ≡ false → (a && b && d) ≡ false
weaken_last true true c d k h = k h
weaken_last true false c d k h = refl
weaken_last false b c d k h = refl

Calms-pends :
    (f : Step → Step) (s : Step) (j : Uuid) (n : ℕ)
    → Calms f s
    → pends j n s ≡ false
    → pends j n (f s) ≡ false
Calms-pends f s j n (ej, en, b) h =
    rw (ej, en) (weaken_last (s.job_id == j) (ltb s.sequence n) (blocks s) (blocks (f s)) b h)

has_pending_before-update_where :
    (p : Step → Bool) (f : Step → Step) (ss : List Step) (j : Uuid) (n : ℕ)
    → All (λ s. p s ≡ true → Calms f s) ss
    → has_pending_before ss j n ≡ false
    → has_pending_before (update_where p f ss) j n ≡ false
unfolding has_pending_before
has_pending_before-update_where p f ss j n calm h =
    any-false_of_All (pends j n) (update_where p f ss) (
      All-update_where (λ s. (p s ≡ true → Calms f s) × (pends j n s ≡ false))
        (λ s. pends j n s ≡ false) p f ss (λ s k e. Calms-pends f s j n (k.0 e) k.1) (λ s k _. k.1)
        (All-zip (λ s. p s ≡ true → Calms f s) (λ s. pends j n s ≡ false) ss calm
          (any-false (pends j n) ss h)))

-- The update of an ordered table is ordered, if each row that it takes out of the queue, or leaves
-- out of it, was in order.
update_where-IsOrdered :
    (p : Step → Bool) (f : Step → Step) (ss : List Step)
    → All (λ s. p s ≡ true → Calms f s) ss
    → All (λ s. p s ≡ true → IsOrderedIn ss (f s)) ss
    → IsOrdered ss
    → IsOrdered (update_where p f ss)
update_where-IsOrdered p f ss calm moved o =
    All-update_where (λ s. (p s ≡ true → IsOrderedIn ss (f s)) × IsOrderedIn ss s)
      (IsOrderedIn (update_where p f ss)) p f ss
      (λ s k e q. has_pending_before-update_where p f ss _ _ calm (k.0 e q))
      (λ s k _ q. has_pending_before-update_where p f ss _ _ calm (k.1 q))
      (All-zip (λ s. p s ≡ true → IsOrderedIn ss (f s)) (IsOrderedIn ss) ss moved o)

-- A new row in the queue, of a job of which no step has left it.
abbrev IsIdle : Uuid → Step → Type 0
IsIdle job_id o = (o.job_id == job_id) ≡ true → is_step o.state StepState.queued ≡ true

other_job : (a b : ℕ) (c d : Bool) → ((b == a) ≡ true → ⊥) → ((a == b) && c && d) ≡ false
other_job a b c d h = elim (Bool-cases (b == a)) [
  | inl e ↦ absurd (h e)
  | inr e ↦ ground (arith, e)
]

insert-IsOrderedIn :
    (s x : Step) (ss : List Step) → IsIdle s.job_id x × IsOrderedIn ss x → IsOrderedIn (s ∷ ss) x
unfolding has_pending_before any
insert-IsOrderedIn s x ss (idle, o) out =
    let apart : pends x.job_id x.sequence s ≡ false =
      other_job s.job_id x.job_id (ltb s.sequence x.sequence) (blocks s) (λ t. cc (idle t, out)) in
    rw apart (o out)

insert-IsOrdered :
    (s : Step) (ss : List Step)
    → is_step s.state StepState.queued ≡ true
    → All (IsIdle s.job_id) ss
    → IsOrdered ss
    → IsOrdered (s ∷ ss)
insert-IsOrdered s ss q idle o = (
  λ out. absurd (ground (arith, q, out)),
  All-map (λ x. IsIdle s.job_id x × IsOrderedIn ss x) (IsOrderedIn (s ∷ ss)) ss
      (λ x h. insert-IsOrderedIn s x ss h) (All-zip (IsIdle s.job_id) (IsOrderedIn ss) ss idle o),
)

claimed-Calms :
    (w : String) (now : ℕ) (s : Step)
    → is_step s.state StepState.succeeded ≡ false
    → Calms (claimed w now) s
claimed-Calms w now s live = (refl, refl, λ b. ground arith)

finished-Calms :
    {st : StepState} (m : Step → Option String) (now : ℕ) (s : Step)
    → IsEnd st
    → is_step s.state StepState.running ≡ true
    → Calms (λ x. finished st (m x) now x) s
finished-Calms m now s as_succeeded run = (refl, refl, λ b. ground arith)
finished-Calms m now s as_failed run = (refl, refl, λ b. ground arith)

requeued-Calms : (j n now : ℕ) (s : Step) → to_requeue j n s ≡ true → Calms (requeued now) s
requeued-Calms j n now s t = (refl, refl, λ b. ground arith)

-- A running step has left the queue, so it is in order.
running-IsOrderedIn :
    (xs : List Step) (x : Step)
    → is_step x.state StepState.running ≡ true
    → IsOrderedIn xs x
    → has_pending_before xs x.job_id x.sequence ≡ false
running-IsOrderedIn xs x run o = o (ground (arith, run))

-- Each change of the table keeps the order.
pub Change-IsOrdered : {xs ys : List Step} → Change xs ys → IsOrdered xs → IsOrdered ys
Change-IsOrdered {xs} (claim s w now live calm only e) o = subst IsOrdered (sym e) (
    update_where-IsOrdered (λ x. x.id == s.id) (claimed w now) xs
      (All-map (λ x. (x.id == s.id) ≡ true → x ≡ s) _ xs
        (λ x same t. subst (Calms (claimed w now)) (sym (same t)) (claimed-Calms w now s live))
        only)
      (All-map (λ x. (x.id == s.id) ≡ true → x ≡ s) _ xs
        (λ x same t q.
          subst (λ z. has_pending_before xs z.job_id z.sequence ≡ false) (sym (same t)) calm)
        only)
      o)
Change-IsOrdered {xs} (end s st m now ended run only e) o = subst IsOrdered (sym e) (
    update_where-IsOrdered (λ x. x.id == s.id) (λ x. finished st (m x) now x) xs
      (All-map (λ x. (x.id == s.id) ≡ true → x ≡ s) _ xs
        (λ x same t.
          subst (Calms (λ z. finished st (m z) now z)) (sym (same t))
            (finished-Calms m now s ended run))
        only)
      (All-map (λ x. ((x.id == s.id) ≡ true → x ≡ s) × IsOrderedIn xs x) _ xs
        (λ x h t q.
          running-IsOrderedIn xs x
            (subst (λ z. is_step z.state StepState.running ≡ true) (sym (h.0 t)) run) h.1)
        (All-zip (λ x. (x.id == s.id) ≡ true → x ≡ s) (IsOrderedIn xs) xs only o))
      o)
Change-IsOrdered {xs} (requeue j n now e) o = subst IsOrdered (sym e) (
    update_where-IsOrdered (to_requeue j n) (requeued now) xs
      (everywhere _ (λ x t. requeued-Calms j n now x t) xs) (everywhere _ (λ x t q. absurd (cc)) xs)
      o)
Change-IsOrdered {xs} (insert s q fresh idle e) o =
    subst IsOrdered (sym e) (insert-IsOrdered s xs q idle o)
