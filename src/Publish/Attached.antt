-- ===== src/Publish/Attached.antt =====
-- The foreign key from steps to jobs, and the choice of the step to claim.
use imgsrv.Prelude.{
  List, [], ◌∷◌, Bool, true, false, Option, none, some, ◌≡◌, refl, subst, ◌==◌, ==_iff, inl, inr,
  any, All, All-map, update_where, arith, Bool-cases,
}
use imgsrv.Publish.Domain.{Uuid}
use imgsrv.Publish.Tables.{Job, Step}
use imgsrv.Publish.Statements.{first_of_order, earlier, comes_before}

abbrev pub has_job : List Job → Uuid → Bool
has_job js id = any (λ j. j.id == id) js

abbrev pub IsAttachedTo : List Job → List Step → Type 0
IsAttachedTo js ss = All (λ s. has_job js s.job_id ≡ true) ss

-- The steps of a job whose identity no row of jobs has.
pub no_steps_of :
    (id : Uuid) (js : List Job) (ss : List Step)
    → has_job js id ≡ false
    → IsAttachedTo js ss
    → All (λ s. (s.job_id == id) ≡ false) ss
no_steps_of id js ss none_has =
    All-map (λ s. has_job js s.job_id ≡ true) (λ s. (s.job_id == id) ≡ false) ss (λ s h. apart s h)
  where
    apart : (s : Step) → has_job js s.job_id ≡ true → (s.job_id == id) ≡ false
    apart s h = elim (Bool-cases (s.job_id == id)) [
      | inl e ↦
          let same : s.job_id ≡ id = (==_iff s.job_id id).0 e in
          absurd (cc (subst (λ n. has_job js n ≡ true) same h, none_has))
      | inr e ↦ e
    ]

pub has_job-update_where :
    (p : Job → Bool) (f : Job → Job) (js : List Job) (n : Uuid)
    → ((j : Job) → (f j).id ≡ j.id)
    → has_job (update_where p f js) n ≡ has_job js n
unfolding update_where any
has_job-update_where p f [] n same = refl
has_job-update_where p f (j ∷ js) n same = elim (Bool-cases (p j)) [
  | inl e ↦ rw (e, same, has_job-update_where p f js n same)
  | inr e ↦ rw (e, has_job-update_where p f js n same)
]

-- No row passes the test, if no row is picked; and the other way round.
pub first_of_order-none :
    (p : Step → Bool) (ss : List Step) → first_of_order p ss ≡ none → All (λ s. p s ≡ false) ss
unfolding first_of_order
first_of_order-none p [] e = tt
first_of_order-none p (x ∷ xs) e = elim (Bool-cases (p x)) [
  | inl t ↦ absurd (cc (rw t at e))
  | inr n ↦ (n, first_of_order-none p xs (rw n at e))
]

pub first_of_order-none_of_All :
    (p : Step → Bool) (ss : List Step) → All (λ s. p s ≡ false) ss → first_of_order p ss ≡ none
unfolding first_of_order
first_of_order-none_of_All p [] h = refl
first_of_order-none_of_All p (x ∷ xs) h = rw h.0 (first_of_order-none_of_All p xs h.1)

some_injective : (a b : Step) → some a ≡ some b → a ≡ b
some_injective a b h = ground (arith, h)

-- `All P` for the row that ORDER BY ... LIMIT 1 picks.
pub All-first_of_order :
    (P : Step → Type 0) (p : Step → Bool) (ss : List Step) {s : Step}
    → All P ss
    → first_of_order p ss ≡ some s
    → P s × (p s ≡ true)
unfolding first_of_order
All-first_of_order P p [] h e = absurd (cc)
All-first_of_order P p (x ∷ xs) {s} h e = elim (Bool-cases (p x)) [
  | inr n ↦ All-first_of_order P p xs h.1 (rw n at e)
  | inl t ↦ pick t (first_of_order p xs) (λ y f. All-first_of_order P p xs h.1 f) (rw t at e)
]
  where
    pick :
        p x ≡ true
        → (best : Option Step) → ((y : Step) → best ≡ some y → P y × (p y ≡ true))
        → some (earlier x best) ≡ some s
        → P s × (p s ≡ true)
    pick t none k same = subst (λ z. P z × (p z ≡ true)) (some_injective _ _ same) (h.0, t)
    pick t (some y) k same = elim (Bool-cases (comes_before y x)) [
      | inl b ↦ subst (λ z. P z × (p z ≡ true)) (some_injective _ _ (rw b at same)) (k y refl)
      | inr b ↦ subst (λ z. P z × (p z ≡ true)) (some_injective _ _ (rw b at same)) (h.0, t)
    ]

comes_before-asymm : (s t : Step) → comes_before s t ≡ true → comes_before t s ≡ false
unfolding comes_before
comes_before-asymm s t h = ground arith

comes_before_irrefl : (s : Step) → comes_before s s ≡ false
unfolding comes_before
comes_before_irrefl s = ground arith

not_before_trans :
    (s t u : Step) → comes_before s t ≡ false → comes_before t u ≡ false → comes_before s u ≡ false
unfolding comes_before
not_before_trans s t u h k = ground arith

-- No row that passes the test comes before the row that ORDER BY ... LIMIT 1 picks.
abbrev pub IsFirst : (Step → Bool) → List Step → Step → Type 0
IsFirst p ss s = All (λ o. p o ≡ true → comes_before o s ≡ false) ss

pub first_of_order-IsFirst :
    (p : Step → Bool) (ss : List Step) {s : Step} → first_of_order p ss ≡ some s → IsFirst p ss s
unfolding first_of_order
first_of_order-IsFirst p [] e = tt
first_of_order-IsFirst p (x ∷ xs) {s} e = elim (Bool-cases (p x)) [
  | inr n ↦ ((λ t. absurd (cc (n, t))), first_of_order-IsFirst p xs (rw n at e))
  | inl t ↦ pick t (first_of_order p xs) refl (λ y f. first_of_order-IsFirst p xs f) (rw t at e)
]
  where
    pick :
        p x ≡ true
        → (best : Option Step) → first_of_order p xs ≡ best
        → ((y : Step) → best ≡ some y → IsFirst p xs y)
        → some (earlier x best) ≡ some s
        → IsFirst p (x ∷ xs) s
    pick t none b k same = subst (IsFirst p (x ∷ xs)) (some_injective _ _ same) (
      (λ _. comes_before_irrefl x),
      All-map _ _ xs (λ o n y. absurd (cc (n, y))) (first_of_order-none p xs b),
    )
    pick t (some y) b k same = elim (Bool-cases (comes_before y x)) [
      | inl c ↦
          subst (IsFirst p (x ∷ xs)) (some_injective _ _ (rw c at same))
            ((λ _. comes_before-asymm y x c), k y refl)
      | inr c ↦ subst (IsFirst p (x ∷ xs)) (some_injective _ _ (rw c at same)) (
        (λ _. comes_before_irrefl x),
        All-map (λ o. p o ≡ true → comes_before o y ≡ false) _ xs
            (λ o h q. not_before_trans o y x (h q) c) (k y refl),
      )
    ]
