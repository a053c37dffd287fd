-- ===== src/Prelude/Lists.antt =====
-- Lists as tables: predicates by recursion, first match, and updates of the rows that match.
use Prim.Native.Nat.{ℕ, suc}
use mathlib.Core.Path.{◌≡◌, refl, subst}
use mathlib.Core.Logic.{inl, inr}
use mathlib.Core.Bool.{Bool, true, false, ◌||◌}
use mathlib.Core.Option.{Option, none, some}
use mathlib.Core.List.{List, [], ◌∷◌, ◌++◌}
use native.Mathlib.Omega.{arith}
use imgsrv.Prelude.Tests.{if◌then◌else◌, Bool-cases, Option-cases}

module _ {ℓ} {A : Type ℓ} where
  abbrev pub length : List A → ℕ
  length [] = 0
  length (_ ∷ xs) = suc (length xs)

  abbrev pub All {κ} : (A → Type κ) → List A → Type κ
  All P [] = Unit
  All P (x ∷ xs) = P x × All P xs

  -- SQL's EXISTS, and `slices.ContainsFunc`.
  unfoldable pub any : (A → Bool) → List A → Bool
  any p [] = false
  any p (x ∷ xs) = p x || any p xs

  -- The first row that matches: a query of which at most one row is read.
  unfoldable pub find : (A → Bool) → List A → Option A
  find p [] = none
  find p (x ∷ xs) = if p x then some x else find p xs

  -- UPDATE ... SET f WHERE p.
  unfoldable pub update_where : (A → Bool) → (A → A) → List A → List A
  update_where p f [] = []
  update_where p f (x ∷ xs) = (if p x then f x else x) ∷ update_where p f xs

  -- How many rows an UPDATE reaches, its command tag.
  unfoldable pub count_where : (A → Bool) → List A → ℕ
  count_where p [] = 0
  count_where p (x ∷ xs) = if p x then suc (count_where p xs) else count_where p xs

  pub All-append {κ} : (P : A → Type κ) (xs ys : List A) → All P xs → All P ys → All P (xs ++ ys)
  All-append P [] ys hx hy = hy
  All-append P (x ∷ xs) ys hx hy = (hx.0, All-append P xs ys hx.1 hy)

  pub All-map {κ κ'} :
      (P : A → Type κ) (Q : A → Type κ') (xs : List A) → ((x : A) → P x → Q x) → All P xs → All Q xs
  All-map P Q [] f h = tt
  All-map P Q (x ∷ xs) f h = (f x h.0, All-map P Q xs f h.1)

  -- A row that is updated meets `Q` after, and another meets it as it stands.
  pub All-update_where {κ κ'} :
      (P : A → Type κ) (Q : A → Type κ') (p : A → Bool) (f : A → A) (xs : List A)
      → ((x : A) → P x → p x ≡ true → Q (f x))
      → ((x : A) → P x → p x ≡ false → Q x)
      → All P xs
      → All Q (update_where p f xs)
  unfolding update_where
  All-update_where P Q p f [] k l h = tt
  All-update_where P Q p f (x ∷ xs) k l h = (
    elim (Bool-cases (p x)) [ inl e ↦ rw e (k x h.0 e) | inr e ↦ rw e (l x h.0 e) ],
    All-update_where P Q p f xs k l h.1,
  )

  pub All-find {κ} :
      (P : A → Type κ) (p : A → Bool) (xs : List A) {x : A}
      → All P xs
      → find p xs ≡ some x
      → P x × (p x ≡ true)
  unfolding find
  All-find P p [] h e = absurd (cc)
  All-find P p (y ∷ ys) {x} h e = elim (Bool-cases (p y)) [
    | inl t ↦ let same : y ≡ x = ground (arith, t, e) in (subst P same h.0, rw (← same) t)
    | inr f ↦ All-find P p ys h.1 (rw f at e)
  ]

  -- A search that fails has met no match.
  pub find-none : (p : A → Bool) (xs : List A) → find p xs ≡ none → All (λ x. p x ≡ false) xs
  unfolding find
  find-none p [] e = tt
  find-none p (x ∷ xs) e = elim (Bool-cases (p x)) [
    | inl t ↦ absurd (ground (arith, t, e))
    | inr f ↦ (f, find-none p xs (rw f at e))
  ]

  pub find-none_of_All : (p : A → Bool) (xs : List A) → All (λ x. p x ≡ false) xs → find p xs ≡ none
  unfolding find
  find-none_of_All p [] h = refl
  find-none_of_All p (x ∷ xs) h = rw h.0 (find-none_of_All p xs h.1)

  pub any-false : (p : A → Bool) (xs : List A) → any p xs ≡ false → All (λ x. p x ≡ false) xs
  unfolding any
  any-false p [] e = tt
  any-false p (x ∷ xs) e = elim (Bool-cases (p x)) [
    | inl t ↦ absurd (ground (arith, t, e))
    | inr f ↦ (f, any-false p xs (rw f at e))
  ]

  pub any-false_of_All : (p : A → Bool) (xs : List A) → All (λ x. p x ≡ false) xs → any p xs ≡ false
  unfolding any
  any-false_of_All p [] h = refl
  any-false_of_All p (x ∷ xs) h = rw h.0 (any-false_of_All p xs h.1)

  pub everywhere {κ} : (P : A → Type κ) → ((x : A) → P x) → (xs : List A) → All P xs
  everywhere P f [] = tt
  everywhere P f (x ∷ xs) = (f x, everywhere P f xs)

  -- Two facts about every row, joined.
  pub All-zip {κ κ'} :
      (P : A → Type κ) (Q : A → Type κ') (xs : List A)
      → All P xs
      → All Q xs
      → All (λ x. P x × Q x) xs
  All-zip P Q [] h k = tt
  All-zip P Q (x ∷ xs) h k = ((h.0, k.0), All-zip P Q xs h.1 k.1)

  -- An update that keeps the key of each row moves the row that is found.
  pub find-update_where :
      (q p : A → Bool) (f : A → A) (xs : List A) {x : A}
      → ((y : A) → q (f y) ≡ q y)
      → find q xs ≡ some x
      → find q (update_where p f xs) ≡ some (if p x then f x else x)
  unfolding find update_where
  find-update_where q p f [] same h = absurd (cc)
  find-update_where q p f (y ∷ ys) {x} same h = elim (Bool-cases (q y)) [
    | inl t ↦
        let at_x : y ≡ x = ground (arith, t, h) in
        elim (Bool-cases (p y)) [
          | inl e ↦ rw (e, same, t, ← at_x, e) refl
          | inr e ↦ rw (e, t, ← at_x, e) refl
        ]
    | inr n ↦
        let rest = find-update_where q p f ys same (rw n at h) in
        elim (Bool-cases (p y)) [ inl e ↦ rw (e, same, n) rest | inr e ↦ rw (e, n) rest ]
  ]

  -- ORDER BY ... LIMIT 1: of the rows that match, the first in the order.
  unfoldable pub least_where : (A → A → Bool) → (A → Bool) → List A → Option A
  least_where before p [] = none
  least_where before p (x ∷ xs) =
      let best = least_where before p xs in
      if p x then some (elim best [ none ↦ x | some y ↦ if before y x then y else x ]) else best

  -- An update that keeps the answer of a test keeps what the test finds.
  pub any-update_where :
      (q p : A → Bool) (f : A → A) (xs : List A)
      → ((x : A) → q (f x) ≡ q x)
      → any q (update_where p f xs) ≡ any q xs
  unfolding any update_where
  any-update_where q p f [] same = refl
  any-update_where q p f (x ∷ xs) same = elim (Bool-cases (p x)) [
    | inl e ↦ rw (e, same, any-update_where q p f xs same) refl
    | inr e ↦ rw (e, any-update_where q p f xs same) refl
  ]

  -- The row that is picked matches, and what holds of all rows holds of it.
  pub All-least_where {κ} :
      (P : A → Type κ) (before : A → A → Bool) (p : A → Bool) (xs : List A) {x : A}
      → All P xs
      → least_where before p xs ≡ some x
      → P x × (p x ≡ true)
  unfolding least_where
  All-least_where P before p [] h e = absurd (cc)
  All-least_where P before p (y ∷ ys) {x} h e = elim (Bool-cases (p y)) [
    | inr n ↦ All-least_where P before p ys h.1 (rw n at e)
    | inl t ↦ elim (Option-cases (least_where before p ys)) [
      | inl none_behind ↦
          let same : y ≡ x = ground (arith, t, none_behind, e) in
          (subst P same h.0, subst (λ z. p z ≡ true) same t)
      | inr (z, found) ↦ elim (Bool-cases (before z y)) [
        | inl sooner ↦
            let same : z ≡ x = ground (arith, t, found, sooner, e) in
            let (at_z, fit) = All-least_where P before p ys h.1 found in
            (subst P same at_z, subst (λ w. p w ≡ true) same fit)
        | inr later ↦
            let same : y ≡ x = ground (arith, t, found, later, e) in
            (subst P same h.0, subst (λ w. p w ≡ true) same t)
      ]
    ]
  ]

  -- A row that matches is there to be picked.
  pub least_where-some :
      (before : A → A → Bool) (p : A → Bool) (xs : List A)
      → any p xs ≡ true
      → (x : A) × (least_where before p xs ≡ some x)
  unfolding least_where any
  least_where-some before p [] h = absurd (ground (arith, h))
  least_where-some before p (y ∷ ys) h = elim (Bool-cases (p y)) [
    | inr n ↦ let (x, e) = least_where-some before p ys (ground (arith, n, h)) in (x, rw n e)
    | inl t ↦ (
      elim (least_where before p ys) [ none ↦ y | some z ↦ if before z y then z else y ],
      rw t refl,
    )
  ]

  pub any-map :
      (p q : A → Bool) (xs : List A)
      → ((x : A) → p x ≡ true → q x ≡ true)
      → any p xs ≡ true
      → any q xs ≡ true
  unfolding any
  any-map p q [] f h = h
  any-map p q (x ∷ xs) f h = elim (Bool-cases (p x)) [
    | inl e ↦ rw (f x e) refl
    | inr e ↦ let rest = any-map p q xs f (ground (arith, e, h)) in ground (arith, rest)
  ]

  pub find-any : (p : A → Bool) (xs : List A) {x : A} → find p xs ≡ some x → any p xs ≡ true
  unfolding find any
  find-any p [] h = absurd (cc)
  find-any p (x ∷ xs) h = elim (Bool-cases (p x)) [
    | inl e ↦ rw e refl
    | inr e ↦ rw e (find-any p xs (rw e at h))
  ]

  -- An update that reaches no row.
  pub update_where-none :
      (p : A → Bool) (f : A → A) (xs : List A) → find p xs ≡ none → update_where p f xs ≡ xs
  unfolding find update_where
  update_where-none p f [] e = refl
  update_where-none p f (x ∷ xs) e = elim (Bool-cases (p x)) [
    | inl t ↦ absurd (ground (arith, t, e))
    | inr n ↦ rw (n, update_where-none p f xs (rw n at e)) refl
  ]

  -- A test that every match of another passes.
  pub any-All :
      (p q : A → Bool) (xs : List A)
      → All (λ x. p x ≡ true → q x ≡ true) xs
      → any p xs ≡ true
      → any q xs ≡ true
  unfolding any
  any-All p q [] f h = h
  any-All p q (x ∷ xs) f h = elim (Bool-cases (p x)) [
    | inl e ↦ rw (f.0 e) refl
    | inr e ↦ let rest = any-All p q xs f.1 (ground (arith, e, h)) in ground (arith, rest)
  ]

  pub any-find : (p : A → Bool) (xs : List A) → any p xs ≡ true → (x : A) × (find p xs ≡ some x)
  unfolding find any
  any-find p [] h = absurd (ground (arith, h))
  any-find p (x ∷ xs) h = elim (Bool-cases (p x)) [
    | inl e ↦ (x, rw e refl)
    | inr e ↦ let (y, f) = any-find p xs (ground (arith, e, h)) in (y, rw e f)
  ]

  pub count_where-none :
      (p : A → Bool) (xs : List A) → All (λ x. p x ≡ false) xs → count_where p xs ≡ 0
  unfolding count_where
  count_where-none p [] h = refl
  count_where-none p (x ∷ xs) h = rw h.0 (count_where-none p xs h.1)

-- A fact about every pair of rows, read the other way round.
pub All-swap {ℓ ℓ' κ} :
    {A : Type ℓ} {B : Type ℓ'} (R : A → B → Type κ) (xs : List A) (ys : List B)
    → All (λ x. All (R x) ys) xs
    → All (λ y. All (λ x. R x y) xs) ys
All-swap R [] ys h = everywhere _ (λ _. tt) ys
All-swap R (x ∷ xs) ys h = All-zip (R x) (λ y. All (λ z. R z y) xs) ys h.0 (All-swap R xs ys h.1)
