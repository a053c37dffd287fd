-- ===== src/Prelude/Order.antt =====
-- ORDER BY ... LIMIT 1: no row that matches comes before the one that is picked.
use mathlib.Core.Path.{◌≡◌, refl, subst}
use mathlib.Core.Logic.{inl, inr}
use mathlib.Core.Bool.{Bool, true, false}
use mathlib.Core.Option.{none, some}
use mathlib.Core.List.{List, [], ◌∷◌}
use native.Mathlib.Omega.{arith}
use imgsrv.Prelude.Tests.{Bool-cases, Option-cases}
use imgsrv.Prelude.Lists.{All, All-map, least_where}

-- `R x y` says that `y` does not come before `x`.
module _ {A : Type 0} (before : A → A → Bool) (R : A → A → Type 0) (R-refl : (x : A) → R x x)
    (R-trans : (x y z : A) → R x y → R y z → R x z) (sooner : (x y : A) → before x y ≡ true → R x y)
    (later : (x y : A) → before x y ≡ false → R y x) (p : A → Bool) where
  least_where-none : (xs : List A) → least_where before p xs ≡ none → All (λ x. p x ≡ false) xs
  unfolding least_where
  least_where-none [] e = tt
  least_where-none (x ∷ xs) e = elim (Bool-cases (p x)) [
    | inl t ↦ absurd (ground (arith, t, e))
    | inr n ↦ (n, least_where-none xs (rw n at e))
  ]

  pub least_where-first :
      (xs : List A) {x : A} → least_where before p xs ≡ some x → All (λ y. p y ≡ true → R x y) xs
  unfolding least_where
  least_where-first [] e = tt
  least_where-first (y ∷ ys) {x} e = elim (Bool-cases (p y)) [
    | inr n ↦ ((λ t. absurd (cc (n, t))), least_where-first ys (rw n at e))
    | inl t ↦ elim (Option-cases (least_where before p ys)) [
      | inl nothing ↦
          let same : y ≡ x = ground (arith, t, nothing, e) in
          subst (λ z. All (λ o. p o ≡ true → R z o) (y ∷ ys)) same
            (
              (λ _. R-refl y),
              All-map _ _ ys (λ o n q. absurd (cc (n, q))) (least_where-none ys nothing),
            )
      | inr (z, found) ↦ elim (Bool-cases (before z y)) [
        | inl b ↦
            let same : z ≡ x = ground (arith, t, found, b, e) in
            subst (λ v. All (λ o. p o ≡ true → R v o) (y ∷ ys)) same
              ((λ _. sooner z y b), least_where-first ys found)
        | inr b ↦
            let same : y ≡ x = ground (arith, t, found, b, e) in
            subst (λ v. All (λ o. p o ≡ true → R v o) (y ∷ ys)) same
              (
                (λ _. R-refl y),
                All-map (λ o. p o ≡ true → R z o) _ ys (λ o h q. R-trans y z o (later z y b) (h q))
                    (least_where-first ys found),
              )
      ]
    ]
  ]

pub least_where-none_of_All :
    {A : Type 0} (before : A → A → Bool) (p : A → Bool) (xs : List A)
    → All (λ x. p x ≡ false) xs
    → least_where before p xs ≡ none
unfolding least_where
least_where-none_of_All before p [] h = refl
least_where-none_of_All before p (x ∷ xs) h = rw h.0 (least_where-none_of_All before p xs h.1)
