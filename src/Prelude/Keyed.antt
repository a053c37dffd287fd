-- ===== src/Prelude/Keyed.antt =====
-- Tables with a column of distinct numbers.
use Prim.Native.Nat.{ℕ, suc}
use mathlib.Core.Path.{◌≡◌, ap, refl}
use mathlib.Core.Logic.{inl, inr}
use mathlib.Core.Bool.{Bool, true, false}
use mathlib.Core.Option.{some}
use mathlib.Core.List.{List, [], ◌∷◌}
use native.Mathlib.Omega.{arith}
use imgsrv.Prelude.Tests.{◌==◌, ==_refl, Bool-cases}
use imgsrv.Prelude.Lists.{
  All, All-map, All-zip, All-update_where, All-find, any, update_where, find, count_where,
}

module _ {A : Type 0} (key : A → ℕ) where
  -- No two rows have one key.
  abbrev pub IsDistinct : List A → Type 0
  IsDistinct [] = Unit
  IsDistinct (x ∷ xs) = All (λ o. (key o == key x) ≡ false) xs × IsDistinct xs

  -- The rows with the key of `x` are `x`.
  abbrev pub IsSole : List A → A → Type 0
  IsSole xs x = All (λ o. (key o == key x) ≡ true → o ≡ x) xs

  pub IsDistinct-update_where :
      (p : A → Bool) (f : A → A) (xs : List A)
      → ((x : A) → key (f x) ≡ key x)
      → IsDistinct xs
      → IsDistinct (update_where p f xs)
  unfolding update_where
  IsDistinct-update_where p f [] same d = tt
  IsDistinct-update_where p f (x ∷ xs) same (fresh, d) =
      let apart =
        All-update_where (λ o. (key o == key x) ≡ false) (λ o. (key o == key x) ≡ false) p f xs
          (λ o h _. rw same h) (λ o h _. h) fresh in
      (
        elim (Bool-cases (p x)) [ inl e ↦ rw (e, same) apart | inr e ↦ rw e apart ],
        IsDistinct-update_where p f xs same d,
      )

  pub IsDistinct-IsSole : (xs : List A) → IsDistinct xs → All (IsSole xs) xs
  IsDistinct-IsSole [] d = tt
  IsDistinct-IsSole (x ∷ xs) (fresh, d) = (
    (λ _. refl, All-map (λ o. (key o == key x) ≡ false) _ xs (λ o e t. absurd (cc (e, t))) fresh),
    behind xs (IsDistinct-IsSole xs d) fresh,
  )
    where
      other : (a b : ℕ) → (a == b) ≡ false → (b == a) ≡ true → ⊥
      other a b e t = ground (arith, e, t)

      behind :
          (ys : List A)
          → All (IsSole xs) ys
          → All (λ o. (key o == key x) ≡ false) ys
          → All (IsSole (x ∷ xs)) ys
      behind [] h f = tt
      behind (y ∷ ys) h f = (((λ t. absurd (other (key y) (key x) f.0 t)), h.0), behind ys h.1 f.1)

  pub find-IsSole :
      (p : A → Bool) (xs : List A) {x : A} → IsDistinct xs → find p xs ≡ some x → IsSole xs x
  find-IsSole p xs d e = (All-find (IsSole xs) p xs (IsDistinct-IsSole xs d) e).0

-- A row that an update reaches can be found.
pub count_where-find :
    {A : Type 0} (p : A → Bool) (xs : List A)
    → count_where p xs ≡ 1
    → (x : A) × (find p xs ≡ some x)
unfolding count_where find
count_where-find p [] h = absurd (ground (arith, h))
count_where-find p (x ∷ xs) h = elim (Bool-cases (p x)) [
  | inl e ↦ (x, rw e refl)
  | inr e ↦ let (y, f) = count_where-find p xs (rw e at h) in (y, rw e f)
]

module _ {A : Type 0} (key : A → ℕ) where
  -- A row that is found is found by its key.
  pub find-by_key :
      (q : A → Bool) (xs : List A) {x : A}
      → IsSole key xs x
      → find q xs ≡ some x
      → find (λ o. key o == key x) xs ≡ some x
  unfolding find
  find-by_key q [] s h = absurd (ground (arith, h))
  find-by_key q (y ∷ ys) {x} s h = elim (Bool-cases (key y == key x)) [
    | inl e ↦ rw (e, s.0 e) refl
    | inr e ↦ elim (Bool-cases (q y)) [
      | inl t ↦
          let same : y ≡ x = some_inj y x (rw t at h) in
          absurd (unequal (key y) (key x) (ap key same) e)
      | inr n ↦ rw e (find-by_key q ys s.1 (rw n at h))
    ]
  ]
    where
      some_inj : (a b : A) → some a ≡ some b → a ≡ b
      some_inj a b e = ground (arith, e)

      unequal : (a b : ℕ) → a ≡ b → (a == b) ≡ false → ⊥
      unequal a b e n = ground (arith, e, n)

-- Two tests that only one row passes agree.
pub sole_tests :
    {A : Type 0} (p q : A → Bool) (x : A) (xs : List A)
    → p x ≡ true
    → q x ≡ true
    → All (λ o. p o ≡ true → o ≡ x) xs
    → All (λ o. q o ≡ true → o ≡ x) xs
    → All (λ o. p o ≡ q o) xs
sole_tests {A} p q x xs px qx hp hq =
    All-map (λ o. (p o ≡ true → o ≡ x) × (q o ≡ true → o ≡ x)) (λ o. p o ≡ q o) xs
      (λ o h. same o h.0 h.1) (All-zip (λ o. p o ≡ true → o ≡ x) (λ o. q o ≡ true → o ≡ x) xs hp hq)
  where
    same : (o : A) → (p o ≡ true → o ≡ x) → (q o ≡ true → o ≡ x) → p o ≡ q o
    same o h k = elim (Bool-cases (p o)) [
      | inl e ↦ rw (e, h e, qx) refl
      | inr e ↦ elim (Bool-cases (q o)) [
        | inl t ↦ absurd (cc (rw (k t) at e, px))
        | inr n ↦ rw (e, n) refl
      ]
    ]

-- A test that some row passes, and of one key only, reaches one row.
pub count_where-one :
    {A : Type 0} (key : A → ℕ) (p : A → Bool) (u : ℕ) (xs : List A)
    → IsDistinct key xs
    → ((x : A) → p x ≡ true → (key x == u) ≡ true)
    → any p xs ≡ true
    → count_where p xs ≡ 1
unfolding count_where any
count_where-one key p u [] d at_u h = absurd (ground (arith, h))
count_where-one {A} key p u (x ∷ xs) (fresh, d) at_u h = elim (Bool-cases (p x)) [
  | inr n ↦ rw n (count_where-one key p u xs d at_u (ground (arith, n, h)))
  | inl t ↦ rw t (ap suc (nothing xs fresh (at_u x t)))
]
  where
    nothing :
        (ys : List A)
        → All (λ o. (key o == key x) ≡ false) ys
        → (key x == u) ≡ true
        → count_where p ys ≡ 0
    nothing [] f e = refl
    nothing (y ∷ ys) f e = elim (Bool-cases (p y)) [
      | inl hit ↦ let k = at_u y hit in absurd (ground (arith, f.0, k, e))
      | inr miss ↦ rw miss (nothing ys f.1 e)
    ]

-- The row of a keyed table is found by its key.
pub IsDistinct-find :
    {A : Type 0} (key : A → ℕ) (xs : List A)
    → IsDistinct key xs
    → All (λ x. find (λ o. key o == key x) xs ≡ some x) xs
unfolding find
IsDistinct-find key [] d = tt
IsDistinct-find {A} key (x ∷ xs) (fresh, d) =
    (rw (==_refl (key x)) refl, behind xs (IsDistinct-find key xs d) fresh)
  where
    other : (a b : ℕ) → (a == b) ≡ false → (b == a) ≡ false
    other a b h = ground (arith, h)

    behind :
        (ys : List A)
        → All (λ y. find (λ o. key o == key y) xs ≡ some y) ys
        → All (λ y. (key y == key x) ≡ false) ys
        → All (λ y. find (λ o. key o == key y) (x ∷ xs) ≡ some y) ys
    behind [] h f = tt
    behind (y ∷ ys) h f = (rw (other (key y) (key x) f.0) h.0, behind ys h.1 f.1)
