-- ===== src/Prelude/Tx.antt =====
-- Transactions over a database of type `D`: statements in sequence, of which the first that fails
-- rolls all back. The withTx of the stores is `transact` with the error mapping of each.
use mathlib.Core.Path.{◌≡◌, refl, subst}
use mathlib.Core.Logic.{◌⊎◌, inl, inr}
use mathlib.Core.Bool.{Bool, true, false}
use mathlib.Core.Option.{Option, none, some}
use mathlib.Core.List.{[], ◌∷◌}
use native.Mathlib.Omega.{arith}
use imgsrv.Prelude.Tests.{if◌then◌else◌, Option-cases, Bool-cases}
use imgsrv.Prelude.Errors.{Error, Result, ok, err, Result-cases, no_rows}

-- A statement or a function of statements inside a transaction.
abbrev pub Transaction : Type 0 → Type 0 → Type 0
Transaction D A = D → Result (A × D)

infixl 5 ◌>>=◌ ◌>>◌
abbrev pub ◌>>=◌ : {D A B : Type 0} → Transaction D A → (A → Transaction D B) → Transaction D B
◌>>=◌ m f db = elim (m db) [ ok (a, db') ↦ f a db' | err e ↦ err e ]

abbrev pub ◌>>◌ : {D A B : Type 0} → Transaction D A → Transaction D B → Transaction D B
m >> k = m >>= λ _. k

abbrev pub pure : {D A : Type 0} → A → Transaction D A
pure a db = ok (a, db)

abbrev pub fail : {D A : Type 0} → Error → Transaction D A
fail e db = err e

abbrev pub require : {D : Type 0} → Bool → Error → Transaction D (Unit {0})
require b e db = if b then ok (tt, db) else err e

-- A query that reads.
abbrev pub query : {D A : Type 0} → (D → A) → Transaction D A
query f db = ok (f db, db)

-- A row that must be there: pgx.ErrNoRows if not.
abbrev pub row : {D A : Type 0} → (D → Option A) → Transaction D A
row f db = elim (f db) [ none ↦ err (no_rows ∷ []) | some a ↦ ok (a, db) ]

abbrev pub modify : {D : Type 0} → (D → D) → Transaction D (Unit {0})
modify f db = ok (tt, f db)

-- withTx, and the mapping of its error that each operation ends in: commit or roll back.
abbrev pub transact : {D A : Type 0} → (Error → Error) → Transaction D A → D → Result A × D
transact mapped m db = elim (m db) [ ok (a, db') ↦ (ok a, db') | err e ↦ (err (mapped e), db) ]

-- A validation before the transaction.
abbrev pub validated : {D A : Type 0} → Result (Unit {0}) → (D → Result A × D) → D → Result A × D
validated (ok _) m db = m db
validated (err e) m db = (err e, db)

-- Inversion of a successful bind.
pub >>=-eq-ok :
    {D A B : Type 0} (m : Transaction D A) (f : A → Transaction D B) (db : D) {b : B} {db' : D}
    → (m >>= f) db ≡ ok (b, db')
    → (a : A) × (mid : D) × (m db ≡ ok (a, mid)) × (f a mid ≡ ok (b, db'))
>>=-eq-ok m f db h = elim (Result-cases (m db)) [
  | inl ((a, mid), e) ↦ (a, mid, e, rw (e, ◌>>=◌) at h)
  | inr (e, p) ↦ absurd (ground (arith, p, h))
]

-- The same by continuation, and for a first statement that leaves the database at `mid`.
module _ {D A B C : Type 0} (m : Transaction D A) (f : A → Transaction D B) (db : D)
    {r : B × D} where
  pub bind-elim :
      (m >>= f) db ≡ ok r → ((a : A) (mid : D) → m db ≡ ok (a, mid) → f a mid ≡ ok r → C) → C
  bind-elim h k = let (a, mid, first, rest) = >>=-eq-ok m f db h in k a mid first rest

  pub bind-at :
      (mid : D)
      → ((a : A) (d : D) → m db ≡ ok (a, d) → d ≡ mid)
      → (m >>= f) db ≡ ok r
      → ((a : A) → m db ≡ ok (a, mid) → f a mid ≡ ok r → C)
      → C
  bind-at mid same h k = bind-elim h (λ a d first rest.
      let e = same a d first in
      k a (subst (λ x. m db ≡ ok (a, x)) e first) (subst (λ x. f a x ≡ ok r) e rest))

module _ {D B C : Type 0} (b : Bool) (e : Error) (f : Unit {0} → Transaction D B) (db : D)
    {r : B × D} where
  pub bind-require : (require b e >>= f) db ≡ ok r → (b ≡ true → f tt db ≡ ok r → C) → C
  bind-require h k = elim (Bool-cases b) [
    | inl t ↦ k t (rw t at h)
    | inr n ↦ absurd (cc (rw n at h))
  ]

module _ {D A : Type 0} {a : A} {db' : D} where
  pub row-ok : (f : D → Option A) (db : D) → row f db ≡ ok (a, db') → (f db ≡ some a) × (db' ≡ db)
  row-ok f db h = elim (Option-cases (f db)) [
    | inl e ↦ absurd (ground (arith, e, h))
    | inr (b, e) ↦ (ground (arith, e, h), ground (arith, e, h))
  ]

  pub pure-ok : (b : A) (db : D) → pure b db ≡ ok (a, db') → (a ≡ b) × (db' ≡ db)
  pure-ok b db h = (ground (arith, h), ground (arith, h))

  pub query-ok : (f : D → A) (db : D) → query f db ≡ ok (a, db') → (a ≡ f db) × (db' ≡ db)
  query-ok f db h = (ground (arith, h), ground (arith, h))

module _ {D : Type 0} {u : Unit {0}} {db' : D} where
  pub require-ok :
      (b : Bool) (e : Error) (db : D) → require b e db ≡ ok (u, db') → (b ≡ true) × (db' ≡ db)
  require-ok true e db h = (refl, ground (arith, h))
  require-ok false e db h = absurd (cc)

  pub modify-ok : (f : D → D) (db : D) → modify f db ≡ ok (u, db') → db' ≡ f db
  modify-ok f db h = ground (arith, h)

-- A transaction commits what it wrote, or changes nothing.
pub transact-cases :
    {D A : Type 0} (mapped : Error → Error) (m : Transaction D A) (db : D)
    → ((a : A) × (m db ≡ ok (a, (transact mapped m db).1)) × ((transact mapped m db).0 ≡ ok a))
      ⊎ ((e : Error) × (m db ≡ err e) × (transact mapped m db ≡ (err (mapped e), db)))
transact-cases mapped m db = elim (Result-cases (m db)) [
  | inl ((a, mid), e) ↦ inl (a, ground (arith, e), ground (arith, e))
  | inr (e, p) ↦ inr (e, p, ground (arith, p))
]

-- A call that succeeds passed its validation and committed its transaction.
pub validated-transact-ok :
    {D A : Type 0} (check : Result (Unit {0})) (mapped : Error → Error) (m : Transaction D A)
    (db : D) {a : A}
    → (validated check (transact mapped m) db).0 ≡ ok a
    → (check ≡ ok tt) × (m db ≡ ok (a, (validated check (transact mapped m) db).1))
validated-transact-ok (ok tt) mapped m db h = elim (transact-cases mapped m db) [
  | inl (a, e, f) ↦ (refl, ground (arith, e, f, h))
  | inr (e, _, f) ↦ absurd (cc (rw f at h))
]
validated-transact-ok (err e) mapped m db h = absurd (cc)
