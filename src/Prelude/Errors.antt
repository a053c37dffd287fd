-- ===== src/Prelude/Errors.antt =====
-- Go's error values, read by `errors.Is`. The text of an error is left out, but for the places
-- where the code stores it.
use Prim.Native.Nat.{ℕ}
use mathlib.Core.Bool.{Bool, ◌||◌, false}
use mathlib.Core.List.{List, [], ◌∷◌}
use mathlib.Core.Path.{◌≡◌, refl}
use mathlib.Core.Logic.{◌⊎◌, inl, inr}
use imgsrv.Prelude.Tests.{◌==◌}

-- The sentinels of the packages and of the database driver; `other` is any other error.
pub data Sentinel : Type 0 where
  upload_conflict upload_failed_precondition upload_invalid upload_not_found : Sentinel
  object_invalid object_already_exists object_conflict object_not_found : Sentinel
  cas_failed_precondition cas_invalid cas_not_found : Sentinel
  publish_failed_precondition publish_invalid publish_lease_lost publish_not_found : Sentinel
  catalog_conflict catalog_failed_precondition catalog_invalid catalog_not_found : Sentinel
  no_rows pg_unique pg_foreign_key pg_check pg_invalid_text pg_not_null : Sentinel
  other : Sentinel

abbrev rank : Sentinel → ℕ
rank upload_conflict = 0
rank upload_failed_precondition = 1
rank upload_invalid = 2
rank upload_not_found = 3
rank object_invalid = 4
rank object_already_exists = 5
rank object_conflict = 6
rank object_not_found = 7
rank cas_failed_precondition = 8
rank cas_invalid = 9
rank cas_not_found = 10
rank publish_failed_precondition = 11
rank publish_invalid = 12
rank publish_lease_lost = 13
rank publish_not_found = 14
rank catalog_conflict = 15
rank catalog_failed_precondition = 16
rank catalog_invalid = 17
rank catalog_not_found = 18
rank no_rows = 19
rank pg_unique = 20
rank pg_foreign_key = 21
rank pg_check = 22
rank pg_invalid_text = 23
rank pg_not_null = 24
rank other = 25

-- The sentinels that an error wraps, outermost first; `errors.Join` appends.
abbrev pub Error : Type 0
Error = List Sentinel

-- errors.Is.
abbrev pub errors_is : Error → Sentinel → Bool
errors_is [] t = false
errors_is (s ∷ e) t = rank s == rank t || errors_is e t

pub data Result {ℓ} (A : Type ℓ) : Type ℓ where
  ok : A → Result A
  err : Error → Result A

pub Result-cases {ℓ} :
    {A : Type ℓ} (r : Result A) → ((a : A) × (r ≡ ok a)) ⊎ ((e : Error) × (r ≡ err e))
Result-cases (ok a) = inl (a, refl)
Result-cases (err e) = inr (e, refl)
