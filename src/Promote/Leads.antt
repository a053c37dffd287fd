-- ===== src/Promote/Leads.antt =====
-- Tables of uploads that follow from others by calls of the store.
use imgsrv.Prelude.{
  String, Bool, true, false, [], ◌∷◌, ◌≡◌, refl, sym, subst, if◌then◌else◌, Result, Error, ok, err,
}
use imgsrv.Publish.Domain.{Uuid}
use imgsrv.Uploads.Tables.{UploadDb}
use imgsrv.Uploads.Consistent.{IsConsistent}
use imgsrv.Uploads.Calls.{Op, apply, run}
use imgsrv.Uploads.Lifecycle.{Steps, same, Steps-trans}
use imgsrv.Uploads.Reach.{run-IsConsistent}
use imgsrv.Uploads.Refines.{view, run-Steps}
use imgsrv.Cas.World.{World}

-- Consistent tables stay consistent, and their sessions move along the lifecycle.
abbrev pub Leads : UploadDb → UploadDb → Type 0
Leads db db' = IsConsistent db → IsConsistent db' × Steps (view db) (view db')

pub equal-Leads : {db db' : UploadDb} → db' ≡ db → Leads db db'
equal-Leads {db} e c =
    subst (λ d. IsConsistent d × Steps (view db) (view d)) (sym e) (c, same (λ _. refl))

pub Leads-trans : {db mid db' : UploadDb} → Leads db mid → Leads mid db' → Leads db db'
Leads-trans f g c = let (c1, s1) = f c in let (c2, s2) = g c1 in (c2, Steps-trans s1 s2)

pub apply-Leads :
    (uuid_text : Uuid → String) (op : Op) (db : UploadDb) → Leads db (apply uuid_text op db)
unfolding apply run view
apply-Leads uuid_text op db c =
    (run-IsConsistent uuid_text (op ∷ []) db c, run-Steps uuid_text (op ∷ []) db c)

module _ {O : Type 0} (db : UploadDb) where
  -- What a call leaves follows from `db`.
  abbrev pub Follows : {A : Type 0} → A × World O → Type 0
  Follows r = Leads db r.1.db

  pub if-Follows :
      {A : Type 0} (b : Bool) (x y : A × World O)
      → Follows x
      → Follows y
      → Follows (if b then x else y)
  if-Follows true x y h k = h
  if-Follows false x y h k = k

  -- A check before a step.
  pub checked-Follows :
      {B C : Type 0} (r : Result C) (x : Error → B × World O) (f : C → B × World O)
      → ((e : Error) → Follows (x e))
      → ((c : C) → Follows (f c))
      → Follows {A = B} (elim r [ err e ↦ x e | ok c ↦ f c ])
  checked-Follows (err e) x f h k = h e
  checked-Follows (ok c) x f h k = k c
