-- ===== src/Publish/Keys.antt =====
-- The primary key of the table of steps.
use imgsrv.Prelude.{
  ℕ, Bool, true, false, List, [], ◌∷◌, ◌≡◌, refl, ◌==◌, All, All-map, All-update_where, Bool-cases,
  inl, inr, sym, update_where, arith, subst,
}
use imgsrv.Publish.Tables.{Step}
use imgsrv.Publish.Statements.{claimed, finished}
use imgsrv.Publish.Retry.{requeued}
use imgsrv.Publish.Change.{Change, claim, end, requeue, insert}

-- No two rows have one identity.
abbrev pub IsKeyed : List Step → Type 0
IsKeyed [] = Unit
IsKeyed (s ∷ ss) = All (λ o. (o.id == s.id) ≡ false) ss × IsKeyed ss

-- The rows with the identity of `s` are `s`.
abbrev pub IsOnly : List Step → Step → Type 0
IsOnly ss s = All (λ o. (o.id == s.id) ≡ true → o ≡ s) ss

eq_comm : (a b : ℕ) → (a == b) ≡ false → (b == a) ≡ false
eq_comm a b h = ground arith

pub IsKeyed-IsOnly : (ss : List Step) → IsKeyed ss → All (IsOnly ss) ss
IsKeyed-IsOnly [] k = tt
IsKeyed-IsOnly (s ∷ ss) (fresh, k) = (
  (
    λ _. refl,
    All-map (λ o. (o.id == s.id) ≡ false) _ ss (λ o e t. absurd (ground (arith, e, t))) fresh,
  ),
  All-step ss (IsKeyed-IsOnly ss k) fresh,
)
  where
    All-step :
        (xs : List Step)
        → All (IsOnly ss) xs
        → All (λ o. (o.id == s.id) ≡ false) xs
        → All (IsOnly (s ∷ ss)) xs
    All-step [] h f = tt
    All-step (x ∷ xs) h f =
        ((λ t. absurd (ground (arith, eq_comm x.id s.id f.0, t)), h.0), All-step xs h.1 f.1)

module _ (p : Step → Bool) (f : Step → Step) (same : (s : Step) → (f s).id ≡ s.id) where
  fresh-update_where :
      (n : ℕ) (ss : List Step)
      → All (λ o. (o.id == n) ≡ false) ss
      → All (λ o. (o.id == n) ≡ false) (update_where p f ss)
  fresh-update_where n ss =
      All-update_where (λ o. (o.id == n) ≡ false) (λ o. (o.id == n) ≡ false) p f ss
        (λ o h _. rw same h) (λ o h _. h)

  update_where-IsKeyed : (ss : List Step) → IsKeyed ss → IsKeyed (update_where p f ss)
  unfolding update_where
  update_where-IsKeyed [] k = tt
  update_where-IsKeyed (s ∷ ss) (fresh, k) = (
    elim (Bool-cases (p s)) [
      | inl e ↦ rw (e, same) (fresh-update_where s.id ss fresh)
      | inr e ↦ rw e (fresh-update_where s.id ss fresh)
    ],
    update_where-IsKeyed ss k,
  )

pub Change-IsKeyed : {xs ys : List Step} → Change xs ys → IsKeyed xs → IsKeyed ys
Change-IsKeyed {xs} (claim s w now _ _ _ e) k =
    subst IsKeyed (sym e) (update_where-IsKeyed _ (claimed w now) (λ _. refl) xs k)
Change-IsKeyed {xs} (end s st m now _ _ _ e) k =
    subst IsKeyed (sym e) (update_where-IsKeyed _ (λ o. finished st (m o) now o) (λ _. refl) xs k)
Change-IsKeyed {xs} (requeue j n now e) k =
    subst IsKeyed (sym e) (update_where-IsKeyed _ (requeued now) (λ _. refl) xs k)
Change-IsKeyed {xs} (insert s q fresh _ e) k = subst IsKeyed (sym e) (fresh, k)
