-- ===== src/Publish/Fencing.antt =====
-- Leases of internal/store/postgres/publish/store.go: a claim takes a step from whoever held it.
use imgsrv.Prelude.{
  any-update_where, ℕ, ◌<◌, ◌≤◌, List, [], ◌∷◌, Bool, true, false, none, ◌≡◌, refl, sym, subst,
  ◌==◌, inl, inr, any, find, find-none_of_All, All, All-map, All-update_where, update_where,
  Bool-cases, arith,
}
use imgsrv.Publish.Domain.{Uuid, Lease}
use imgsrv.Publish.Tables.{Step}
use imgsrv.Publish.Statements.{claimed, finished, leased}
use imgsrv.Publish.Retry.{requeued}
use imgsrv.Publish.Change.{Change, claim, end, requeue, insert}

-- The step of the lease has been claimed again since.
pub record IsOverdue (l : Lease) (ss : List Step) : Type 0 where
  pub exists : any (λ o. o.id == l.id) ss ≡ true
  pub passed : All (λ o. (o.id == l.id) ≡ true → l.attempt_count < o.attempt_count) ss

-- An update that takes no attempt back keeps the lease overdue.
update_where-IsOverdue :
    (l : Lease) (p : Step → Bool) (f : Step → Step) (ss : List Step)
    → ((s : Step) → (f s).id ≡ s.id)
    → ((s : Step) → s.attempt_count ≤ (f s).attempt_count)
    → IsOverdue l ss
    → IsOverdue l (update_where p f ss)
update_where-IsOverdue l p f ss same grows o = record {
  exists = rw (any-update_where (λ o. o.id == l.id) p f ss (λ s. rw (same s) refl)) o.exists;
  passed =
      All-update_where (λ s. (s.id == l.id) ≡ true → l.attempt_count < s.attempt_count)
        (λ s. (s.id == l.id) ≡ true → l.attempt_count < s.attempt_count) p f ss
        (λ s h _ t. later s h (rw (← same) t)) (λ s h _. h) o.passed;
}
  where
    later :
        (s : Step)
        → ((s.id == l.id) ≡ true → l.attempt_count < s.attempt_count)
        → (s.id == l.id) ≡ true
        → l.attempt_count < (f s).attempt_count
    later s h t = let before = h t in let up = grows s in omega arith

not_fresh :
    (id : Uuid) (s : Step) (ss : List Step)
    → any (λ o. o.id == id) ss ≡ true
    → All (λ o. (o.id == s.id) ≡ false) ss
    → (s.id == id) ≡ false
unfolding any
not_fresh id s [] h f = absurd (cc)
not_fresh id s (x ∷ ss) h f = elim (Bool-cases (x.id == id)) [
  | inl e ↦ apart x.id s.id id e f.0
  | inr e ↦ not_fresh id s ss (rw e at h) f.1
]
  where
    apart : (a b c : ℕ) → (a == c) ≡ true → (a == b) ≡ false → (b == c) ≡ false
    apart a b c e n = ground (arith, e, n)

pub Change-IsOverdue :
    (l : Lease) (xs ys : List Step) → Change xs ys → IsOverdue l xs → IsOverdue l ys
unfolding any
Change-IsOverdue l xs ys (claim s w now _ _ _ e) o =
    subst (IsOverdue l) (sym e)
      (update_where-IsOverdue l _ (claimed w now) xs (λ _. refl) (λ s. omega arith) o)
Change-IsOverdue l xs ys (end s st m now _ _ _ e) o =
    subst (IsOverdue l) (sym e) (
      update_where-IsOverdue l _ (λ x. finished st (m x) now x) xs (λ _. refl) (λ s. omega arith) o)
Change-IsOverdue l xs ys (requeue j n now e) o =
    subst (IsOverdue l) (sym e)
      (update_where-IsOverdue l _ (requeued now) xs (λ _. refl) (λ s. omega arith) o)
Change-IsOverdue l xs ys (insert s _ fresh _ e) o =
    let other = not_fresh l.id s xs o.exists fresh in
    subst (IsOverdue l) (sym e)
      (record { exists = rw other o.exists; passed = ((λ t. absurd (cc (other, t))), o.passed) })

-- No row is leased to the holder of an overdue lease.
pub IsOverdue-leased : (l : Lease) (ss : List Step) → IsOverdue l ss → find (leased l) ss ≡ none
unfolding leased
IsOverdue-leased l ss o = find-none_of_All (leased l) ss (
    All-map (λ s. (s.id == l.id) ≡ true → l.attempt_count < s.attempt_count)
      (λ s. leased l s ≡ false) ss (λ s h. lost s h) o.passed)
  where
    lost :
        (s : Step)
        → ((s.id == l.id) ≡ true → l.attempt_count < s.attempt_count)
        → leased l s ≡ false
    lost s h = elim (Bool-cases (s.id == l.id)) [
      | inl e ↦ let more = h e in ground (arith, more)
      | inr e ↦ ground (arith, e)
    ]
