-- ===== src/Uploads/Lifecycle.antt =====
-- The lifecycle of upload sessions that internal/uploads/uploads.go documents on SessionState, as a
-- machine on the states of the sessions by identity.
use imgsrv.Prelude.{
  Option, none, some, ◌≡◌, sym, ◌∙◌, ◌==◌, ==_iff, if◌then◌else◌, inl, inr, Bool-cases, subst,
}
use imgsrv.Publish.Domain.{Uuid}
use imgsrv.Uploads.Domain.{SessionState, created, uploading, completed, ingesting, ready, aborted}

-- How a session moves.
pub data Edge : SessionState → SessionState → Type 0 where
  first_part : Edge created uploading
  next_part : Edge uploading uploading
  complete_empty : Edge created completed
  complete_parts : Edge uploading completed
  abort_empty : Edge created aborted
  abort_parts : Edge uploading aborted
  start_ingest : Edge completed ingesting
  verify : Edge ingesting ready
  reject : Edge ingesting SessionState.failed

-- How a session begins: with an upload, or for a blob that is there.
pub data Initial : SessionState → Type 0 where
  upload : Initial created
  known_blob : Initial ready

abbrev pub View : Type 0
View = Uuid → Option SessionState

abbrev pub set : Uuid → SessionState → View → View
set id st v n = if id == n then some st else v n

-- Views that follow one another: some sessions have begun, some have moved along an edge.
pub data Steps (v : View) : View → Type 0 where
  same : {v' : View} → ((n : Uuid) → v' n ≡ v n) → Steps v v'
  begins :
      {mid v' : View} (id : Uuid) (st : SessionState)
      → Steps v mid
      → mid id ≡ none
      → Initial st
      → ((n : Uuid) → v' n ≡ set id st mid n)
      → Steps v v'
  moves :
      {mid v' : View} (id : Uuid) (st st' : SessionState)
      → Steps v mid
      → mid id ≡ some st
      → Edge st st'
      → ((n : Uuid) → v' n ≡ set id st' mid n)
      → Steps v v'

-- The states that the documentation calls terminal.
pub data Terminal : SessionState → Type 0 where
  is_ready : Terminal ready
  is_failed : Terminal SessionState.failed
  is_aborted : Terminal aborted

pub no-Edge : {st st' : SessionState} → Terminal st → Edge st st' → ⊥
no-Edge is_ready e = elim e [ ]
no-Edge is_failed e = elim e [ ]
no-Edge is_aborted e = elim e [ ]

pub Steps-trans : {v v' w : View} → Steps v v' → Steps v' w → Steps v w
Steps-trans s (same e) = extend s e
  where
    extend : {a b c : View} → Steps a b → ((n : Uuid) → c n ≡ b n) → Steps a c
    extend (same f) e = same (λ n. e n ∙ f n)
    extend (begins id st t h i f) e = begins id st t h i (λ n. e n ∙ f n)
    extend (moves id st st' t h g f) e = moves id st st' t h g (λ n. e n ∙ f n)
Steps-trans s (begins id st t h i f) = begins id st (Steps-trans s t) h i f
Steps-trans s (moves id st st' t h g f) = moves id st st' (Steps-trans s t) h g f

-- A session in a terminal state stays in it.
pub Steps-Terminal :
    {v w : View} (id : Uuid) (st : SessionState)
    → Terminal st
    → v id ≡ some st
    → Steps v w
    → w id ≡ some st
Steps-Terminal id st t h (same e) = e id ∙ h
Steps-Terminal {v} id st t h (begins {mid} n st' s free i e) =
    let before = Steps-Terminal id st t h s in
    elim (Bool-cases (n == id)) [
      | inl at_n ↦
          let eq = (==_iff n id).0 at_n in absurd (cc (before, subst (λ k. mid k ≡ none) eq free))
      | inr other ↦ e id ∙ rw other before
    ]
Steps-Terminal {v} id st t h (moves {mid} n a b s at_a g e) =
    let before = Steps-Terminal id st t h s in
    elim (Bool-cases (n == id)) [
      | inl at_n ↦
          let eq = (==_iff n id).0 at_n in
          let here : st ≡ a = some_inj (sym before ∙ subst (λ k. mid k ≡ some a) eq at_a) in
          absurd (no-Edge (subst Terminal here t) g)
      | inr other ↦ e id ∙ rw other before
    ]
  where
    some_inj : {x y : SessionState} → some x ≡ some y → x ≡ y
    some_inj p = cc (p)
