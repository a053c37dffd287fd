-- ===== src/Uploads/Refines.antt =====
-- The tables of internal/store/postgres/uploads implement the lifecycle of sessions.
use imgsrv.Prelude.{
  ℕ, String, Bool, true, false, Option, none, some, List, [], ◌∷◌, ◌≡◌, refl, sym, ap, subst, ◌∙◌,
  ◌==◌, ==_iff, if◌then◌else◌, inl, inr, ◌⊎◌, All, All-find, All-update_where, everywhere, find,
  find-none, find-none_of_All, find-update_where, find-by_key, find-IsSole, update_where,
  update_where-none, count_where-find, IsDistinct, Option-cases, Bool-cases, arith,
}
use imgsrv.Publish.Domain.{Uuid}
use imgsrv.Uploads.Domain.{SessionState, created, uploading, completed, ingesting}
use imgsrv.Uploads.Tables.{Session, IngestJob, CasBlob, UploadDb}
use imgsrv.Uploads.Statements.{mutable_session, matches_blob}
use imgsrv.Uploads.Sessions.{now_completed}
use imgsrv.Uploads.Consistent.{IsConsistent}
use imgsrv.Uploads.Change.{
  Change, IsStart, at_created, at_ready, OpenMove, part, abort, Hand, claim, succeed, fail, insert,
  move, complete, hand,
}
use imgsrv.Uploads.Keeping.{open_of}
use imgsrv.Uploads.Calls.{Op, apply, run}
use imgsrv.Uploads.Reach.{apply-IsMade, apply-IsConsistent}
use imgsrv.Uploads.Lifecycle.{
  View, set, Edge, first_part, next_part, complete_empty, complete_parts, abort_empty, abort_parts,
  start_ingest, verify, reject, Initial, upload, known_blob, Steps, same, begins, moves,
  Steps-trans, Terminal, Steps-Terminal,
}

abbrev state_at : Option Session → Option SessionState
state_at none = none
state_at (some s) = some s.state

-- The states of the sessions in a table.
abbrev pub states : List Session → View
states ss n = state_at (find (λ s. s.id == n) ss)

unfoldable pub view : UploadDb → View
unfolding find
view db = states db.sessions

-- A session that moves alone.
module _ (P : Session → Bool) (F : Session → Session) (ss : List Session) {s : Session}
    (d : IsDistinct (λ (o : Session). o.id) ss) (e : find P ss ≡ some s)
    (keeps : (o : Session) → (F o).id ≡ o.id)
    (only : (o : Session) → P o ≡ true → o.id ≡ s.id) where
  at_found : find (λ o. o.id == s.id) ss ≡ some s
  at_found =
      find-by_key (λ (o : Session). o.id) P ss (find-IsSole (λ (o : Session). o.id) P ss d e) e

  states-found : states ss s.id ≡ some s.state
  states-found = ap state_at at_found

  moved :
      (n : ℕ) (o : Session)
      → find (λ x. x.id == n) ss ≡ some o
      → states (update_where P F ss) n ≡ some (if P o then F o else o).state
  moved n o f = ap state_at (find-update_where (λ x. x.id == n) P F ss (λ x. rw (keeps x) refl) f)

  states-update_where :
      (n : ℕ) → states (update_where P F ss) n ≡ set s.id (F s).state (states ss) n
  states-update_where n = elim (Bool-cases (s.id == n)) [
    | inl at_n ↦
        let eq = (==_iff s.id n).0 at_n in
        let fit = (All-find (λ _. Unit {0}) P ss (everywhere _ (λ _. tt) ss) e).1 in
        let f = subst (λ k. find (λ o. o.id == k) ss ≡ some s) eq at_found in
        let m = moved n s f in rw at_n (rw fit at m)
    | inr other ↦ elim (Option-cases (find (λ x. x.id == n) ss)) [
      | inl absent ↦
          let still =
            find-none_of_All (λ x. x.id == n) (update_where P F ss)
              (All-update_where (λ x. (x.id == n) ≡ false) (λ x. (x.id == n) ≡ false) P F ss
                (λ x h _. rw (keeps x) h) (λ x h _. h) (find-none (λ x. x.id == n) ss absent)) in
          rw (other, absent) (ap state_at still)
      | inr (o, f) ↦
          let at_o =
            (==_iff o.id n).0
              (All-find (λ _. Unit {0}) (λ x. x.id == n) ss (everywhere _ (λ _. tt) ss) f).1 in
          elim (Bool-cases (P o)) [
            | inl hit ↦ absurd (ground (arith, only o hit, at_o, other))
            | inr miss ↦ let m = moved n o f in rw (other, f) (rw miss at m)
          ]
    ]
  ]

  pub move-Steps :
      {st st' : SessionState}
      → s.state ≡ st
      → (F s).state ≡ st'
      → Edge st st'
      → Steps (states ss) (states (update_where P F ss))
  move-Steps {st} {st'} before after g =
      moves s.id st st' (same (λ _. refl)) (states-found ∙ ap some before) g (λ n.
        subst (λ x. states (update_where P F ss) n ≡ set s.id x (states ss) n) after
          (states-update_where n))

insert-Steps :
    (db : UploadDb) (s : Session)
    → All (λ o. (o.id == s.id) ≡ false) db.sessions
    → IsStart db s
    → Steps (states db.sessions) (states (s ∷ db.sessions))
unfolding find
insert-Steps db s fresh start =
    begins s.id s.state (same (λ _. refl))
      (ap state_at (find-none_of_All (λ o. o.id == s.id) db.sessions fresh)) (initial start)
      (λ n. elim (Bool-cases (s.id == n)) [ inl e ↦ rw e refl | inr e ↦ rw e refl ])
  where
    initial : IsStart db s → Initial s.state
    initial (at_created e) = subst Initial (sym e) upload
    initial (at_ready e _ _ _) = subst Initial (sym e) known_blob

same_id : (a b id : ℕ) → (a == id) ≡ true → (b == id) ≡ true → a ≡ b
same_id a b id h k = ground (arith, h, k)

mutable_id : (id : Uuid) (s : Session) → mutable_session id s ≡ true → (s.id == id) ≡ true
unfolding mutable_session
mutable_id id s h = ground (arith, h)

-- An open session that moves.
open-Steps :
    (db : UploadDb) (id : Uuid) (F : Session → Session)
    → IsConsistent db
    → ((o : Session) → (F o).id ≡ o.id)
    → ((s : Session) → (s.state ≡ created) ⊎ (s.state ≡ uploading) → Edge s.state (F s).state)
    → Steps (states db.sessions) (states (update_where (mutable_session id) F db.sessions))
open-Steps db id F w keeps edge = elim (Option-cases (find (mutable_session id) db.sessions)) [
  | inl e ↦
      same (λ n. ap (λ ss. states ss n) (update_where-none (mutable_session id) F db.sessions e))
  | inr (s, e) ↦
      let fit =
        (All-find (λ _. Unit {0}) (mutable_session id) db.sessions
          (everywhere _ (λ _. tt) db.sessions) e).1 in
      move-Steps (mutable_session id) F db.sessions w.sessions e keeps
        (λ o h. same_id o.id s.id id (mutable_id id o h) (mutable_id id s fit)) refl refl
        (edge s (open_of id s fit))
]

open-Edge :
    {F : Session → Session}
    → OpenMove F
    → (s : Session) → (s.state ≡ created) ⊎ (s.state ≡ uploading)
    → Edge s.state (F s).state
open-Edge part s (inl e) = rw e first_part
open-Edge part s (inr e) = rw e next_part
open-Edge (abort now) s (inl e) = rw e abort_empty
open-Edge (abort now) s (inr e) = rw e abort_parts

open_id : {F : Session → Session} → OpenMove F → (o : Session) → (F o).id ≡ o.id
open_id part o = refl
open_id (abort now) o = refl

complete-Edge : (s : Session) → (s.state ≡ created) ⊎ (s.state ≡ uploading) → Edge s.state completed
complete-Edge s (inl e) = rw e complete_empty
complete-Edge s (inr e) = rw e complete_parts

-- What a job's move makes of its session.
record HandEdge (j : IngestJob) (P : Session → Bool) (F : Session → Session) : Type 0 where
  keeps : (o : Session) → (F o).id ≡ o.id
  at_upload : (o : Session) → P o ≡ true → (o.id == j.upload_id) ≡ true
  edge : (s : Session) → P s ≡ true → Edge s.state (F s).state

hand-HandEdge :
    {db : UploadDb} {j : IngestJob} {P : Session → Bool} {F : Session → Session}
    {Q : IngestJob → Bool} {G : IngestJob → IngestJob} {blobs : List CasBlob}
    → Hand db j P F Q G blobs
    → HandEdge j P F
unfolding matches_blob
hand-HandEdge (claim now worker q) = record {
  keeps = λ _. refl;
  at_upload = λ o h. ground (arith, h);
  edge = λ s h. let e : s.state ≡ completed = ground (arith, h) in rw e start_ingest;
}
hand-HandEdge (succeed now p mid r e g) = record {
  keeps = λ _. refl;
  at_upload = λ o h. ground (arith, h);
  edge = λ s h. let e : s.state ≡ ingesting = ground (arith, h) in rw e verify;
}
hand-HandEdge (fail now id message r e) = record {
  keeps = λ _. refl;
  at_upload = λ o h. ground (arith, h);
  edge = λ s h. let e : s.state ≡ ingesting = ground (arith, h) in rw e reject;
}

-- Each change is a step of the lifecycle.
Change-Steps : {db db' : UploadDb} → IsConsistent db → Change db db' → Steps (view db) (view db')
unfolding view
Change-Steps {db} w (insert s fresh start e) =
    subst (λ d. Steps (view db) (view d)) (sym e) (insert-Steps db s fresh start)
Change-Steps {db} w (move id F parts m e) =
    subst (λ d. Steps (view db) (view d)) (sym e) (open-Steps db id F w (open_id m) (open-Edge m))
Change-Steps {db} w (complete now id s j found of_s q free fresh e) =
    subst (λ d. Steps (view db) (view d)) (sym e)
      (open-Steps db id (now_completed now) w (λ _. refl) complete-Edge)
Change-Steps {db} w (hand j P F Q G blobs h only found one e) =
    let k = hand-HandEdge h in
    let (s, at_s) = count_where-find P db.sessions one in
    let fit =
      (All-find (λ _. Unit {0}) P db.sessions (everywhere _ (λ _. tt) db.sessions) at_s).1 in
    subst (λ d. Steps (view db) (view d)) (sym e)
      (move-Steps P F db.sessions w.sessions at_s k.keeps
        (λ o t. same_id o.id s.id j.upload_id (k.at_upload o t) (k.at_upload s fit)) refl refl
        (k.edge s fit))

-- Any sequence of calls on consistent tables moves the sessions along the lifecycle.
pub run-Steps :
    (uuid_text : Uuid → String) (ops : List Op) (db : UploadDb)
    → IsConsistent db
    → Steps (view db) (view (run uuid_text ops db))
unfolding run
run-Steps uuid_text [] db w = same (λ _. refl)
run-Steps uuid_text (op ∷ ops) db w =
    Steps-trans (one (apply-IsMade uuid_text op db w))
      (run-Steps uuid_text ops (apply uuid_text op db) (apply-IsConsistent uuid_text op db w))
  where
    one :
        (apply uuid_text op db ≡ db) ⊎ Change db (apply uuid_text op db)
        → Steps (view db) (view (apply uuid_text op db))
    one (inl e) = same (λ n. ap (λ d. view d n) e)
    one (inr c) = Change-Steps w c

-- A session that is ready, failed or aborted stays so, whatever is called.
pub run-Terminal :
    (uuid_text : Uuid → String) (ops : List Op) (db : UploadDb) (id : Uuid) (st : SessionState)
    → IsConsistent db
    → Terminal st
    → view db id ≡ some st
    → view (run uuid_text ops db) id ≡ some st
run-Terminal uuid_text ops db id st w t h = Steps-Terminal id st t h (run-Steps uuid_text ops db w)
