-- ===== src/Uploads/Keeping.antt =====
-- Each change of the tables of internal/store/postgres/uploads keeps what they keep.
use imgsrv.Prelude.{
  ℕ, Bool, true, false, some, List, ◌∷◌, ◌≡◌, refl, sym, subst, ◌∙◌, ◌==◌, ==_iff, str_eq, any,
  any-false, any-false_of_All, any-map, find-any, any-update_where, All, All-map, All-zip, All-find,
  All-update_where, everywhere, find, update_where, IsDistinct-update_where, find-IsSole, arith,
  ◌⊎◌,
}
use imgsrv.Publish.Domain.{Uuid}
use imgsrv.Uploads.Domain.{
  SessionState, created, uploading, ready, IngestJobState, queued, running, succeeded, is_session,
}
use imgsrv.Uploads.Tables.{Session, IngestJob, CasBlob, UploadDb}
use imgsrv.Uploads.Statements.{mutable_session}
use imgsrv.Uploads.Sessions.{now_completed}
use imgsrv.Uploads.Consistent.{
  state_of, Agrees, has_session, backs, IsBacked, IsConsistent, IsAgreed-update_where,
  IsAttached-update_where,
}
use imgsrv.Uploads.Change.{IsStart, at_created, at_ready, OpenMove, part, abort}

abbrev session_id : Session → ℕ
session_id s = s.id

session_of : (s : SessionState) (t : SessionState) → is_session s t ≡ true → s ≡ t
session_of s t h = ground arith

-- Sessions that move to another state than ready need no blob.
module _ (bs : List CasBlob) (P : Session → Bool) (F : Session → Session) (ss : List Session) where
  pub IsBacked-update_where :
      ((s : Session) → P s ≡ true → IsBacked bs (F s))
      → All (IsBacked bs) ss
      → All (IsBacked bs) (update_where P F ss)
  IsBacked-update_where f =
      All-update_where (IsBacked bs) (IsBacked bs) P F ss (λ s _ e. f s e) (λ s h _. h)

pub open_of :
    (id : Uuid) (s : Session)
    → mutable_session id s ≡ true
    → (s.state ≡ created) ⊎ (s.state ≡ uploading)
unfolding mutable_session
open_of id s h = ground (arith, h)

pub insert-IsConsistent :
    (db : UploadDb) (s : Session)
    → All (λ o. (o.id == s.id) ≡ false) db.sessions
    → IsStart db s
    → IsConsistent db
    → IsConsistent (record db { sessions = s ∷ db.sessions })
unfolding any
insert-IsConsistent db s fresh start w = record {
  sessions = (fresh, w.sessions);
  jobs = w.jobs;
  uploads = w.uploads;
  attached =
      All-map (λ j. has_session db.sessions j.upload_id ≡ true) _ db.jobs (λ j h. ground (arith, h))
        w.attached;
  agreed = (
    All-map (λ j. has_session db.sessions j.upload_id ≡ true) (Agrees s) db.jobs
        (λ j h t. absurd (unknown db.sessions j fresh h t)) w.attached,
    w.agreed,
  );
  backed = (starts start, w.backed);
}
  where
    unknown :
        (ss : List Session) (j : IngestJob)
        → All (λ o. (o.id == s.id) ≡ false) ss
        → has_session ss j.upload_id ≡ true
        → (j.upload_id == s.id) ≡ true
        → ⊥
    unknown ss j f h t =
        let at_s = (==_iff j.upload_id s.id).0 t in
        let known : has_session ss s.id ≡ true = subst (λ n. has_session ss n ≡ true) at_s h in
        cc (any-false_of_All (λ o. o.id == s.id) ss f, known)

    starts : IsStart db s → IsBacked db.blobs s
    starts (at_created e) r = absurd (cc (e, r))
    starts (at_ready e d n a) r = (
      d,
      any-map (λ b. str_eq b.digest s.expected_digest) (backs s) db.blobs
          (λ b t. ground (arith, t, n)) a,
    )

-- An open session is in no state of a job.
pub open_apart :
    (id : Uuid) (s : Session)
    → mutable_session id s ≡ true
    → (st : IngestJobState) → s.state ≡ state_of st
    → ⊥
open_apart id s h st e = apart st (open_of id s h) e
  where
    apart :
        (st : IngestJobState)
        → (s.state ≡ created) ⊎ (s.state ≡ uploading)
        → s.state ≡ state_of st
        → ⊥
    apart queued o e = ground (arith, o, e)
    apart running o e = ground (arith, o, e)
    apart succeeded o e = ground (arith, o, e)
    apart IngestJobState.failed o e = ground (arith, o, e)

pub move_id : {F : Session → Session} → OpenMove F → (s : Session) → (F s).id ≡ s.id
move_id part s = refl
move_id (abort now) s = refl

pub move_state :
    {F : Session → Session}
    → OpenMove F
    → (id : Uuid) (s : Session) → mutable_session id s ≡ true
    → (F s).state ≡ ready
    → ⊥
move_state part id s h e = absurd (ground (arith, open_of id s h, e))
move_state (abort now) id s h e = absurd (cc (e))

-- Open sessions that move to a state other than ready keep the tables consistent.
pub open-IsConsistent :
    (db : UploadDb) (id : Uuid) (F : Session → Session)
    → ((s : Session) → (F s).id ≡ s.id)
    → ((s : Session) → mutable_session id s ≡ true → (F s).state ≡ ready → ⊥)
    → IsConsistent db
    → IsConsistent (record db { sessions = update_where (mutable_session id) F db.sessions })
open-IsConsistent db id F same apart w = record {
  sessions = IsDistinct-update_where session_id (mutable_session id) F db.sessions same w.sessions;
  jobs = w.jobs;
  uploads = w.uploads;
  attached = IsAttached-update_where (mutable_session id) F db.sessions db.jobs same w.attached;
  agreed =
      IsAgreed-update_where (mutable_session id) F db.sessions db.jobs same (open_apart id)
        w.agreed;
  backed =
      IsBacked-update_where db.blobs (mutable_session id) F db.sessions
        (λ s e r. absurd (apart s e r)) w.backed;
}

pub complete-IsConsistent :
    (db : UploadDb) (now : ℕ) (id : Uuid) (s : Session) (j : IngestJob)
    → find (mutable_session id) db.sessions ≡ some s
    → j.upload_id ≡ s.id
    → j.state ≡ queued
    → any (λ o. o.upload_id == s.id) db.jobs ≡ false
    → any (λ o. o.id == j.id) db.jobs ≡ false
    → IsConsistent db
    → IsConsistent (record db {
      sessions = update_where (mutable_session id) (now_completed now) db.sessions;
      jobs = j ∷ db.jobs;
    })
unfolding any mutable_session
complete-IsConsistent db now id s j found of_s is_queued free fresh w =
    let F = now_completed now in
    let p = mutable_session id in
    let moved = open-IsConsistent db id F (λ _. refl) (λ s _ e. cc (e)) w in
    let only = find-IsSole session_id p db.sessions w.sessions found in
    let (_, fit) =
      All-find (λ _. Unit {0}) p db.sessions (everywhere _ (λ _. tt) db.sessions) found in
    let known = find-any p db.sessions found in
    record {
      sessions = moved.sessions;
      jobs = (any-false (λ o. o.id == j.id) db.jobs fresh, w.jobs);
      uploads = (
        subst (λ n. All (λ o. (o.upload_id == n) ≡ false) db.jobs) (sym of_s)
            (any-false (λ o. o.upload_id == s.id) db.jobs free),
        w.uploads,
      );
      attached = (
        rw of_s (
            any-update_where (λ o. o.id == s.id) p F db.sessions (λ _. refl)
            ∙ any-map p (λ o. o.id == s.id) db.sessions (λ o t. ground (arith, fit, t)) known),
        moved.attached,
      );
      agreed =
          All-zip (λ o. Agrees o j) (λ o. All (Agrees o) db.jobs) (update_where p F db.sessions)
            (All-update_where (λ o. (o.id == s.id) ≡ true → o ≡ s) (λ o. Agrees o j) p F db.sessions
              (λ o _ _ _. rw is_queued refl)
              (λ o sole n t.
                let same : o ≡ s = sole (ground (arith, of_s, t)) in absurd (cc (same, n, fit)))
              only)
            moved.agreed;
      backed = moved.backed;
    }
