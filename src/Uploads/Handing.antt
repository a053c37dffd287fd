-- ===== src/Uploads/Handing.antt =====
-- A job and its session move together in internal/store/postgres/uploads/ingest.go, and the tables
-- stay consistent.
use imgsrv.Prelude.{
  ℕ, Bool, true, ◌&&◌, some, List, ◌≡◌, refl, sym, ap, subst, ◌==◌, ==_refl, inl, inr, str_eq,
  eq_iff, eqb_ℤ, eqb_ℤ_sound, any-map, All, All-map, All-update_where, All-find, everywhere, find,
  update_where, count_where, IsDistinct-update_where, find-IsSole, count_where-find, sole_tests,
  arith,
}
use imgsrv.Uploads.Domain.{SucceedIngestJobParams}
use imgsrv.Uploads.Tables.{Session, IngestJob, CasBlob, UploadDb}
use imgsrv.Uploads.Statements.{matches_blob, is_verified, now_ready}
use imgsrv.Uploads.Consistent.{
  state_of, has_session, backs, IsBacked, IsConsistent, IsAgreed-move, IsAttached-update_where,
  IsBacked-cons,
}
use imgsrv.Uploads.Change.{Hand, claim, succeed, fail, Change, insert, move, complete, hand}
use imgsrv.Uploads.Keeping.{
  IsBacked-update_where, insert-IsConsistent, open-IsConsistent, complete-IsConsistent, move_id,
  move_state,
}

abbrev session_id : Session → ℕ
session_id s = s.id

abbrev job_id : IngestJob → ℕ
job_id j = j.id

abbrev upload_of : IngestJob → ℕ
upload_of j = j.upload_id

-- What the three moves have in common.
record IsHand (db : UploadDb) (j : IngestJob) (P : Session → Bool) (F : Session → Session)
    (Q : IngestJob → Bool) (G : IngestJob → IngestJob) (blobs : List CasBlob) : Type 0 where
  same_session : (s : Session) → (F s).id ≡ s.id
  same_job : (o : IngestJob) → (G o).id ≡ o.id
  same_upload : (o : IngestJob) → (G o).upload_id ≡ o.upload_id
  at_session : (s : Session) → P s ≡ true → (s.id == j.upload_id) ≡ true
  at_job : (o : IngestJob) → Q o ≡ true → (o.id == j.id) ≡ true
  of_job : Q j ≡ true
  agree : (s : Session) (o : IngestJob) → (F s).state ≡ state_of (G o).state
  backed_after : (s : Session) → P s ≡ true → IsBacked blobs (F s)
  backed_still : (s : Session) → IsBacked db.blobs s → IsBacked blobs s

verified-IsBacked :
    (mid : UploadDb) (u now : ℕ) (p : SucceedIngestJobParams) (s : Session)
    → matches_blob mid u p s ≡ true
    → IsBacked mid.blobs (now_ready now p.digest s)
unfolding matches_blob is_verified
verified-IsBacked mid u now p s h r =
    let digest : s.expected_digest ≡ p.digest =
      (eq_iff s.expected_digest p.digest).0 (ground (arith, h)) in
    let size : s.expected_size_bytes ≡ p.size_bytes =
      eqb_ℤ_sound s.expected_size_bytes p.size_bytes (ground (arith, h)) in
    let verified : is_verified mid p.digest p.size_bytes ≡ true = ground (arith, h) in
    (
      ap some (sym digest),
      any-map (λ b. str_eq b.digest p.digest && eqb_ℤ b.size_bytes p.size_bytes)
          (backs (now_ready now p.digest s)) mid.blobs
          (λ b t. rw (digest, size) (ground (arith, t))) verified,
    )

at_upload :
    (mid : UploadDb) (u : ℕ) (p : SucceedIngestJobParams) (s : Session)
    → matches_blob mid u p s ≡ true
    → (s.id == u) ≡ true
unfolding matches_blob
at_upload mid u p s h = ground (arith, h)

hand_of :
    {db : UploadDb} {j : IngestJob} {P : Session → Bool} {F : Session → Session}
    {Q : IngestJob → Bool} {G : IngestJob → IngestJob} {blobs : List CasBlob}
    → Hand db j P F Q G blobs
    → IsHand db j P F Q G blobs
hand_of {db} {j} (claim now worker q) = record {
  same_session = λ _. refl;
  same_job = λ _. refl;
  same_upload = λ _. refl;
  at_session = λ s h. ground (arith, h);
  at_job = λ o h. h;
  of_job = ==_refl j.id;
  agree = λ _ _. refl;
  backed_after = λ s h r. cc (r);
  backed_still = λ s h. h;
}
hand_of {db} {j} (fail now id message r e) = record {
  same_session = λ _. refl;
  same_job = λ _. refl;
  same_upload = λ _. refl;
  at_session = λ s h. ground (arith, h);
  at_job = λ o h. ground (arith, e, h);
  of_job = rw (e, r, ==_refl j.id) refl;
  agree = λ _ _. refl;
  backed_after = λ s h r. cc (r);
  backed_still = λ s h. h;
}
hand_of {db} {j} (succeed now p mid r e grown) = record {
  same_session = λ _. refl;
  same_job = λ _. refl;
  same_upload = λ _. refl;
  at_session = λ s h. at_upload mid j.upload_id p s h;
  at_job = λ o h. ground (arith, e, h);
  of_job = rw (e, r, ==_refl j.id) refl;
  agree = λ _ _. refl;
  backed_after = λ s h. verified-IsBacked mid j.upload_id now p s h;
  backed_still = λ s h. elim grown [
    | inl same ↦ subst (λ bs. IsBacked bs s) (sym same) h
    | inr (b, more) ↦ subst (λ bs. IsBacked bs s) (sym more) (IsBacked-cons b db.blobs s h)
  ];
}

hand-IsConsistent :
    (db : UploadDb) (j : IngestJob) (P : Session → Bool) (F : Session → Session)
    (Q : IngestJob → Bool) (G : IngestJob → IngestJob) (blobs : List CasBlob)
    → Hand db j P F Q G blobs
    → All (λ o. (o.id == j.id) ≡ true → o ≡ j) db.jobs
    → find (λ o. o.id == j.id) db.jobs ≡ some j
    → count_where P db.sessions ≡ 1
    → IsConsistent db
    → IsConsistent (record db {
      sessions = update_where P F db.sessions;
      jobs = update_where Q G db.jobs;
      blobs = blobs;
    })
hand-IsConsistent db j P F Q G blobs step only found one w =
    let h = hand_of step in
    let (s, at_s) = count_where-find P db.sessions one in
    let fit =
      (All-find (λ _. Unit {0}) P db.sessions (everywhere _ (λ _. tt) db.sessions) at_s).1 in
    let sole = find-IsSole session_id P db.sessions w.sessions at_s in
    let s_upload = h.at_session s fit in
    let sessions_move =
      sole_tests P (λ o. o.id == j.upload_id) s db.sessions fit s_upload
        (All-map (λ o. (o.id == s.id) ≡ true → o ≡ s) _ db.sessions
          (λ o k t. k (ground (arith, h.at_session o t, s_upload))) sole)
        (All-map (λ o. (o.id == s.id) ≡ true → o ≡ s) _ db.sessions
          (λ o k t. k (ground (arith, t, s_upload))) sole) in
    let uploads_sole = find-IsSole upload_of (λ o. o.id == j.id) db.jobs w.uploads found in
    let jobs_move =
      sole_tests Q (λ o. o.upload_id == j.upload_id) j db.jobs h.of_job (==_refl j.upload_id)
        (All-map (λ o. (o.id == j.id) ≡ true → o ≡ j) _ db.jobs (λ o k t. k (h.at_job o t)) only)
        uploads_sole in
    record {
      sessions = IsDistinct-update_where session_id P F db.sessions h.same_session w.sessions;
      jobs = IsDistinct-update_where job_id Q G db.jobs h.same_job w.jobs;
      uploads = IsDistinct-update_where upload_of Q G db.jobs h.same_upload w.uploads;
      attached = IsAttached-update_where P F db.sessions (update_where Q G db.jobs) h.same_session (
          All-update_where (λ o. has_session db.sessions o.upload_id ≡ true) _ Q G db.jobs
            (λ o k _. rw (h.same_upload o) k) (λ o k _. k) w.attached);
      agreed =
          IsAgreed-move j.upload_id P F Q G db.sessions db.jobs h.same_session h.same_upload
            sessions_move jobs_move h.agree w.agreed;
      backed =
          IsBacked-update_where blobs P F db.sessions h.backed_after
            (All-map (IsBacked db.blobs) (IsBacked blobs) db.sessions h.backed_still w.backed);
    }

-- Each change keeps the tables consistent.
pub Change-IsConsistent : {db db' : UploadDb} → Change db db' → IsConsistent db → IsConsistent db'
Change-IsConsistent {db} (insert s fresh start e) w =
    subst IsConsistent (sym e) (insert-IsConsistent db s fresh start w)
Change-IsConsistent {db} (move id F parts m e) w =
    let v = open-IsConsistent db id F (move_id m) (λ s t. move_state m id s t) w in
    subst IsConsistent (sym e) (record {
      sessions = v.sessions;
      jobs = v.jobs;
      uploads = v.uploads;
      attached = v.attached;
      agreed = v.agreed;
      backed = v.backed;
    })
Change-IsConsistent {db} (complete now id s j found of_s q free fresh e) w =
    subst IsConsistent (sym e) (complete-IsConsistent db now id s j found of_s q free fresh w)
Change-IsConsistent {db} (hand j P F Q G blobs h only found one e) w =
    subst IsConsistent (sym e) (hand-IsConsistent db j P F Q G blobs h only found one w)
