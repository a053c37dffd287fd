-- ===== src/Uploads/Readied.antt =====
-- What SucceedIngestJob of internal/store/postgres/uploads/ingest.go leaves when it succeeds.
use imgsrv.Prelude.{
  String, true, some, ◌≡◌, refl, sym, subst, ap, ◌∙◌, ◌==◌, ==_iff, ◌&&◌, ℤ, eqb_ℤ, eqb_ℤ_sound,
  str_eq, eq_iff, any, find, find-update_where, update_where, All-find, IsDistinct, IsSole,
  IsDistinct-IsSole, find-by_key, count_where-find, ok, bind-elim, validated-transact-ok, arith,
}
use imgsrv.Publish.Domain.{Uuid, Time}
use imgsrv.Uploads.Domain.{
  ready, succeeded, SucceedIngestJobParams, validate_succeed_ingest_job_params,
}
use imgsrv.Uploads.Tables.{Session, IngestJob, UploadDb, map_upload_error}
use imgsrv.Uploads.Statements.{
  find_session, find_ingest_job, lock_running_job, ensure_cas_blob, matches_blob, is_verified,
  now_ready, mark_session_ready, running_job, succeeded_job, mark_job_succeeded,
}
use imgsrv.Uploads.Ingest.{succeed_ingest_tx, succeed_ingest_job}
use imgsrv.Uploads.Outcomes.{require_one-ok, update_job-ok, lock_running_job-ok, ensure_cas_blob-ok}
use imgsrv.Uploads.Consistent.{IsConsistent}

-- The job has succeeded with the blob, its session declared the blob and is ready for it, and a blob of
-- that digest and size is trusted.
pub record IsReadied (id : Uuid) (digest : String) (size : ℤ) (a : IngestJob) (db : UploadDb)
    : Type 0 where
  pub job_id : a.id ≡ id
  pub has_succeeded : a.state ≡ succeeded
  pub with_blob : a.blob_digest ≡ some digest
  pub job_found : find_ingest_job db id ≡ some a
  pub session : Session
  pub session_found : find_session db a.upload_id ≡ some session
  pub is_ready : session.state ≡ ready
  pub for_blob : session.ready_blob_digest ≡ some digest
  pub declared_digest : session.expected_digest ≡ digest
  pub declared_size : session.expected_size_bytes ≡ size
  pub trusted : any (λ b. str_eq b.digest digest && eqb_ℤ b.size_bytes size) db.blobs ≡ true

-- What the statement on the session has found and written.
module _ (mid : UploadDb) (upload : Uuid) (now : Time) (p : SucceedIngestJobParams)
    (distinct : IsDistinct (λ (s : Session). s.id) mid.sessions) where
  session_readied :
      {u : Unit {0}} {mid2 : UploadDb}
      → mark_session_ready now upload p mid ≡ ok (u, mid2)
      → (t : Session) × (find (λ o. o.id == upload) mid2.sessions ≡ some t)
        × (t.state ≡ ready)
        × (t.ready_blob_digest ≡ some p.digest)
        × (t.expected_digest ≡ p.digest)
        × (t.expected_size_bytes ≡ p.size_bytes)
        × (any (λ b. str_eq b.digest p.digest && eqb_ℤ b.size_bytes p.size_bytes) mid.blobs ≡ true)
        × (mid2 ≡ record mid {
          sessions = update_where (matches_blob mid upload p) (now_ready now p.digest) mid.sessions;
        })
  unfolding mark_session_ready matches_blob is_verified
  session_readied h =
      let (one, written) =
        require_one-ok (matches_blob mid upload p) (now_ready now p.digest) mid h in
      let (s, at_s) = count_where-find (matches_blob mid upload p) mid.sessions one in
      let (sole, fit) =
        All-find (IsSole (λ (o : Session). o.id) mid.sessions) (matches_blob mid upload p)
          mid.sessions (IsDistinct-IsSole (λ (o : Session). o.id) mid.sessions distinct) at_s in
      let same : s.id ≡ upload = (==_iff s.id upload).0 (ground (arith, fit)) in
      let by_id =
        find-by_key (λ (o : Session). o.id) (matches_blob mid upload p) mid.sessions sole at_s in
      let moved =
        find-update_where (λ (o : Session). o.id == s.id) (matches_blob mid upload p)
          (now_ready now p.digest) mid.sessions (λ _. refl) by_id in
      (
        now_ready now p.digest s,
        ap (λ (d : UploadDb). find (λ o. o.id == upload) d.sessions) written
            ∙ subst
                (λ n.
                  find (λ o. o.id == n)
                    (update_where (matches_blob mid upload p) (now_ready now p.digest) mid.sessions)
                  ≡ some (now_ready now p.digest s))
                same (rw (matches_blob, fit) at moved),
        refl,
        refl,
        (eq_iff s.expected_digest p.digest).0 (ground (arith, fit)),
        eqb_ℤ_sound s.expected_size_bytes p.size_bytes (ground (arith, fit)),
        ground (arith, fit),
        written,
      )

-- What the statement on the job has found and written.
module _ (mid : UploadDb) (id : Uuid) (now : Time) (digest : String)
    (distinct : IsDistinct (λ (j : IngestJob). j.id) mid.jobs) where
  job_succeeded :
      {j a : IngestJob} {db' : UploadDb}
      → find (λ o. o.id == id) mid.jobs ≡ some j
      → mark_job_succeeded now id digest mid ≡ ok (a, db')
      → (a ≡ succeeded_job now digest j)
        × (j.id ≡ id)
        × (find (λ o. o.id == id) db'.jobs ≡ some a)
        × (db'.sessions ≡ mid.sessions)
        × (db'.blobs ≡ mid.blobs)
  unfolding mark_job_succeeded
  job_succeeded {j} {a} {db'} found h =
      let (x, at_x, made, written) =
        update_job-ok (running_job id) (succeeded_job now digest) mid h in
      let (sole, at_id) =
        All-find (IsSole (λ (o : IngestJob). o.id) mid.jobs) (λ o. o.id == id) mid.jobs
          (IsDistinct-IsSole (λ (o : IngestJob). o.id) mid.jobs distinct) found in
      let named : j.id ≡ id = (==_iff j.id id).0 at_id in
      let (only, fit) =
        All-find (λ (o : IngestJob). (o.id == j.id) ≡ true → o ≡ j) (running_job id) mid.jobs sole
          at_x in
      let x_named : x.id ≡ id = (==_iff x.id id).0 (ground (arith, fit)) in
      let same : x ≡ j = only ((==_iff x.id j.id).1 (x_named ∙ sym named)) in
      let at_j : running_job id j ≡ true = subst (λ o. running_job id o ≡ true) same fit in
      let moved =
        find-update_where (λ (o : IngestJob). o.id == id) (running_job id)
          (succeeded_job now digest) mid.jobs (λ _. refl) found in
      let is_made = made ∙ ap (succeeded_job now digest) same in
      (
        is_made,
        named,
        ap (λ (d : UploadDb). find (λ o. o.id == id) d.jobs) written
            ∙ (rw at_j at moved)
            ∙ ap some (sym is_made),
        ap (λ (d : UploadDb). d.sessions) written,
        ap (λ (d : UploadDb). d.blobs) written,
      )

pub succeed_ingest_job-IsReadied :
    (now : Time) (p : SucceedIngestJobParams) (db : UploadDb) {a : IngestJob}
    → IsConsistent db
    → (succeed_ingest_job now p db).0 ≡ ok a
    → IsReadied p.id p.digest p.size_bytes a (succeed_ingest_job now p db).1
unfolding succeed_ingest_job succeed_ingest_tx find_session find_ingest_job
succeed_ingest_job-IsReadied now p db {a} w h =
    let (_, done) =
      validated-transact-ok (validate_succeed_ingest_job_params p) map_upload_error
        (succeed_ingest_tx now p) db h in
    bind-elim (lock_running_job p.id) _ db done (λ j mid0 first h1.
      let (found, _, same) = lock_running_job-ok p.id db first in
      bind-elim (ensure_cas_blob now p) _ mid0 h1 (λ _ mid second h2.
        let (_, blobs_only) = ensure_cas_blob-ok now p mid0 second in
        let sessions : mid.sessions ≡ db.sessions =
          ap (λ (d : UploadDb). d.sessions) blobs_only ∙ ap (λ (d : UploadDb). d.sessions) same in
        let jobs : mid.jobs ≡ db.jobs =
          ap (λ (d : UploadDb). d.jobs) blobs_only ∙ ap (λ (d : UploadDb). d.jobs) same in
        bind-elim (mark_session_ready now j.upload_id p) _ mid h2 (λ _ mid2 third h3.
          let (t, at_t, is_ready, for_blob, of_digest, of_size, known, written) =
            session_readied mid j.upload_id now p
              (subst (IsDistinct (λ (s : Session). s.id)) (sym sessions) w.sessions) third in
          let jobs2 : mid2.jobs ≡ db.jobs = ap (λ (d : UploadDb). d.jobs) written ∙ jobs in
          let blobs2 : mid2.blobs ≡ mid.blobs = ap (λ (d : UploadDb). d.blobs) written in
          let (made, named, at_a, sessions3, blobs3) =
            job_succeeded mid2 p.id now p.digest
              (subst (IsDistinct (λ (o : IngestJob). o.id)) (sym jobs2) w.jobs)
              (ap (find (λ (o : IngestJob). o.id == p.id)) jobs2 ∙ found) h3 in
          record {
            job_id = ap (λ (o : IngestJob). o.id) made ∙ named;
            has_succeeded = ap (λ (o : IngestJob). o.state) made;
            with_blob = ap (λ (o : IngestJob). o.blob_digest) made;
            job_found = at_a;
            session = t;
            session_found =
                subst
                  (λ n.
                    find (λ (o : Session). o.id == n) (succeed_ingest_job now p db).1.sessions
                    ≡ some t)
                  (sym (ap (λ (o : IngestJob). o.upload_id) made))
                  (ap (find (λ (o : Session). o.id == j.upload_id)) sessions3 ∙ at_t);
            is_ready = is_ready;
            for_blob = for_blob;
            declared_digest = of_digest;
            declared_size = of_size;
            trusted =
                ap (any (λ b. str_eq b.digest p.digest && eqb_ℤ b.size_bytes p.size_bytes))
                  (blobs3 ∙ blobs2)
                ∙ known;
          })))
