-- ===== src/Staging/Begun.antt =====
-- What BeginUpload of internal/uploads/service.go has done when it succeeds.
use Prim.Native.String.{◌++◌}
use imgsrv.Prelude.{
  String, Bool, true, false, some, none, Option, ◌≡◌, refl, sym, ap, ◌∙◌, subst, ◌⊎◌, inl, inr,
  ◌==◌, eqb_ℤ, eqb_ℤ_sound, Bool-cases, Option-cases, Result-cases, Result, Error, errors_is, ok,
  err, arith, if◌then◌else◌, upload_not_found,
}
use imgsrv.Publish.Domain.{Uuid}
use imgsrv.Uploads.Domain.{ready, staging_key, validate_digest}
use imgsrv.Uploads.Tables.{Session, CasBlob}
use imgsrv.Uploads.Statements.{find_session, find_blob}
use imgsrv.Uploads.Sessions.{ready_session, create_ready_session, create_session, get_trusted_blob}
use imgsrv.Uploads.Rounds.{IsNew, get_session-create_session}
use imgsrv.Cas.World.{World, on_db, on_objects}
use imgsrv.Staging.Objects.{Service}
use imgsrv.Staging.Service.{
  BeginUploadParams, BeginUploadResult, validate_begin_upload_params, ready_params, session_params,
  for_blob, begin_ready_upload, after_create, begin_staged_upload, after_ready, begin_upload,
}
use imgsrv.Staging.Evidence.{bind-ok, get_session-ok}
use imgsrv.Staging.Known.{
  get_trusted_blob-some, get_trusted_blob-ok, ready_session-made, valid_digest,
}

module _ {O : Type 0} (sv : Service O) (p : BeginUploadParams) where
  -- The identity of the parameters, or a fresh one.
  abbrev pub chosen_id : Uuid
  chosen_id = if p.id == 0 then sv.fresh_id else p.id

  -- A session that is ready for a trusted blob of the declared digest and size; nothing is staged.
  pub record IsKnown (w after : World O) (r : BeginUploadResult) : Type 0 where
    pub not_created : r.was_created ≡ false
    pub trusts : sv.trusted ≡ true
    pub blob : CasBlob
    pub at_digest : find_blob w.db p.expected_digest ≡ some blob
    pub same_size : blob.size_bytes ≡ p.expected_size_bytes
    pub is_ready : r.session.state ≡ ready
    pub of_blob : r.session.ready_blob_digest ≡ some p.expected_digest
    pub of_digest : r.session.expected_digest ≡ p.expected_digest
    pub of_size : r.session.expected_size_bytes ≡ p.expected_size_bytes
    pub found : find_session after.db chosen_id ≡ some r.session
    pub unstaged : after.objects ≡ w.objects

  -- A new session, for the staged upload that the object store has created under its staging key.
  pub record IsStarted (w after : World O) (r : BeginUploadResult) : Type 0 where
    pub is_created : r.was_created ≡ true
    pub unknown : sv.trusted ≡ true → find_blob w.db p.expected_digest ≡ none
    pub upload : String
    pub staged :
        sv.staging.create_multipart_upload ("staging/uploads/" ++ sv.uuid_text chosen_id) w.objects
        ≡ (ok upload, after.objects)
    pub is_new : IsNew sv.uuid_text (session_params sv chosen_id upload p) r.session
    pub found : find_session after.db chosen_id ≡ some r.session

  after_create-ok :
      (key upload_id : String) (x : Result Session × World O) {r : BeginUploadResult}
      → (after_create sv key upload_id x).0 ≡ ok r
      → (x.0 ≡ ok r.session) × (r.was_created ≡ true) × ((after_create sv key upload_id x).1 ≡ x.1)
  unfolding after_create
  after_create-ok key upload_id (ok s, u) h = (ground (arith, h), ground (arith, h), refl)
  after_create-ok key upload_id (err e, u) h =
      elim (Result-cases (sv.staging.abort_multipart_upload key upload_id u.objects).0) [
        | inl (_, n) ↦ absurd (cc (rw (after_create, n) at h))
        | inr (x, n) ↦ absurd (cc (rw (after_create, n) at h))
      ]

  begin_staged_upload-IsStarted :
      (w v : World O) {r : BeginUploadResult}
      → (sv.trusted ≡ true → find_blob w.db p.expected_digest ≡ none)
      → v.objects ≡ w.objects
      → (begin_staged_upload sv chosen_id p v).0 ≡ ok r
      → IsStarted w (begin_staged_upload sv chosen_id p v).1 r
  unfolding begin_staged_upload staging_key
  begin_staged_upload-IsStarted w v {r} unknown objects h =
      let key = staging_key sv.uuid_text chosen_id in
      let step = on_objects (sv.staging.create_multipart_upload key) v in
      let params = session_params sv chosen_id in
      let rest = λ (upload_id : String) (u : World O).
        after_create sv key upload_id
          (on_db (create_session sv.uuid_text sv.now (params upload_id p)) u) in
      let (upload, good, same) = bind-ok step rest h in
      let create = on_db (create_session sv.uuid_text sv.now (params upload p)) step.1 in
      let (made, is_created, last) =
        after_create-ok key upload create (sym (ap (λ x. x.0) same) ∙ h) in
      let (_, is_new, read, _) =
        get_session-create_session sv.uuid_text sv.now (params upload p) step.1.db made in
      subst (λ (x : World O). IsStarted w x r) (sym (ap (λ x. x.1) same ∙ last))
        (record {
          is_created = is_created;
          unknown = unknown;
          upload = upload;
          staged =
              ap (sv.staging.create_multipart_upload key) (sym objects)
              ∙ ap (λ x. (x, step.1.objects)) good;
          is_new = is_new;
          found = (get_session-ok chosen_id create.1.db (ap (λ x. x.0) read)).0;
        })

  known :
      (w v : World O) (blob : CasBlob) {o : Option Session}
      → sv.trusted ≡ true
      → find_blob w.db p.expected_digest ≡ some blob
      → v.objects ≡ w.objects
      → (for_blob sv chosen_id p (ok blob, v)).0 ≡ ok o
      → (s : Session) × (o ≡ some s)
        × IsKnown w
            (for_blob sv chosen_id p (ok blob, v)).1
            (record { session = s; was_created = false })
  unfolding for_blob ready_session
  known w v blob {o} trusts at_blob objects h =
      elim (Bool-cases (eqb_ℤ blob.size_bytes p.expected_size_bytes)) [
        | inr n ↦ absurd (cc (rw (for_blob, n) at h))
        | inl t ↦
            let params = ready_params sv chosen_id p in
            let create = on_db (create_ready_session sv.uuid_text sv.now params) v in
            let h2 = rw (for_blob, t) at h in
            let (s, good, same) = bind-ok create (λ s u. (ok (some s), u)) h2 in
            let (made, there) = ready_session-made sv.uuid_text sv.now params v.db good in
            (
              s,
              ground (arith, sym (ap (λ r. r.0) same) ∙ h2),
              rw (for_blob, t)
                  (subst
                    (λ (r : Result (Option Session) × World O).
                      IsKnown w r.1 (record { session = s; was_created = false }))
                    (sym same)
                    (record {
                      not_created = refl;
                      trusts = trusts;
                      blob = blob;
                      at_digest = at_blob;
                      same_size = eqb_ℤ_sound blob.size_bytes p.expected_size_bytes t;
                      is_ready = ap (λ (x : Session). x.state) made;
                      of_blob = ap (λ (x : Session). x.ready_blob_digest) made;
                      of_digest = ap (λ (x : Session). x.expected_digest) made;
                      of_size = ap (λ (x : Session). x.expected_size_bytes) made;
                      found = there;
                      unstaged = objects;
                    })),
            )
      ]

  abbrev pub IsBegun : World O → World O → BeginUploadResult → Type 0
  IsBegun w after r = IsKnown w after r ⊎ IsStarted w after r

  finished :
      (w : World O) (y : Result (Option Session) × World O) {r : BeginUploadResult}
      → ((o : Option Session)
          → y.0 ≡ ok o
          → (s : Session) × (o ≡ some s)
            × IsKnown w y.1 (record { session = s; was_created = false }))
      → (after_ready sv chosen_id p y).0 ≡ ok r
      → IsKnown w (after_ready sv chosen_id p y).1 r
  unfolding after_ready
  finished w (err e, v) k h = absurd (cc)
  finished w (ok none, v) k h = let (s, e, _) = k none refl in absurd (cc (e))
  finished w (ok (some t), v) {r} k h =
      let (s, e, made) = k (some t) refl in subst (IsKnown w v) (result s t r e h) made
    where
      result :
          (s t : Session) (r : BeginUploadResult)
          → some t ≡ some s
          → ◌≡◌ {A = Result BeginUploadResult}
              (ok (record { session = t; was_created = false }))
              (ok r)
          → ◌≡◌ {A = BeginUploadResult} (record { session = s; was_created = false }) r
      result s t r e h = ground (arith, e, h)

  looked :
      (w : World O) (x : Result CasBlob × World O) {r : BeginUploadResult}
      → sv.trusted ≡ true
      → x.1.objects ≡ w.objects
      → ((b : CasBlob) → x.0 ≡ ok b → find_blob w.db p.expected_digest ≡ some b)
      → ((e : Error) → x.0 ≡ err e → find_blob w.db p.expected_digest ≡ none)
      → (after_ready sv chosen_id p (for_blob sv chosen_id p x)).0 ≡ ok r
      → IsBegun w (after_ready sv chosen_id p (for_blob sv chosen_id p x)).1 r
  unfolding for_blob after_ready
  looked w (ok b, v) trusts objects there gone h = inl (
      finished w (for_blob sv chosen_id p (ok b, v))
        (λ o e. known w v b trusts (there b refl) objects e) h)
  looked w (err e, v) trusts objects there gone h =
      elim (Bool-cases (errors_is e upload_not_found)) [
        | inr n ↦ absurd (cc (rw (for_blob, after_ready, n) at h))
        | inl t ↦
            rw (for_blob, t)
              (inr (
                begin_staged_upload-IsStarted w v (λ _. gone e refl) objects
                  (rw (for_blob, t) at h)))
      ]

  begin_ready-IsBegun :
      (w : World O) {r : BeginUploadResult}
      → validate_digest p.expected_digest ≡ ok tt
      → (after_ready sv chosen_id p (begin_ready_upload sv chosen_id p w)).0 ≡ ok r
      → IsBegun w (after_ready sv chosen_id p (begin_ready_upload sv chosen_id p w)).1 r
  unfolding begin_ready_upload after_ready
  begin_ready-IsBegun w {r} fine h =
      let x = on_db (get_trusted_blob p.expected_digest) w in
      let choice = λ (b : Bool). if b then for_blob sv chosen_id p x else (ok none, w) in
      let after = λ (y : Result (Option Session) × World O). after_ready sv chosen_id p y in
      elim (Bool-cases sv.trusted) [
        | inr n ↦
            subst (λ y. IsBegun w (after y).1 r) (sym (ap choice n))
              (inr (
                begin_staged_upload-IsStarted w w (λ t. absurd (cc (n, t))) refl
                  (ap (λ y. (after y).0) (sym (ap choice n)) ∙ h)))
        | inl t ↦
            subst (λ y. IsBegun w (after y).1 r) (sym (ap choice t))
              (looked w x t refl (λ b e. get_trusted_blob-ok p.expected_digest w.db fine e)
                (λ e n. nothing e n) (ap (λ y. (after y).0) (sym (ap choice t)) ∙ h))
      ]
    where
      nothing :
          (e : Error)
          → (get_trusted_blob p.expected_digest w.db).0 ≡ err e
          → find_blob w.db p.expected_digest ≡ none
      nothing e n = elim (Option-cases (find_blob w.db p.expected_digest)) [
        | inl f ↦ f
        | inr (b, f) ↦
            let good = get_trusted_blob-some p.expected_digest w.db fine f in absurd (cc (good, n))
      ]

  -- A call of BeginUpload that succeeds either has found a trusted blob of the declared digest and size, and
  -- returns a session that is ready for it, without asking the object store for anything; or no trusted blob
  -- of the digest is there, or none is looked for, the object store has created a multipart upload under the
  -- staging key of the identity, and a new session is returned for it. The session is then in the tables.
  pub begin_upload-IsBegun :
      (w : World O) {r : BeginUploadResult}
      → (begin_upload sv p w).0 ≡ ok r
      → IsBegun w (begin_upload sv p w).1 r
  unfolding begin_upload
  begin_upload-IsBegun w h = elim (Result-cases (validate_begin_upload_params sv.clock p)) [
    | inr (e, n) ↦ absurd (cc (rw (begin_upload, n) at h))
    | inl (tt, n) ↦
        rw (begin_upload, n)
          (begin_ready-IsBegun w (valid_digest sv.clock p n) (rw (begin_upload, n) at h))
  ]
