-- ===== src/Staging/Evidence.antt =====
-- What CompleteUpload of internal/uploads/service.go has seen when it succeeds.
use imgsrv.Prelude.{
  true, List, ◌≡◌, refl, sym, subst, ap, ◌∙◌, ◌⊎◌, inl, inr, ℤ, pos, eqb_ℤ, eqb_ℤ_sound, Bool-cases,
  Option-cases, Result-cases, Result, Error, errors_is, ok, err, some, object_not_found, validated,
  transact, row, arith,
}
use imgsrv.Publish.Domain.{Uuid}
use imgsrv.Uploads.Domain.{validate_upload_id}
use imgsrv.Uploads.Tables.{Session, UploadDb}
use imgsrv.Uploads.Statements.{find_session, accepts_parts}
use imgsrv.Uploads.Sessions.{get_session}
use imgsrv.Multipart.Parts.{CompletePart, normalize_complete_parts}
use imgsrv.Cas.Objects.{ObjectInfo}
use imgsrv.Cas.World.{World, bind, on_db, on_objects}
use imgsrv.Staging.Objects.{Service}
use imgsrv.Staging.Service.{
  upload_expired, should_return_completed_session, total_size, normalize_complete_upload_parts,
  recover_completed_staged_object,
}
use imgsrv.Staging.Completion.{
  expired_outcome, completed_outcome, after_complete, complete_sized, complete_found,
  complete_upload,
}

-- A chain that succeeds has a first step that does.
pub bind-ok :
    {O A B : Type 0} (r : Result A × World O) (f : A → World O → Result B × World O) {b : B}
    → (bind r f).0 ≡ ok b
    → (a : A) × (r.0 ≡ ok a) × (bind r f ≡ f a r.1)
bind-ok (ok a, w) f h = (a, refl, refl)
bind-ok (err e, w) f h = absurd (cc)

-- GetSession finds a row and leaves the database.
pub get_session-ok :
    (id : Uuid) (db : UploadDb) {s : Session}
    → (get_session id db).0 ≡ ok s
    → (find_session db id ≡ some s) × ((get_session id db).1 ≡ db)
unfolding get_session
get_session-ok id db {s} h = elim (Result-cases (validate_upload_id id)) [
  | inr (e, n) ↦ absurd (cc (rw (get_session, n) at h))
  | inl (_, n) ↦ elim (Option-cases (find_session db id)) [
    | inl f ↦ absurd (cc (rw (get_session, n, validated, transact, row, f) at h))
    | inr (x, f) ↦ (
      f ∙ ground (arith, rw (get_session, n, validated, transact, row, f) at h),
      rw (get_session, n, validated, transact, row, f) refl,
    )
  ]
]

module _ {O : Type 0} (sv : Service O) where
  -- The store finds an object of the declared size under the staging key.
  abbrev pub IsStaged : Session → O → Type 0
  IsStaged s o =
      (info : ObjectInfo) × ((sv.staging.stat_staged_object s.staging_key o).0 ≡ ok info)
      × (info.size_bytes ≡ s.expected_size_bytes)

  -- The store completes the staged upload, or finds an object of the declared size, before that call or after.
  abbrev pub IsAssembled : Session → List CompletePart → O → Type 0
  IsAssembled s parts o =
      let r = sv.staging.complete_multipart_upload s.staging_key s.storage_upload_id parts o in
      ((info : ObjectInfo) × (r.0 ≡ ok info)) ⊎ (IsStaged s o ⊎ IsStaged s r.1)

  recover-IsStaged :
      (s : Session) (w : World O) {t : Session}
      → (recover_completed_staged_object sv s w).0 ≡ ok t
      → IsStaged s w.objects
  unfolding recover_completed_staged_object
  recover-IsStaged s w h =
      let (info, at_info, same) =
        bind-ok (on_objects (sv.staging.stat_staged_object s.staging_key) w) _ h in
      elim (Bool-cases (eqb_ℤ info.size_bytes s.expected_size_bytes)) [
        | inl t ↦ (info, at_info, eqb_ℤ_sound info.size_bytes s.expected_size_bytes t)
        | inr n ↦ absurd (cc (rw (recover_completed_staged_object, same, n) at h))
      ]

  expired-ok :
      (x : Result Session × World O) {t : Session} → (expired_outcome sv x).0 ≡ ok t → x.0 ≡ ok t
  expired-ok (ok s, w) h = h
  expired-ok (err e, w) h = absurd (cc)

  completed-ok :
      (e : Error) (x : Result Session × World O) {t : Session}
      → (completed_outcome sv e x).0 ≡ ok t
      → x.0 ≡ ok t
  completed-ok e (ok s, w) h = h
  completed-ok e (err x, w) h = absurd (cc)

  after_complete-IsAssembled :
      (id : Uuid) (s : Session) (parts : List CompletePart) (o : O)
      (x : Result ObjectInfo × World O) {t : Session}
      → (x.0, x.1.objects)
        ≡ sv.staging.complete_multipart_upload s.staging_key s.storage_upload_id parts o
      → (after_complete sv id s x).0 ≡ ok t
      → IsAssembled s parts o
  unfolding after_complete
  after_complete-IsAssembled id s parts o (ok info, w) e h = inl (info, sym (ap (λ r. r.0) e))
  after_complete-IsAssembled id s parts o (err x, w) e h =
      elim (Bool-cases (errors_is x object_not_found)) [
        | inl t ↦ inr (
            inr (
              subst (IsStaged s) (ap (λ r. r.1) e) (
                recover-IsStaged s w (
                  completed-ok x (recover_completed_staged_object sv s w)
                    (rw (after_complete, t) at h)))))
        | inr n ↦ absurd (cc (rw (after_complete, n) at h))
      ]

  complete_sized-IsAssembled :
      (id : Uuid) (s : Session) (parts : List CompletePart) (size : ℤ) (w : World O) {t : Session}
      → (complete_sized sv id s (parts, size) w).0 ≡ ok t
      → (size ≡ s.expected_size_bytes) × IsAssembled s parts w.objects
  unfolding complete_sized
  complete_sized-IsAssembled id s parts size w h =
      elim (Bool-cases (eqb_ℤ size s.expected_size_bytes)) [
        | inr n ↦ absurd (cc (rw (complete_sized, n) at h))
        | inl t ↦ (
          eqb_ℤ_sound size s.expected_size_bytes t,
          elim (Bool-cases (upload_expired sv.clock s)) [
            | inl late ↦ inr (
                inl (
                  recover-IsStaged s w (
                    expired-ok (recover_completed_staged_object sv s w)
                      (rw (complete_sized, t, late) at h))))
            | inr open_still ↦
                after_complete-IsAssembled id s parts w.objects
                  (on_objects
                    (sv.staging.complete_multipart_upload s.staging_key s.storage_upload_id parts)
                    w)
                  refl (rw (complete_sized, t, open_still) at h)
          ],
        )
      ]

  -- What CompleteUpload has seen of the session `s` when it returns `t`.
  abbrev pub Evidence : Uuid → List CompletePart → World O → Session → Session → Type 0
  Evidence id parts w s t =
      ((should_return_completed_session s.state ≡ true) × (s ≡ t))
      ⊎ ((accepts_parts s.state ≡ true)
          × (sorted : List CompletePart) × (normalize_complete_parts parts ≡ ok sorted)
          × (total_size (pos 0) sorted ≡ s.expected_size_bytes)
          × IsAssembled s sorted w.objects)

  complete_found-Evidence :
      (id : Uuid) (parts : List CompletePart) (w v : World O) (s : Session) {t : Session}
      → v.objects ≡ w.objects
      → (complete_found sv id parts s v).0 ≡ ok t
      → Evidence id parts w s t
  unfolding complete_found normalize_complete_upload_parts
  complete_found-Evidence id parts w v s {t} same h =
      elim (Bool-cases (should_return_completed_session s.state)) [
        | inl done ↦ inl (done, ground (arith, rw (complete_found, done) at h))
        | inr not_done ↦ elim (Bool-cases (accepts_parts s.state)) [
          | inr shut ↦ absurd (cc (rw (complete_found, not_done, shut) at h))
          | inl open_still ↦ elim (Result-cases (normalize_complete_parts parts)) [
            | inr (e, n) ↦ absurd (
                cc (
                  rw (complete_found, not_done, open_still, normalize_complete_upload_parts, n) at
                    h))
            | inl (sorted, n) ↦
                let (size, staged) =
                  complete_sized-IsAssembled id s sorted (total_size (pos 0) sorted) v (
                    rw (complete_found, not_done, open_still, normalize_complete_upload_parts, n) at
                      h) in
                inr (open_still, sorted, n, size, subst (IsAssembled s sorted) same staged)
          ]
        ]
      ]

  -- A call of CompleteUpload that succeeds has found the session, and either returns it as it is, completed,
  -- ingesting or ready, or the session was open, the parts are accepted and their sizes add up to the declared
  -- size, and the store has completed the staged upload or has found an object of the declared size under the
  -- staging key, before or after it was asked to complete it.
  pub complete_upload-Evidence :
      (id : Uuid) (parts : List CompletePart) (w : World O) {t : Session}
      → (complete_upload sv id parts w).0 ≡ ok t
      → (s : Session) × (find_session w.db id ≡ some s) × Evidence id parts w s t
  unfolding complete_upload
  complete_upload-Evidence id parts w h = elim (Result-cases (validate_upload_id id)) [
    | inr (e, n) ↦ absurd (cc (rw (complete_upload, n) at h))
    | inl (u, n) ↦
        let h2 = rw (complete_upload, n) at h in
        let (s, at_s, same) = bind-ok (on_db (get_session id) w) (complete_found sv id parts) h2 in
        (
          s,
          (get_session-ok id w.db at_s).0,
          complete_found-Evidence id parts w (on_db (get_session id) w).1 s refl
              (sym (ap (λ r. r.0) same) ∙ h2),
        )
  ]
