-- ===== src/Staging/Once.antt =====
-- What a call of internal/uploads/service.go leaves in the database: nothing, or what one call of the store
-- has written, if it succeeds.
use imgsrv.Prelude.{
  String, Bool, true, false, Option, Option-cases, row, ◌≡◌, refl, ap, ◌⊎◌, inl, inr, if◌then◌else◌,
  Result, Error, ok, err, transact, transact-cases, ◌∙◌,
}
use imgsrv.Publish.Domain.{Uuid, Time}
use imgsrv.Uploads.Domain.{
  CreateSessionParams, CreateReadySessionParams, PutPartParams, validate_create_session_params,
  validate_create_ready_session_params, validate_put_part_params, validate_upload_id,
  validate_digest,
}
use imgsrv.Uploads.Tables.{UploadDb, Tx, call, map_upload_error}
use imgsrv.Uploads.Statements.{find_session, find_blob, insert_session}
use imgsrv.Uploads.Sessions.{
  create_session, create_ready_session, get_session, put_part, put_part_tx, complete_session,
  complete_session_tx, abort_session, abort_session_tx, created_session, ready_session,
  get_trusted_blob,
}
use imgsrv.Uploads.Calls.{Op, create, create_ready, put, complete, abort, apply}
use imgsrv.Cas.World.{World, bind, on_db}

-- A call that fails leaves the database.
pub call-kept :
    {A : Type 0} (check : Result (Unit {0})) (m : Tx A) (db : UploadDb)
    → ((call check m db).1 ≡ db) ⊎ ((a : A) × ((call check m db).0 ≡ ok a))
call-kept (err e) m db = inl refl
call-kept (ok _) m db = elim (transact-cases map_upload_error m db) [
  | inl (a, _, e) ↦ inr (a, e)
  | inr (_, _, e) ↦ inl (ap (λ r. r.1) e)
]

-- A query of one row leaves the database.
row-kept :
    {A : Type 0} (check : Result (Unit {0})) (f : UploadDb → Option A) (db : UploadDb)
    → (call check (row f) db).1 ≡ db
row-kept (err e) f db = refl
row-kept (ok _) f db = elim (Option-cases (f db)) [
  | inl e ↦ rw (transact, row, e) refl
  | inr (x, e) ↦ rw (transact, row, e) refl
]

pub get_session-keeps : (id : Uuid) (db : UploadDb) → (get_session id db).1 ≡ db
unfolding get_session
get_session-keeps id = row-kept (validate_upload_id id) (λ db. find_session db id)

pub get_trusted_blob-keeps : (digest : String) (db : UploadDb) → (get_trusted_blob digest db).1 ≡ db
unfolding get_trusted_blob
get_trusted_blob-keeps digest = row-kept (validate_digest digest) (λ db. find_blob db digest)

module _ {O : Type 0} (uuid_text : Uuid → String) where
  abbrev pub Once : {A : Type 0} → UploadDb → Result A × World O → Type 0
  Once {A} db r =
      (r.1.db ≡ db) ⊎ ((a : A) × (r.0 ≡ ok a) × (op : Op) × (r.1.db ≡ apply uuid_text op db))

  -- A failure leaves the database.
  pub Once-err :
      {A : Type 0} (db : UploadDb) (r : Result A × World O) {e : Error}
      → Once db r
      → r.0 ≡ err e
      → r.1.db ≡ db
  Once-err db r (inl same) h = same
  Once-err db r (inr (a, good, op, _)) h = absurd (cc)

  pub if-Once :
      {A : Type 0} (db : UploadDb) (b : Bool) (x y : Result A × World O)
      → Once db x
      → Once db y
      → Once db (if b then x else y)
  if-Once db true x y h k = h
  if-Once db false x y h k = k

  -- A step that leaves the database, and then another.
  pub bind-Once :
      {A B : Type 0} (db : UploadDb) (r : Result A × World O) (f : A → World O → Result B × World O)
      → r.1.db ≡ db
      → ((a : A) (v : World O) → v.db ≡ db → Once db (f a v))
      → Once db (bind r f)
  bind-Once db (ok a, v) f same h = h a v same
  bind-Once db (err e, v) f same h = inl same

  -- A result that is only renamed.
  pub map-Once :
      {A B : Type 0} (db : UploadDb) (r : Result A × World O) (g : A → B)
      → Once db r
      → Once db (bind r (λ a v. (ok (g a), v)))
  map-Once db (ok a, v) g (inl same) = inl same
  map-Once db (ok a, v) g (inr (b, _, op, same)) = inr (g a, refl, op, same)
  map-Once db (err e, v) g (inl same) = inl same
  map-Once db (err e, v) g (inr (b, good, op, same)) = absurd (cc)

  on_db-Once :
      {A : Type 0} (check : Result (Unit {0})) (m : Tx A) (op : Op) (db : UploadDb) (w : World O)
      → (call check m w.db).1 ≡ apply uuid_text op w.db
      → w.db ≡ db
      → Once db (on_db (call check m) w)
  on_db-Once check m op db w writes same = elim (call-kept check m w.db) [
    | inl kept ↦ inl (kept ∙ same)
    | inr (a, good) ↦ inr (a, good, op, writes ∙ ap (apply uuid_text op) same)
  ]

  pub create_session-Once :
      (now : Time) (p : CreateSessionParams) (db : UploadDb) (w : World O)
      → w.db ≡ db
      → Once db (on_db (create_session uuid_text now p) w)
  unfolding create_session apply
  create_session-Once now p db w =
      on_db-Once (validate_create_session_params p)
        (insert_session now (created_session uuid_text p)) (create now p) db w refl

  pub create_ready_session-Once :
      (now : Time) (p : CreateReadySessionParams) (db : UploadDb) (w : World O)
      → w.db ≡ db
      → Once db (on_db (create_ready_session uuid_text now p) w)
  unfolding create_ready_session apply
  create_ready_session-Once now p db w =
      on_db-Once (validate_create_ready_session_params p)
        (insert_session now (ready_session uuid_text now p)) (create_ready now p) db w refl

  pub put_part-Once :
      (p : PutPartParams) (db : UploadDb) (w : World O) → w.db ≡ db → Once db (on_db (put_part p) w)
  unfolding put_part apply
  put_part-Once p db w = on_db-Once (validate_put_part_params p) (put_part_tx p) (put p) db w refl

  pub complete_session-Once :
      (now : Time) (job_id id : Uuid) (db : UploadDb) (w : World O)
      → w.db ≡ db
      → Once db (on_db (complete_session now job_id id) w)
  unfolding complete_session apply
  complete_session-Once now job_id id db w =
      on_db-Once (validate_upload_id id) (complete_session_tx now job_id id)
        (complete now job_id id) db w refl

  pub abort_session-Once :
      (now : Time) (id : Uuid) (db : UploadDb) (w : World O)
      → w.db ≡ db
      → Once db (on_db (abort_session now id) w)
  unfolding abort_session apply
  abort_session-Once now id db w =
      on_db-Once (validate_upload_id id) (abort_session_tx now id) (abort now id) db w refl
