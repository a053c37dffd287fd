-- ===== src/Publish/Tables.antt =====
-- The tables that internal/store/postgres/publish/store.go reads and writes, as lists of rows, and
-- transactions over them. A transaction that fails is rolled back.
use imgsrv.Prelude.{
  ℕ, String, Bool, ◌||◌, Option, List, [], ◌∷◌, ◌≡◌, if◌then◌else◌, Error, errors_is, Result, ◌⊎◌,
  ok, err, no_rows, pg_unique, pg_foreign_key, pg_check, pg_invalid_text, pg_not_null,
  publish_failed_precondition, publish_invalid, publish_not_found,
}
pub use imgsrv.Prelude.{
  ◌>>=◌, ◌>>◌, pure, fail, require, query, row, modify, validated, >>=-eq-ok, bind-elim, bind-at,
  bind-require, row-ok, pure-ok, query-ok, require-ok, modify-ok,
}
use imgsrv.Prelude.{Transaction, transact, transact-cases, validated-transact-ok}
use imgsrv.Publish.Domain.{Uuid, Time, JobState, StepState, StepName, VersionState, ProjectionRow}

pub record Image : Type 0 where
  pub id : Uuid
  pub name : String

pub record Version : Type 0 where
  pub id : Uuid
  pub image_id : Uuid
  pub version : String
  pub state : VersionState
  pub published_at : Option Time

pub record Artifact : Type 0 where
  pub id : Uuid
  pub version_id : Uuid
  pub primary_blob_digest : String
  pub primary_blob_size_bytes : ℕ

pub record Attachment : Type 0 where
  pub id : Uuid
  pub artifact_id : Uuid
  pub blob_digest : String
  pub blob_size_bytes : ℕ

pub record Blob : Type 0 where
  pub digest : String
  pub size_bytes : ℕ

pub record Job : Type 0 where
  pub id : Uuid
  pub version_id : Uuid
  pub state : JobState
  pub started_at : Option Time
  pub finished_at : Option Time
  pub failure_message : Option String

pub record Step : Type 0 where
  pub id : Uuid
  pub job_id : Uuid
  pub name : StepName
  pub state : StepState
  pub blocking : Bool
  pub sequence : ℕ
  pub attempt_count : ℕ
  pub run_after : Time
  pub locked_by : Option String
  pub locked_at : Option Time
  pub started_at : Option Time
  pub finished_at : Option Time
  pub failure_message : Option String

pub record Db : Type 0 where
  pub images : List Image
  pub versions : List Version
  pub artifacts : List Artifact
  pub attachments : List Attachment
  pub blobs : List Blob
  pub jobs : List Job
  pub steps : List Step
  pub projection : List ProjectionRow

abbrev pub Tx : Type 0 → Type 0
Tx A = Transaction Db A

-- mapPublishError: an error of the driver becomes one of the package; any other passes.
unfoldable pub map_publish_error : Error → Error
map_publish_error e =
    if errors_is e no_rows
    then publish_not_found ∷ e
    else if errors_is e pg_unique
    then publish_failed_precondition ∷ []
    else if errors_is e pg_foreign_key
    then publish_not_found ∷ []
    else if errors_is e pg_check
    then publish_failed_precondition ∷ []
    else if errors_is e pg_invalid_text || errors_is e pg_not_null
    then publish_invalid ∷ []
    else e

-- withTx, and the mapping of its error that each operation ends in.
unfoldable pub with_tx : {A : Type 0} → Tx A → Db → Result A × Db
with_tx m db = transact map_publish_error m db

-- A transaction commits what it wrote, or changes nothing.
pub with_tx-cases :
    {A : Type 0} (m : Tx A) (db : Db)
    → ((a : A) × (m db ≡ ok (a, (with_tx m db).1)) × ((with_tx m db).0 ≡ ok a))
      ⊎ ((e : Error) × (m db ≡ err e) × (with_tx m db ≡ (err (map_publish_error e), db)))
unfolding with_tx
with_tx-cases m db = transact-cases map_publish_error m db

-- A call that succeeds passed its validation and committed its transaction.
pub validated-ok :
    {A : Type 0} (check : Result (Unit {0})) (m : Tx A) (db : Db) {a : A}
    → (validated check (with_tx m) db).0 ≡ ok a
    → (check ≡ ok tt) × (m db ≡ ok (a, (validated check (with_tx m) db).1))
unfolding with_tx
validated-ok check m db h = validated-transact-ok check map_publish_error m db h
