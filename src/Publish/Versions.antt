-- ===== src/Publish/Versions.antt =====
-- The statements of internal/store/postgres/publish/store.go on versions, blobs and the Incus
-- projection, with the triggers and constraints of the migrations that they meet.
use Prim.Native.Char.{code}
use imgsrv.Prelude.{
  pos, leb_ℤ, ℕ, zero, suc, String, Bool, true, false, ◌&&◌, ◌||◌, not, some, List, [], ◌∷◌, ◌==◌,
  str_eq, leb, is_some, if◌then◌else◌, any, find, update_where, count_where, ok, err, pg_unique,
  pg_foreign_key, pg_check, publish_failed_precondition, publish_invalid,
}
use imgsrv.Catalog.{is_digit}
use imgsrv.Publish.Domain.{Uuid, Time, draft, publishing, published, is_version, ProjectionRow}
use imgsrv.Publish.Tables.{Version, Db, Tx, ◌>>=◌, ◌>>◌, pure, fail, require, query, row}
use imgsrv.Publish.Statements.{one_row}

-- A verified blob row with the digest and the size.
unfoldable pub has_blob : Db → String → ℕ → Bool
unfolding any
has_blob db digest size = any (λ b. str_eq b.digest digest && b.size_bytes == size) db.blobs

unfoldable pub has_artifact : Db → Uuid → Bool
unfolding any
has_artifact db id = any (λ a. a.version_id == id) db.artifacts

unfoldable pub lacks_primary_blob : Db → Uuid → Bool
unfolding any has_blob
lacks_primary_blob db id =
    any
      (λ a. a.version_id == id && not (has_blob db a.primary_blob_digest a.primary_blob_size_bytes))
      db.artifacts

unfoldable pub lacks_attachment_blob : Db → Uuid → Bool
unfolding any has_blob
lacks_attachment_blob db id =
    any
      (λ t.
        any (λ a. a.id == t.artifact_id && a.version_id == id) db.artifacts
        && not (has_blob db t.blob_digest t.blob_size_bytes))
      db.attachments

-- The CASE of requirePublishableVersion yields ''.
unfoldable pub publishable : Db → Uuid → Bool
unfolding has_artifact lacks_primary_blob lacks_attachment_blob
publishable db id =
    has_artifact db id && not (lacks_primary_blob db id) && not (lacks_attachment_blob db id)

unfoldable pub require_publishable_version : Uuid → Tx (Unit {0})
unfolding publishable
require_publishable_version id = do
  fine ← query (λ db. publishable db id)
  require fine (publish_failed_precondition ∷ [])

-- The trigger image_versions_guard_write, on an update that keeps the identity fields.
unfoldable pub guard_write : Db → Version → Version → Bool
unfolding publishable
guard_write db old new = elim old.state [
  | published ↦ false
  | draft ↦ elim new.state [
    | draft ↦ true
    | publishing ↦ not (is_some new.published_at) && publishable db new.id
    | published ↦ false
  ]
  | publishing ↦ elim new.state [
    | publishing ↦ true
    | published ↦ is_some new.published_at
    | draft ↦ false
  ]
]

unfoldable pub update_versions : (Version → Bool) → (Version → Version) → Tx ℕ
unfolding guard_write any update_where count_where
update_versions p f db =
    if any (λ v. p v && not (guard_write db v (f v))) db.versions
    then err (pg_check ∷ [])
    else ok (count_where p db.versions, record db { versions = update_where p f db.versions })

unfoldable pub mark_version_publishing : Uuid → Tx (Unit {0})
unfolding update_versions
mark_version_publishing id = one_row (
    update_versions (λ v. v.id == id && is_version v.state draft)
      (λ v. record v { state = publishing }))

unfoldable pub mark_version_published : Time → Uuid → Tx (Unit {0})
unfolding update_versions
mark_version_published now id = one_row (
    update_versions (λ v. v.id == id && is_version v.state publishing)
      (λ v. record v { state = published; published_at = some now }))

-- The join of lockVersionByRef.
unfoldable pub has_ref : Db → String → String → Version → Bool
unfolding any
has_ref db image_name version v =
    any (λ i. i.id == v.image_id && str_eq i.name image_name) db.images && str_eq v.version version

unfoldable pub lock_version_by_ref : String → String → Tx Version
unfolding has_ref find
lock_version_by_ref image_name version =
    row (λ db. find (has_ref db image_name version) db.versions)

-- `^[0-9a-f]{n}$`.
unfoldable pub is_hex : ℕ → String → Bool
unfolding is_digit
is_hex zero String.[] = true
is_hex zero (String.◌∷◌ c s) = false
is_hex (suc n) String.[] = false
is_hex (suc n) (String.◌∷◌ c s) =
    (is_digit (code c) || (leb b'a' (code c) && leb (code c) b'f')) && is_hex n s

-- `length(btrim(s)) > 0`: btrim takes spaces alone.
unfoldable pub has_ink : String → Bool
has_ink String.[] = false
has_ink (String.◌∷◌ c s) = not (code c == 32) || has_ink s

unfoldable pub projection_checks : ProjectionRow → Bool
unfolding is_hex has_ink
projection_checks r =
    has_ink r.metadata_path
    && has_ink r.disk_path
    && is_hex 64 r.metadata_sha256
    && leb_ℤ (pos 0) r.metadata_size_bytes
    && is_hex 64 r.disk_sha256
    && leb_ℤ (pos 0) r.disk_size_bytes
    && is_hex 64 r.combined_disk_kvm_img_sha256

-- INSERT INTO incus_projection_items: its checks, its primary key and its foreign keys.
unfoldable pub insert_projection : ProjectionRow → Tx (Unit {0})
unfolding projection_checks any
insert_projection r db =
    if not (projection_checks r)
    then err (pg_check ∷ [])
    else if any (λ o. o.artifact_id == r.artifact_id) db.projection
    then err (pg_unique ∷ [])
    else if not (any (λ a. a.id == r.artifact_id && a.version_id == r.version_id) db.artifacts)
    then err (pg_foreign_key ∷ [])
    else if not (
        any (λ t. t.id == r.metadata_attachment_id && t.artifact_id == r.artifact_id)
          db.attachments)
    then err (pg_foreign_key ∷ [])
    else ok (tt, record db { projection = r ∷ db.projection })

-- DELETE ... WHERE version_id.
unfoldable pub without_version : Uuid → List ProjectionRow → List ProjectionRow
without_version id [] = []
without_version id (r ∷ rs) =
    let rest = without_version id rs in if r.version_id == id then rest else r ∷ rest

-- The loop of replaceIncusRows.
unfoldable pub insert_rows : Uuid → List ProjectionRow → Tx (Unit {0})
unfolding insert_projection
insert_rows id [] = pure tt
insert_rows id (r ∷ rs) =
    let rest = insert_rows id rs in
    if r.version_id == id then insert_projection r >> rest else fail (publish_invalid ∷ [])

unfoldable pub replace_incus_rows : Uuid → List ProjectionRow → Tx (Unit {0})
unfolding insert_rows without_version
replace_incus_rows id rows db =
    insert_rows id rows (record db { projection = without_version id db.projection })
