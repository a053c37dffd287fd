-- ===== src/Staging/Tests.antt =====
-- One upload through the service, on staging storage that keeps one upload and the sizes of its objects.
use imgsrv.Prelude.{
  String, true, Option, none, some, List, [], ◌∷◌, ◌≡◌, refl, ◌⊎◌, ℤ, pos, length, str_eq, ◌==◌,
  if◌then◌else◌, Result, ok, err, object_not_found,
}
use imgsrv.Uploads.Domain.{created, completed}
use imgsrv.Uploads.Tables.{Session, Part, map_upload_error}
use imgsrv.Uploads.Statements.{find_session}
use imgsrv.Uploads.Calls.{Op, apply}
use imgsrv.Uploads.Rounds.{empty_db}
use imgsrv.Multipart.Parts.{CompletePart}
use imgsrv.Cas.Objects.{ObjectInfo}
use imgsrv.Cas.World.{World}
use imgsrv.Staging.Objects.{Service, MultipartStore, StagedPartParams}
use imgsrv.Staging.Service.{
  begin_upload, put_upload_part, BeginUploadParams, PutUploadPartParams, total_size,
}
use imgsrv.Staging.Completion.{complete_upload}
use imgsrv.Staging.Calls.{Request, begins, puts, completes, serve, serve_all}
use imgsrv.Staging.Evidence.{Evidence, complete_upload-Evidence}
use imgsrv.Staging.Parts.{IsAccepted, put_upload_part-IsAccepted}
use imgsrv.Staging.Begun.{IsBegun, begin_upload-IsBegun}
use imgsrv.Staging.Served.{serve-writes}

-- The parts of the open upload, and the sizes of the objects.
abbrev Bucket : Type 0
Bucket = List CompletePart × (String → Option ℤ)

abbrev info : String → ℤ → ObjectInfo
info key size = record { key = key; size_bytes = size; etag = "e" }

abbrev put_size : String → ℤ → (String → Option ℤ) → String → Option ℤ
put_size key size sizes n = if str_eq key n then some size else sizes n

abbrev part_of : StagedPartParams → CompletePart
part_of p = record { number = p.part_number; etag = "e"; size_bytes = pos (length p.body) }

abbrev stat : String → Bucket → Result ObjectInfo × Bucket
stat key b = elim (b.1 key) [
  | none ↦ (err (object_not_found ∷ []), b)
  | some size ↦ (ok (info key size), b)
]

abbrev bucket : MultipartStore Bucket
bucket = record {
  create_multipart_upload = λ key b. (ok "s3-1", ([], b.1));
  put_staged_part = λ p b. (ok (part_of p), (part_of p ∷ b.0, b.1));
  complete_multipart_upload = λ key id parts b.
      let size = total_size (pos 0) parts in (ok (info key size), ([], put_size key size b.1));
  abort_multipart_upload = λ key id b. (ok tt, ([], b.1));
  stat_staged_object = stat;
}

abbrev service : Service Bucket
service = record {
  staging = bucket;
  trusted = true;
  uuid_text = λ n. if n == 7 then "seven" else "other";
  clock = 100;
  now = 100;
  fresh_id = 7;
  fresh_job = 21;
}

abbrev start : World Bucket
start = record { db = empty_db; objects = ([], λ _. none) }

abbrev begin_params : BeginUploadParams
begin_params = record {
  id = 0;
  expected_digest = "sha256:0123456789abcdef0123456789abcdef0123456789abcdef0123456789abcdef";
  expected_size_bytes = pos 2;
  media_type_hint = none;
  filename_hint = some "disk.img";
  expires_at = 900;
}

abbrev put_params : PutUploadPartParams
put_params = record {
  upload_id = 7;
  part_number = pos 1;
  body = some (1 ∷ 2 ∷ []);
  size_bytes = pos 2;
}

abbrev sent : List CompletePart
sent = record { number = pos 1; etag = "e"; size_bytes = pos 2 } ∷ []

abbrev to_upload : List (Service Bucket × Request)
to_upload = (service, begins begin_params) ∷ (service, puts put_params) ∷ []

abbrev new_session : Session
new_session = record {
  id = 7;
  expected_digest = begin_params.expected_digest;
  expected_size_bytes = pos 2;
  state = created;
  storage_upload_id = "s3-1";
  staging_key = "staging/uploads/seven";
  media_type_hint = none;
  filename_hint = some "disk.img";
  completed_at = none;
  ingest_started_at = none;
  ready_at = none;
  failed_at = none;
  aborted_at = none;
  expires_at = 900;
  failure_message = none;
  ready_blob_digest = none;
}

begins_it :
    (begin_upload service begin_params start).0
    ≡ ok (record { session = new_session; was_created = true })
unfolding begin_upload map_upload_error
begins_it = refl

abbrev begun : World Bucket
begun = (begin_upload service begin_params start).1

begin_upload-IsBegun_example :
    IsBegun service begin_params start begun (record { session = new_session; was_created = true })
begin_upload-IsBegun_example = begin_upload-IsBegun service begin_params start begins_it

abbrev part_row : Part
part_row = record { upload_id = 7; part_number = pos 1; etag = "e"; size_bytes = pos 2 }

puts_it : (put_upload_part service put_params begun).0 ≡ ok part_row
unfolding put_upload_part begin_upload map_upload_error
puts_it = refl

put_upload_part-IsAccepted_example :
    IsAccepted service put_params begun (put_upload_part service put_params begun).1 part_row
put_upload_part-IsAccepted_example = put_upload_part-IsAccepted service put_params begun puts_it

abbrev uploaded : World Bucket
uploaded = serve_all to_upload start

serve-writes_example :
    ((serve service (completes 7 sent) uploaded).1.db ≡ uploaded.db)
    ⊎ (((serve service (completes 7 sent) uploaded).0 ≡ ok tt)
        × (op : Op) × ((serve service (completes 7 sent) uploaded).1.db
            ≡ apply service.uuid_text op uploaded.db))
serve-writes_example = serve-writes service (completes 7 sent) uploaded

abbrev completed_session : Session
completed_session = record {
  id = 7;
  expected_digest = begin_params.expected_digest;
  expected_size_bytes = pos 2;
  state = completed;
  storage_upload_id = "s3-1";
  staging_key = "staging/uploads/seven";
  media_type_hint = none;
  filename_hint = some "disk.img";
  completed_at = some 100;
  ingest_started_at = none;
  ready_at = none;
  failed_at = none;
  aborted_at = none;
  expires_at = 900;
  failure_message = none;
  ready_blob_digest = none;
}

completes_it : (complete_upload service 7 sent uploaded).0 ≡ ok completed_session
unfolding complete_upload serve_all map_upload_error
completes_it = refl

complete_upload-Evidence_example :
    (s : Session) × (find_session uploaded.db 7 ≡ some s)
    × Evidence service 7 sent uploaded s completed_session
complete_upload-Evidence_example = complete_upload-Evidence service 7 sent uploaded completes_it
