-- ===== src/Staging/Objects.antt =====
-- The multipart operations of objectstore.Store (internal/objectstore/objectstore.go) that
-- internal/uploads/service.go calls, over a state of any type, and what surrounds a call of the service.
use imgsrv.Prelude.{ℕ, String, Bool, List, ℤ, Result}
use imgsrv.Publish.Domain.{Uuid, Time}
use imgsrv.Multipart.Parts.{CompletePart}
use imgsrv.Cas.Objects.{ObjectInfo}

-- objectstore.PutPartParams; the body is the bytes that it reads.
pub record StagedPartParams : Type 0 where
  pub key : String
  pub upload_id : String
  pub part_number : ℤ
  pub body : List ℕ
  pub size_bytes : ℤ

pub record MultipartStore (O : Type 0) : Type 0 where
  pub create_multipart_upload : String → O → Result String × O
  pub put_staged_part : StagedPartParams → O → Result CompletePart × O
  pub complete_multipart_upload : String → String → List CompletePart → O → Result ObjectInfo × O
  pub abort_multipart_upload : String → String → O → Result (Unit {0}) × O
  pub stat_staged_object : String → O → Result ObjectInfo × O

-- The service's dependencies, the text of identities, the clock, the time of its transactions, and the
-- identities that are made during the call. `trusted` says whether a lookup of trusted blobs is configured.
pub record Service (O : Type 0) : Type 0 where
  pub staging : MultipartStore O
  pub trusted : Bool
  pub uuid_text : Uuid → String
  pub clock : Time
  pub now : Time
  pub fresh_id : Uuid
  pub fresh_job : Uuid
