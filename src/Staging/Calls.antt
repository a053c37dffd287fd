-- ===== src/Staging/Calls.antt =====
-- The calls of internal/uploads/service.go in sequence.
use imgsrv.Prelude.{List, [], ◌∷◌, Result, ok}
use imgsrv.Publish.Domain.{Uuid}
use imgsrv.Multipart.Parts.{CompletePart}
use imgsrv.Cas.World.{World, bind}
use imgsrv.Staging.Objects.{Service}
use imgsrv.Staging.Service.{BeginUploadParams, PutUploadPartParams, begin_upload, put_upload_part}
use imgsrv.Staging.Completion.{complete_upload, abort_upload, get_upload}

pub data Request : Type 0 where
  begins : BeginUploadParams → Request
  puts : PutUploadPartParams → Request
  completes : Uuid → List CompletePart → Request
  aborts : Uuid → Request
  reads : Uuid → Request

module _ {O : Type 0} where
  -- Whether a call succeeds, and the database and the staging storage after it.
  abbrev pub forget : {A : Type 0} → Result A × World O → Result (Unit {0}) × World O
  forget r = bind r (λ _ w. (ok tt, w))

  unfoldable pub serve : Service O → Request → World O → Result (Unit {0}) × World O
  unfolding begin_upload put_upload_part complete_upload abort_upload get_upload
  serve sv (begins p) w = forget (begin_upload sv p w)
  serve sv (puts p) w = forget (put_upload_part sv p w)
  serve sv (completes id parts) w = forget (complete_upload sv id parts w)
  serve sv (aborts id) w = forget (abort_upload sv id w)
  serve sv (reads id) w = forget (get_upload sv id w)

  -- Calls one after the other, each with its own service: its clock and its identities.
  unfoldable pub serve_all : List (Service O × Request) → World O → World O
  unfolding serve
  serve_all [] w = w
  serve_all ((sv, q) ∷ rest) w = serve_all rest (serve sv q w).1
