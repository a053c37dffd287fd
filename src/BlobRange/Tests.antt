-- ===== src/BlobRange/Tests.antt =====
-- Ranges of a blob of ten bytes.
use imgsrv.Prelude.{true, false, ◌≡◌, refl, ok, pos, arith}
use imgsrv.BlobRange.Parse.{parse_blob_range_header, validate}
use imgsrv.BlobRange.Spans.{spans}
use imgsrv.BlobRange.Bounds.{IsWithin, parse_blob_range_header-IsWithin}
use imgsrv.BlobRange.Store.{parse_blob_range_header-validate}

suffix : parse_blob_range_header "bytes= -3 " (pos 10) ≡ ok (spans 7 2 false)
unfolding parse_blob_range_header
suffix = refl

to_end : parse_blob_range_header "bytes=4-" (pos 10) ≡ ok (spans 4 5 true)
unfolding parse_blob_range_header
to_end = refl

parse_blob_range_header-IsWithin_example : IsWithin 10 (spans 4 5 false)
unfolding parse_blob_range_header
parse_blob_range_header-IsWithin_example =
    parse_blob_range_header-IsWithin "bytes=4-99" 10 (spans 4 5 false) (omega arith) refl

parse_blob_range_header-validate_example : validate (spans 7 2 false).opened ≡ ok tt
unfolding parse_blob_range_header
parse_blob_range_header-validate_example =
    parse_blob_range_header-validate "bytes=-3" 10 (spans 7 2 false) (omega arith) refl
