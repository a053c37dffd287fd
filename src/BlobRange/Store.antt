-- ===== src/BlobRange/Store.antt =====
-- The range that internal/httpapi/blob_handler.go hands to the store of
-- internal/objectstore/objectstore.go.
use imgsrv.Prelude.{
  ℕ, ◌+◌, ◌<◌, String, Bool, true, false, ◌≡◌, refl, ap, ◌∙◌, pos, ltb_ℤ, two63, ok, arith,
}
use imgsrv.BlobRange.Parse.{SelectedBlobRange, validate, parse_blob_range_header}
use imgsrv.BlobRange.Spans.{spans}
use imgsrv.BlobRange.Bounds.{parse_blob_range_header-IsWithin}

spans-valid : (first count : ℕ) (to_end : Bool) → validate (spans first count to_end).opened ≡ ok tt
unfolding validate
spans-valid first count true =
    let natural : ltb_ℤ (pos first) (pos 0) ≡ false = ground arith in rw natural refl
spans-valid first count false =
    let natural : ltb_ℤ (pos first) (pos 0) ≡ false = ground arith in
    let ordered : ltb_ℤ (pos (first + count)) (pos first) ≡ false = ground arith in
    rw (natural, ordered) refl

-- The store never refuses as invalid a range that the handler has accepted for a blob whose size is an
-- int64.
pub parse_blob_range_header-validate :
    (header : String) (size : ℕ) (r : SelectedBlobRange)
    → size < two63
    → parse_blob_range_header header (pos size) ≡ ok r
    → validate r.opened ≡ ok tt
parse_blob_range_header-validate header size r int64 h =
    let w = parse_blob_range_header-IsWithin header size r int64 h in
    ap (λ (x : SelectedBlobRange). validate x.opened) w.same ∙ spans-valid w.first w.count w.to_end
