-- ===== src/BlobRange.antt =====
-- internal/httpapi/blob_handler.go: the Range header of a blob request. Sizes and offsets are int64.
pub mod Parse
pub mod Spans
pub mod Bounds
pub mod Store
mod Tests
