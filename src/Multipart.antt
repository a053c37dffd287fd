-- ===== src/Multipart.antt =====
-- internal/objectstore/objectstore.go: the parts that complete a multipart upload.
pub mod Parts
pub mod Normal
pub mod Complete
mod Tests
