-- ===== src/Cas.antt =====
-- Content-addressed storage: internal/cas/service.go.
pub mod Objects
pub mod Keys
pub mod World
pub mod Commit
pub mod Grows
pub mod Recovery
pub mod Faithful
pub mod Ensured
pub mod Committed
pub mod Promises
pub mod Trust
pub mod Files
mod Tests
