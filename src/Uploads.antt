-- ===== src/Uploads.antt =====
-- Uploads and CAS ingest jobs: internal/uploads and internal/store/postgres/uploads.
pub mod Domain
pub mod Tables
pub mod Statements
pub mod Sessions
pub mod Ingest
pub mod Consistent
pub mod Change
pub mod Keeping
pub mod Handing
pub mod Outcomes
pub mod Calls
pub mod Committed
pub mod JobsCommitted
pub mod Reach
pub mod Lifecycle
pub mod Refines
pub mod Completing
pub mod Claiming
pub mod Readied
pub mod Rounds
pub mod Closed
mod Tests
pub mod Blobs
