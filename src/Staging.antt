-- ===== src/Staging.antt =====
-- The upload service over staging storage: internal/uploads/service.go.
pub mod Objects
pub mod Service
pub mod Completion
pub mod Evidence
pub mod Parts
pub mod Known
pub mod Begun
pub mod Once
pub mod Calls
pub mod Writes
pub mod Requests
pub mod Served
mod Tests
