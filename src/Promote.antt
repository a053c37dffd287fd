-- ===== src/Promote.antt =====
-- The promotion of completed uploads into content-addressed storage: internal/jobs/promote/job.go.
pub mod Job
pub mod Leads
pub mod Commits
pub mod Readied
pub mod Runs
pub mod Idle
pub mod Worked
mod Tests
