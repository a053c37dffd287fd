-- ===== src/Worker.antt =====
-- internal/jobs/publishflow/job.go: the worker that claims a step of the publish workflow and carries
-- it out.
pub mod Flow
pub mod Failing
pub mod Superseded
mod Tests
