-- ===== src/Runner.antt =====
-- internal/jobs/runner.go: the loop of a background job, its retry delays and its circuit breaker.
-- A duration is an int64 count of nanoseconds. One turn of the loop is a function of the outcome of
-- the handler's attempt; waiting, logging and metrics are left out.
pub mod Loop
pub mod Backoff
pub mod Breaker
mod Tests
