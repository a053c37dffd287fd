-- ===== src/Publish.antt =====
-- The publish workflow: internal/publish, internal/store/postgres/publish, internal/jobs/publishflow.
pub mod Domain
pub mod Tables
pub mod Statements
pub mod Versions
pub mod Enqueue
pub mod Retry
pub mod Steps
pub mod Change
pub mod Keys
pub mod Order
pub mod Effects
pub mod RowEffects
pub mod Outcomes
pub mod EndOutcomes
pub mod JobOutcomes
pub mod RetryOutcome
pub mod Attached
pub mod Moves
pub mod Next
pub mod Reach
pub mod Fencing
pub mod Leases
pub mod Claiming
pub mod Exclusion
pub mod Published
pub mod Coupling
pub mod Coupled
pub mod Agreement
pub mod Finalizing
pub mod Retrying
mod Tests
