-- ===== src/Runs.antt =====
-- The durable Run service (backend/run_service.py): statuses, checkpoint state, rows, operations.
pub mod Status
pub mod State
pub mod Rows
pub mod Errors
pub mod Sanitize
pub mod Events
pub mod Lane
pub mod Claim
pub mod Steps
pub mod Transition
pub mod Outcome
pub mod Commit
pub mod Interactions
pub mod Grants
pub mod Staging
pub mod Recovery
pub mod Cancel
pub mod Reconcile
pub mod Create
pub mod Purge
pub mod Evolution
pub mod Trace
pub mod Budget
pub mod Fencing
pub mod Lifetime
pub mod Quiet
pub mod Settlement
pub mod Answering
pub mod Resumption
pub mod Release
pub mod Guards
pub mod Cancellation
pub mod Idempotency
pub mod Tests
