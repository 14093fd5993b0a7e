-- ===== src/Hosted.antt =====
-- webapp/hosted: the job ledger that the migrations define, and the worker that calls it.
pub mod Tables
pub mod Queue
pub mod Claim
pub mod Lease
pub mod Retry
pub mod Tracked
pub mod Leases
pub mod Rows
pub mod Calls
pub mod Oldest
pub mod Rules
pub mod Begin
pub mod Finish
pub mod Invariant
pub mod Progress
pub mod Steps
pub mod Trace
pub mod Attempts
pub mod Fencing
pub mod Abandoned
pub mod Recovery
pub mod Worker
pub mod Outcome
pub mod Decisions
pub mod Claiming
pub mod Idempotent
mod Examples
