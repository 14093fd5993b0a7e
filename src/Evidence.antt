-- ===== src/Evidence.antt =====
-- webapp/command_center_evidence.py and webapp/services/evidence_ledger_service.py: the evidence
-- ledger of the command center.
pub mod Record
pub mod Status
pub mod Association
pub mod Processing
pub mod Store
pub mod Import
pub mod Forget
pub mod Receipts
pub mod Calls
pub mod Settled
pub mod Outcome
pub mod History
pub mod Readable
pub mod Writing
pub mod Reading
pub mod Same
pub mod Stuck
pub mod Growth
pub mod Append
pub mod Duplicate
pub mod Listing
pub mod Pages
pub mod Content
mod Examples
