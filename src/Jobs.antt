-- ===== src/Jobs.antt =====
-- webapp/services/job_service.py and webapp/persistence.py: the web application's background jobs,
-- and the snapshot of them that survives a restart.
pub mod Record
pub mod Persistence
pub mod Service
pub mod Recovery
pub mod Restart
pub mod Lifecycle
pub mod History
pub mod Loading
pub mod RoundTrip
pub mod Examples
