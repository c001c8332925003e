-- ===== src/Ingestion.antt =====
-- Review ingestion: apps/api/reviewsignal_api/services/ingestion.py, integrations/base.py,
-- repositories/reviews.py and repositories/sync_runs.py, with the tables they write.
pub mod Record
pub mod Session
pub mod Upsert
pub mod SyncRuns
pub mod Service
pub mod Identity
pub mod Idempotence
pub mod Counts
pub mod Walk
pub mod Runs
pub mod Logged
pub mod Recorded
pub mod Failures
mod Examples
