-- ===== src/Credentials.antt =====
-- Stored OAuth credentials: apps/api/reviewsignal_api/repositories/credentials.py,
-- services/google_token.py, and the guard of workers/reviewsignal_worker/jobs/ingest.py.
pub mod Record
pub mod Repository
pub mod Tokens
pub mod Disconnect
pub mod Refreshing
pub mod Resolve
mod Examples
