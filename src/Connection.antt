-- ===== src/Connection.antt =====
-- The Google connection: apps/api/reviewsignal_api/services/google_connection.py, api/v1/google.py
-- and workers/reviewsignal_worker/jobs/ingest.py.
pub mod Service
pub mod Discovery
pub mod Oauth
pub mod Routes
pub mod View
pub mod Steps
pub mod Simulation
pub mod Machine
pub mod Refinement
pub mod Ingest
pub mod Fetching
pub mod Fetched
pub mod Callback
pub mod Queueing
mod Examples
