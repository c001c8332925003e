-- ===== src/Jobs.antt =====
-- Durable jobs: workers/reviewsignal_worker/queue.py, runner.py, errors.py and jobs/__init__.py, and
-- the `jobs` table of apps/api/reviewsignal_api/db/models.py.
pub mod Record
pub mod Queue
pub mod Runner
pub mod Retries
pub mod Lifecycle
pub mod Delivery
pub mod Consistency
mod Examples
