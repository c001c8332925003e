-- ===== src/Auth.antt =====
-- Operator sessions: apps/api/reviewsignal_api/core/auth.py, api/deps.py and api/v1/auth.py.
pub mod Token
pub mod Routes
pub mod Verified
pub mod Sessions
mod Examples
