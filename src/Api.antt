-- ===== src/Api.antt =====
-- The HTTP surface of apps/api/reviewsignal_api: its configuration and error mapping.
pub mod Settings
pub mod Errors
mod Examples
