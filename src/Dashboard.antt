-- ===== src/Dashboard.antt =====
-- What the dashboard reads: the services and repositories behind api-dashboard's routes, in
-- apps/api/reviewsignal_api/services/ and repositories/.
pub mod Tree
pub mod TreeLaws
pub mod Nesting
pub mod Reviews
pub mod Pages
pub mod Insights
pub mod Trends
pub mod Mentions
pub mod Changes
pub mod Movements
pub mod System
mod Examples
