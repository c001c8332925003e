-- ===== src/Google.antt =====
-- The Google Business Profile integration: apps/api/reviewsignal_api/integrations/google/.
pub mod Mapping
pub mod MappingLaws
pub mod Http
pub mod Adapter
pub mod Profile
pub mod ProfileLaws
mod Examples
