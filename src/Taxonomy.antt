-- ===== src/Taxonomy.antt =====
-- Taxonomy generation and its dashboard tree:
-- apps/api/reviewsignal_api/services/taxonomy_generation.py, services/taxonomy.py,
-- repositories/taxonomy.py and repositories/model_runs.py.
pub mod Slug
pub mod SlugLaws
pub mod Record
pub mod Generation
pub mod Provider
pub mod Attempts
pub mod Job
pub mod Outcomes
pub mod Nodes
mod Examples
