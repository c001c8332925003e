-- ===== src/Tools.antt =====
-- The repository's own tools, under tools/.
pub mod Scanning
pub mod Citations
pub mod Sorting
pub mod Gate
pub mod Stub
pub mod Seeding
mod Examples
