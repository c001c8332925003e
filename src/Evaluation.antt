-- ===== src/Evaluation.antt =====
-- The evaluation harness: apps/api/reviewsignal_api/ai/evaluation/.
pub mod Floats
pub mod Scores
pub mod Classification
pub mod Sentiments
pub mod Calibration
pub mod Dataset
pub mod Runner
pub mod Totals
pub mod Job
pub mod OneRun
pub mod History
mod Examples
