-- ===== src/Jobs.antt =====
-- The job queue (jobs/*.js).
pub mod Classify
pub mod Kinds
pub mod Planning
pub mod Table
pub mod Queue
