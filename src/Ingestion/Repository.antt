-- ===== src/Ingestion/Repository.antt =====
-- The ingestion tables, every statement on them, and what holds of them whatever the order in which
-- the statements are run (src/modules/ingestion/db/ingestion-repository.ts).
pub mod Tables
pub mod Chunks
pub mod Jobs
pub mod Registration
pub mod Held
pub mod Claim
pub mod Steps
pub mod Soundness
pub mod Preservation
pub mod Completion
mod Tests
