-- ===== src/Ingestion.antt =====
-- The ingestion module: vendor files become priced product rows.
pub mod SplitCsvLine
pub mod ParseVendorRow
pub mod ChunkBoundaries
pub mod ReadRangeLines
pub mod JobStatus
pub mod Repository
pub mod ProcessChunk
pub mod RegisterImport
mod Tests
