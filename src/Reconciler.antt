-- ===== src/Reconciler.antt =====
-- The reconciler: what repairs a lost announcement, an abandoned import and a lost write.
pub mod Boundaries
pub mod Orphans
pub mod Drift
