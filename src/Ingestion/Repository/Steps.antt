-- ===== src/Ingestion/Repository/Steps.antt =====
-- Runs of the statements of src/modules/ingestion/db/ingestion-repository.ts in any order, as the
-- workers and the API make them.
use promotion_management_api.Base.{ℕ, ◌≤◌, ◌<◌, ◌≡◌, true, [], All}
use promotion_management_api.Base.Texts.{Text}
use promotion_management_api.Ingestion.ChunkBoundaries.{ChunkBoundary}
use promotion_management_api.Ingestion.Repository.Tables.{Chunk, Store}
use promotion_management_api.Ingestion.Repository.Chunks.{
  of_key, claim_chunk, BatchCheckpoint, checkpoint_batch, release_chunk,
}
use promotion_management_api.Ingestion.Repository.Jobs.{
  refresh_job_progress, complete_job_if_done, fail_job_if_exhausted, record_chunk_failure,
}
use promotion_management_api.Ingestion.Repository.Registration.{VendorFile, register_import}

pub data Statement : Type 0 where
  register : (vendor : Text) (file : VendorFile) → Statement
  claim : (job_id chunk_index lease_ms now : ℕ) → Statement
  checkpoint : (batch : BatchCheckpoint) → Statement
  release : (job_id chunk_index lease_until : ℕ) → Statement
  refresh : (job_id : ℕ) → Statement
  record_failure : (job_id chunk_index : ℕ) (reason : Text) (max_failures : ℕ) → Statement
  complete : (job_id : ℕ) → Statement
  fail_job : (job_id : ℕ) → Statement

abbrev pub apply : Statement → Store → Store
apply (register vendor file) store = (register_import vendor file store).0
apply (claim job_id chunk_index lease_ms now) store =
    (claim_chunk job_id chunk_index lease_ms now store).0
apply (checkpoint batch) store = (checkpoint_batch batch store).0
apply (release job_id chunk_index lease_until) store =
    release_chunk job_id chunk_index lease_until store
apply (refresh job_id) store = refresh_job_progress job_id store
apply (record_failure job_id chunk_index reason max_failures) store =
    (record_chunk_failure job_id chunk_index reason max_failures store).0
apply (complete job_id) store = (complete_job_if_done job_id store).0
apply (fail_job job_id) store = (fail_job_if_exhausted job_id store).0

-- What the callers owe: boundaries that do not end before they start, and a batch that reads forward
-- and not past the end of its chunk.
abbrev pub Fits : Statement → Store → Type 0
Fits (register vendor file) store =
    All (λ (b : ChunkBoundary). b.start_offset ≤ b.end_offset) file.boundaries
Fits (checkpoint batch) store =
    (batch.seen_offset < batch.next_offset)
    × All
        (λ (c : Chunk).
          of_key batch.job_id batch.chunk_index c ≡ true → batch.next_offset ≤ c.end_offset)
        store.chunks
Fits _ store = Unit

abbrev pub empty_store : Store
empty_store = record { chunks = []; jobs = []; next_job_id = 1 }

-- The stores that the statements reach from empty tables.
pub data Reachable : Store → Type 0 where
  start : Reachable empty_store
  next :
      (s : Statement) {store : Store} → Reachable store → Fits s store → Reachable (apply s store)
