-- ===== src/Ingestion/Repository/Registration.antt =====
-- The registration of an import (src/modules/ingestion/commands/register-import-command.ts).
use promotion_management_api.Base.{
  ℕ, ◌+◌, ◌&&◌, none, List, [], ◌∷◌, ◌++◌, if◌then◌else◌, any, length,
}
use promotion_management_api.Base.Texts.{Text, text_eq}
use promotion_management_api.Ingestion.ChunkBoundaries.{ChunkBoundary}
use promotion_management_api.Ingestion.JobStatus.{IngestionStatus, is_busy}
use promotion_management_api.Ingestion.Repository.Tables.{pending, Chunk, Job, Store}

-- `ImportRegistrationOutcome`
pub data ImportRegistrationOutcome : Type 0 where
  registered : (job_id chunks_total : ℕ) → ImportRegistrationOutcome
  vendor_busy : ImportRegistrationOutcome
  duplicate_file : ImportRegistrationOutcome

abbrev pub chunks_from : ℕ → List ChunkBoundary → List Chunk
chunks_from job_id [] = []
chunks_from job_id (b ∷ boundaries) =
    record {
      job_id = job_id;
      chunk_index = b.chunk_index;
      start_offset = b.start_offset;
      end_offset = b.end_offset;
      next_offset = b.start_offset;
      lease_until = none;
      attempts = 0;
      failures = 0;
      rows_processed = 0;
      rows_rejected = 0;
      status = pending;
      last_error = none;
    }
    ∷ chunks_from job_id boundaries

-- A file as `execute` reads it: its name, size, hash and boundaries.
pub record VendorFile : Type 0 where
  pub file_ref : Text
  pub size : ℕ
  pub sha256 : Text
  pub boundaries : List ChunkBoundary

abbrev pub new_job : ℕ → Text → VendorFile → Job
new_job id vendor file = record {
  id = id;
  vendor = vendor;
  file_ref = file.file_ref;
  file_sha256 = file.sha256;
  file_size_bytes = file.size;
  chunks_total = length file.boundaries;
  chunks_done = 0;
  rows_processed = 0;
  rows_rejected = 0;
  status = IngestionStatus.running;
  last_error = none;
}

abbrev pub refused_import : ImportRegistrationOutcome → Store → Store × ImportRegistrationOutcome
refused_import outcome store = (
  record { chunks = store.chunks; jobs = store.jobs; next_job_id = store.next_job_id + 1 },
  outcome,
)

-- The transaction of `execute`. The unique hash is looked at first, then the one running import of
-- the vendor; a refusal keeps nothing but the id that it took.
unfoldable pub register_import : Text → VendorFile → Store → Store × ImportRegistrationOutcome
register_import vendor file store =
    if any (λ j. text_eq j.file_sha256 file.sha256) store.jobs
    then refused_import duplicate_file store
    else (if any (λ j. text_eq j.vendor vendor && is_busy j.status) store.jobs
        then refused_import vendor_busy store
        else (
          record {
            chunks = store.chunks ++ chunks_from store.next_job_id file.boundaries;
            jobs = store.jobs ++ new_job store.next_job_id vendor file ∷ [];
            next_job_id = store.next_job_id + 1;
          },
          registered store.next_job_id (length file.boundaries),
        ))
