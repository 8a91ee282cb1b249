-- ===== src/Ingestion/Repository/Tables.antt =====
-- The tables of jobs and chunks (src/modules/ingestion/db/schema) and the statements' common parts.
use promotion_management_api.Base.{ℕ, Bool, true, false, Option, List}
use promotion_management_api.Base.Texts.{Text}
use promotion_management_api.Ingestion.JobStatus.{IngestionStatus}

pub data ChunkStatus : Type 0 where
  pending : ChunkStatus
  running : ChunkStatus
  done : ChunkStatus
  failed : ChunkStatus

abbrev pub is_pending : ChunkStatus → Bool
is_pending pending = true
is_pending _ = false

abbrev pub is_running : ChunkStatus → Bool
is_running running = true
is_running _ = false

abbrev pub is_done : ChunkStatus → Bool
is_done done = true
is_done _ = false

abbrev pub is_failed : ChunkStatus → Bool
is_failed failed = true
is_failed _ = false

-- A row of `ingestion_chunks`.
pub record Chunk : Type 0 where
  pub job_id : ℕ
  pub chunk_index : ℕ
  pub start_offset : ℕ
  pub end_offset : ℕ
  pub next_offset : ℕ
  pub lease_until : Option ℕ
  pub attempts : ℕ
  pub failures : ℕ
  pub rows_processed : ℕ
  pub rows_rejected : ℕ
  pub status : ChunkStatus
  pub last_error : Option Text

-- A row of `ingestion_jobs`, without its two timestamps, which no statement reads.
pub record Job : Type 0 where
  pub id : ℕ
  pub vendor : Text
  pub file_ref : Text
  pub file_sha256 : Text
  pub file_size_bytes : ℕ
  pub chunks_total : ℕ
  pub chunks_done : ℕ
  pub rows_processed : ℕ
  pub rows_rejected : ℕ
  pub status : IngestionStatus
  pub last_error : Option Text

pub record Store : Type 0 where
  pub chunks : List Chunk
  pub jobs : List Job
  pub next_job_id : ℕ

abbrev pub with_chunks : Store → List Chunk → Store
with_chunks store chunks = record {
  chunks = chunks;
  jobs = store.jobs;
  next_job_id = store.next_job_id;
}

abbrev pub with_jobs : Store → List Job → Store
with_jobs store jobs = record {
  chunks = store.chunks;
  jobs = jobs;
  next_job_id = store.next_job_id;
}
