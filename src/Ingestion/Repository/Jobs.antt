-- ===== src/Ingestion/Repository/Jobs.antt =====
-- The statements on the jobs (src/modules/ingestion/db/ingestion-repository.ts).
use promotion_management_api.Base.{
  ℕ, ◌+◌, Bool, false, ◌&&◌, ◌||◌, Option, none, some, List, [], ◌∷◌, if◌then◌else◌, leb, ◌==◌,
  filterb, any, all, length, take,
}
use promotion_management_api.Base.Texts.{Text}
use promotion_management_api.Ingestion.JobStatus.{IngestionStatus, is_running_job}
use promotion_management_api.Base.Rows.{update, first_match}
use promotion_management_api.Ingestion.Repository.Tables.{
  failed, is_done, is_failed, Chunk, Job, Store, with_jobs,
}
use promotion_management_api.Ingestion.Repository.Chunks.{of_key}

-- The chunks of a job.
abbrev pub chunks_of : ℕ → List Chunk → List Chunk
chunks_of job_id chunks = filterb (λ c. c.job_id == job_id) chunks

abbrev pub count_done : ℕ → List Chunk → ℕ
count_done job_id chunks = length (filterb (λ c. c.job_id == job_id && is_done c.status) chunks)

abbrev pub sum_processed : ℕ → List Chunk → ℕ
sum_processed job_id [] = 0
sum_processed job_id (c ∷ chunks) =
    if c.job_id == job_id
    then c.rows_processed + sum_processed job_id chunks
    else sum_processed job_id chunks

abbrev pub sum_rejected : ℕ → List Chunk → ℕ
sum_rejected job_id [] = 0
sum_rejected job_id (c ∷ chunks) =
    if c.job_id == job_id
    then c.rows_rejected + sum_rejected job_id chunks
    else sum_rejected job_id chunks

-- The counters read from the chunks, under a status.
abbrev pub counted : IngestionStatus → List Chunk → Job → Job
counted status chunks j = record {
  id = j.id;
  vendor = j.vendor;
  file_ref = j.file_ref;
  file_sha256 = j.file_sha256;
  file_size_bytes = j.file_size_bytes;
  chunks_total = j.chunks_total;
  chunks_done = count_done j.id chunks;
  rows_processed = sum_processed j.id chunks;
  rows_rejected = sum_rejected j.id chunks;
  status = status;
  last_error = j.last_error;
}

-- `refreshJobProgress`
unfoldable pub refresh_job_progress : ℕ → Store → Store
refresh_job_progress job_id store = with_jobs store (
    update (λ j. j.id == job_id && is_running_job j.status)
      (counted IngestionStatus.running store.chunks) store.jobs)

abbrev pub is_complete : ℕ → Store → Job → Bool
is_complete job_id store j =
    j.id == job_id
    && is_running_job j.status
    && all (λ c. is_done c.status) (chunks_of job_id store.chunks)

-- `completeJobIfDone`
unfoldable pub complete_job_if_done : ℕ → Store → Store × Bool
complete_job_if_done job_id store = (
  with_jobs store (
      update (is_complete job_id store) (counted IngestionStatus.completed store.chunks)
        store.jobs),
  length (filterb (is_complete job_id store) store.jobs) == 1,
)

abbrev pub is_exhausted : ℕ → Store → Job → Bool
is_exhausted job_id store j =
    j.id == job_id
    && is_running_job j.status
    && all (λ c. is_done c.status || is_failed c.status) (chunks_of job_id store.chunks)
    && any (λ c. is_failed c.status) (chunks_of job_id store.chunks)

abbrev pub failed_with : List Chunk → Job → Job
failed_with chunks j = record {
  id = j.id;
  vendor = j.vendor;
  file_ref = j.file_ref;
  file_sha256 = j.file_sha256;
  file_size_bytes = j.file_size_bytes;
  chunks_total = j.chunks_total;
  chunks_done = count_done j.id chunks;
  rows_processed = j.rows_processed;
  rows_rejected = j.rows_rejected;
  status = IngestionStatus.failed;
  last_error = j.last_error;
}

-- `failJobIfExhausted`
unfoldable pub fail_job_if_exhausted : ℕ → Store → Store × Bool
fail_job_if_exhausted job_id store = (
  with_jobs store (update (is_exhausted job_id store) (failed_with store.chunks) store.jobs),
  length (filterb (is_exhausted job_id store) store.jobs) == 1,
)

abbrev pub chunk_failed : Text → ℕ → Chunk → Chunk
chunk_failed reason max_failures c = record {
  job_id = c.job_id;
  chunk_index = c.chunk_index;
  start_offset = c.start_offset;
  end_offset = c.end_offset;
  next_offset = c.next_offset;
  lease_until = c.lease_until;
  attempts = c.attempts;
  failures = c.failures + 1;
  rows_processed = c.rows_processed;
  rows_rejected = c.rows_rejected;
  status = if leb max_failures (c.failures + 1) then failed else c.status;
  last_error = some (take 1000 reason);
}

abbrev pub job_errored : Text → Job → Job
job_errored reason j = record {
  id = j.id;
  vendor = j.vendor;
  file_ref = j.file_ref;
  file_sha256 = j.file_sha256;
  file_size_bytes = j.file_size_bytes;
  chunks_total = j.chunks_total;
  chunks_done = j.chunks_done;
  rows_processed = j.rows_processed;
  rows_rejected = j.rows_rejected;
  status = j.status;
  last_error = some (take 1000 reason);
}

abbrev pub failure_of : Option Chunk → ℕ × Bool
failure_of none = (0, false)
failure_of (some c) = (c.failures, is_failed c.status)

-- `recordChunkFailure`, with the failures of the chunk and whether it gave up.
unfoldable pub record_chunk_failure : ℕ → ℕ → Text → ℕ → Store → Store × (ℕ × Bool)
record_chunk_failure job_id chunk_index reason max_failures store =
    let chunks =
      update (of_key job_id chunk_index) (chunk_failed reason max_failures) store.chunks in
    (
      record {
        chunks = chunks;
        jobs = update (λ j. j.id == job_id) (job_errored reason) store.jobs;
        next_job_id = store.next_job_id;
      },
      failure_of (first_match (of_key job_id chunk_index) chunks),
    )
