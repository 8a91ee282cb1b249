-- ===== src/Ingestion/RegisterImport.antt =====
-- The registration of a vendor file and the jobs that it enqueues
-- (src/modules/ingestion/commands/register-import-command.ts), and the status of an import
-- (queries/import-status-query.ts). The size and the hash of the file come from Node.
use promotion_management_api.Base.{
  ℕ, Bool, true, false, Option, none, some, List, [], ◌∷◌, if◌then◌else◌, ◌==◌, length,
}
use promotion_management_api.Base.Texts.{Text}
use promotion_management_api.Base.Rows.{first_match}
use promotion_management_api.Ingestion.ChunkBoundaries.{ChunkBoundary, chunk_boundaries}
use promotion_management_api.Ingestion.JobStatus.{IngestionStatus}
use promotion_management_api.Ingestion.Repository.Tables.{Job, Store}
use promotion_management_api.Ingestion.Repository.Registration.{
  ImportRegistrationOutcome, registered, vendor_busy, duplicate_file, VendorFile, register_import,
}

-- `ChunkProcess`
pub record ChunkProcess : Type 0 where
  pub job_id : ℕ
  pub chunk_index : ℕ

-- The calls of `enqueue` up to the first that throws, and whether none did.
unfoldable pub enqueue_all :
    (accepts : ChunkProcess → Bool) → (job_id : ℕ) → List ChunkBoundary → List ChunkProcess × Bool
enqueue_all accepts job_id [] = ([], true)
enqueue_all accepts job_id (b ∷ boundaries) =
    let call : ChunkProcess = record { job_id = job_id; chunk_index = b.chunk_index } in
    let rest = enqueue_all accepts job_id boundaries in
    if accepts call then (call ∷ rest.0, rest.1) else (call ∷ [], false)

-- The tables, the calls, and the outcome; nothing stands for a call that threw.
pub record Registration : Type 0 where
  pub store : Store
  pub enqueued : List ChunkProcess
  pub outcome : Option ImportRegistrationOutcome

after_commit :
    (ChunkProcess → Bool) → List ChunkBoundary → Store × ImportRegistrationOutcome → Registration
after_commit accepts boundaries (store, registered job_id chunks_total) =
    let (enqueued, taken) = enqueue_all accepts job_id boundaries in
    record {
      store = store;
      enqueued = enqueued;
      outcome = if taken then some (registered job_id chunks_total) else none;
    }
after_commit accepts boundaries (store, vendor_busy) = record {
  store = store;
  enqueued = [];
  outcome = some vendor_busy;
}
after_commit accepts boundaries (store, duplicate_file) = record {
  store = store;
  enqueued = [];
  outcome = some duplicate_file;
}

-- The file that `execute` reads, from its bytes.
unfoldable pub vendor_file :
    (file_ref sha256 : Text) → (bytes : List ℕ) → (chunk_bytes : ℕ) → VendorFile
vendor_file file_ref sha256 bytes chunk_bytes = record {
  file_ref = file_ref;
  size = length bytes;
  sha256 = sha256;
  boundaries = chunk_boundaries bytes chunk_bytes;
}

-- `execute`: the jobs are enqueued after the commit.
unfoldable pub execute :
    (accepts : ChunkProcess → Bool) → (vendor : Text) → VendorFile → Store → Registration
unfolding after_commit
execute accepts vendor file store =
    after_commit accepts file.boundaries (register_import vendor file store)

-- `ImportStatus`, without the two timestamps.
pub record ImportStatus : Type 0 where
  pub id : ℕ
  pub vendor : Text
  pub status : IngestionStatus
  pub chunks_total : ℕ
  pub chunks_done : ℕ
  pub rows_processed : ℕ
  pub rows_rejected : ℕ
  pub last_error : Option Text

status_of : Option Job → Option ImportStatus
status_of none = none
status_of (some j) = some (record {
  id = j.id;
  vendor = j.vendor;
  status = j.status;
  chunks_total = j.chunks_total;
  chunks_done = j.chunks_done;
  rows_processed = j.rows_processed;
  rows_rejected = j.rows_rejected;
  last_error = j.last_error;
})

-- `ImportStatusQuery.byId`
unfoldable pub by_id : ℕ → Store → Option ImportStatus
unfolding status_of
by_id id store = status_of (first_match (λ (j : Job). j.id == id) store.jobs)

file_of : Option Job → Option (ℕ × Text)
file_of none = none
file_of (some j) = some (j.id, j.file_ref)

-- `findIngestionJob`
unfoldable pub find_ingestion_job : ℕ → Store → Option (ℕ × Text)
unfolding file_of
find_ingestion_job id store = file_of (first_match (λ (j : Job). j.id == id) store.jobs)
