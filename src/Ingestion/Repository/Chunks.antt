-- ===== src/Ingestion/Repository/Chunks.antt =====
-- The statements on the chunks (src/modules/ingestion/db/ingestion-repository.ts). Instants are
-- microseconds.
use promotion_management_api.Base.{
  ℕ, ◌+◌, ◌*◌, ◌/◌, Bool, true, false, ◌&&◌, ◌||◌, Option, none, some, if◌then◌else◌, ltb, leb,
  ◌==◌, filterb, length,
}
use promotion_management_api.Base.Rows.{update, first_match}
use promotion_management_api.Ingestion.Repository.Tables.{
  pending, running, done, is_pending, is_running, Chunk, Store, with_chunks,
}

abbrev pub of_key : ℕ → ℕ → Chunk → Bool
of_key job_id chunk_index c = c.job_id == job_id && c.chunk_index == chunk_index

unfoldable pub lease_is_over : ℕ → Option ℕ → Bool
lease_is_over now none = true
lease_is_over now (some lease) = ltb lease now

-- The `WHERE` of a claim but for the key: pending, or running with its lease over.
unfoldable pub is_claimable : ℕ → Chunk → Bool
unfolding lease_is_over
is_claimable now c = is_pending c.status || is_running c.status && lease_is_over now c.lease_until

-- The end of the lease, truncated to milliseconds.
abbrev pub lease_from : ℕ → ℕ → ℕ
lease_from now lease_ms = (now + lease_ms * 1000) / 1000 * 1000

abbrev pub claimed : ℕ → ℕ → Chunk → Chunk
claimed now lease_ms c = record {
  job_id = c.job_id;
  chunk_index = c.chunk_index;
  start_offset = c.start_offset;
  end_offset = c.end_offset;
  next_offset = c.next_offset;
  lease_until = some (lease_from now lease_ms);
  attempts = c.attempts + 1;
  failures = c.failures;
  rows_processed = c.rows_processed;
  rows_rejected = c.rows_rejected;
  status = running;
  last_error = c.last_error;
}

abbrev pub set_of_claim : ℕ → ℕ → Option Chunk → Option Chunk
set_of_claim now lease_ms none = none
set_of_claim now lease_ms (some c) = some (claimed now lease_ms c)

-- `claimChunk`
unfoldable pub claim_chunk : ℕ → ℕ → ℕ → ℕ → Store → Store × Option Chunk
claim_chunk job_id chunk_index lease_ms now store =
    let matches : Chunk → Bool = λ c. of_key job_id chunk_index c && is_claimable now c in
    (
      with_chunks store (update matches (claimed now lease_ms) store.chunks),
      set_of_claim now lease_ms (first_match matches store.chunks),
    )

-- `BatchCheckpoint`
pub record BatchCheckpoint : Type 0 where
  pub job_id : ℕ
  pub chunk_index : ℕ
  pub seen_offset : ℕ
  pub next_offset : ℕ
  pub rows_processed : ℕ
  pub rows_rejected : ℕ

abbrev pub checkpointed : BatchCheckpoint → Chunk → Chunk
checkpointed batch c = record {
  job_id = c.job_id;
  chunk_index = c.chunk_index;
  start_offset = c.start_offset;
  end_offset = c.end_offset;
  next_offset = batch.next_offset;
  lease_until = c.lease_until;
  attempts = c.attempts;
  failures = c.failures;
  rows_processed = c.rows_processed + batch.rows_processed;
  rows_rejected = c.rows_rejected + batch.rows_rejected;
  status = if leb c.end_offset batch.next_offset then done else c.status;
  last_error = c.last_error;
}

abbrev pub is_seen : BatchCheckpoint → Chunk → Bool
is_seen batch c = of_key batch.job_id batch.chunk_index c && c.next_offset == batch.seen_offset

-- `checkpointBatch`
unfoldable pub checkpoint_batch : BatchCheckpoint → Store → Store × Bool
checkpoint_batch batch store = (
  with_chunks store (update (is_seen batch) (checkpointed batch) store.chunks),
  length (filterb (is_seen batch) store.chunks) == 1,
)

abbrev pub released : Chunk → Chunk
released c = record {
  job_id = c.job_id;
  chunk_index = c.chunk_index;
  start_offset = c.start_offset;
  end_offset = c.end_offset;
  next_offset = c.next_offset;
  lease_until = none;
  attempts = c.attempts;
  failures = c.failures;
  rows_processed = c.rows_processed;
  rows_rejected = c.rows_rejected;
  status = pending;
  last_error = c.last_error;
}

abbrev pub is_lease : Option ℕ → ℕ → Bool
is_lease none lease_until = false
is_lease (some lease) lease_until = lease == lease_until

-- `releaseChunk`
unfoldable pub release_chunk : ℕ → ℕ → ℕ → Store → Store
release_chunk job_id chunk_index lease_until store =
    let matches : Chunk → Bool = λ c.
      of_key job_id chunk_index c && is_running c.status && is_lease c.lease_until lease_until in
    with_chunks store (update matches released store.chunks)
