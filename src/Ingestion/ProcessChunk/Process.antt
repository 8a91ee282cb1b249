-- ===== src/Ingestion/ProcessChunk/Process.antt =====
-- `run` and `process` of src/modules/ingestion/commands/process-chunk-command.ts.
use promotion_management_api.Base.{ℕ, Option, none, some, List, if◌then◌else◌}
use promotion_management_api.Base.Texts.{Text}
use promotion_management_api.Base.Result.{ok, err}
use promotion_management_api.Ingestion.ReadRangeLines.{RangeLine}
use promotion_management_api.Ingestion.Repository.Tables.{Chunk, Store}
use promotion_management_api.Ingestion.Repository.Chunks.{claim_chunk}
use promotion_management_api.Ingestion.Repository.Jobs.{fail_job_if_exhausted, record_chunk_failure}
use promotion_management_api.Pricing.Rules.{Engine}
use promotion_management_api.Ingestion.ProcessChunk.{
  World, with_store, Options, State, empty_batch, not_claimed, RunResult, run_lines,
}

-- `readRangeLines` on the job's file, between two offsets.
abbrev pub RangeReader : Type 0
RangeReader = ℕ → ℕ → List RangeLine

abbrev pub lease_of : Option ℕ → ℕ
lease_of none = 0
lease_of (some lease) = lease

abbrev pub start_state : World → Chunk → State
start_state world c = record {
  world = world;
  batch = empty_batch c.next_offset;
  row_start = c.next_offset;
  totals = record { rows_processed = 0; rows_rejected = 0 };
  readings = 1;
}

module _ (engine : Engine) (options : Options) (lines_of : RangeReader)
    (job_id chunk_index : ℕ) where
  -- A claim answers with a lease, so `lease_of` never meets a chunk without one.
  unfoldable pub run_claimed : World → Store × Option Chunk → RunResult
  run_claimed world (store, none) = (with_store world store, ok not_claimed)
  run_claimed world (store, some c) =
      run_lines engine options job_id chunk_index c.end_offset (lease_of c.lease_until)
        (lines_of c.next_offset c.end_offset) (start_state (with_store world store) c)

  -- `run`; `db_now` is the clock of the database.
  unfoldable pub run_chunk : ℕ → World → RunResult
  unfolding run_claimed
  run_chunk db_now world =
      run_claimed world (claim_chunk job_id chunk_index options.lease_ms db_now world.store)

  failed_run : Text → World → RunResult
  failed_run reason world =
      let (store, (failures, gave_up)) =
        record_chunk_failure job_id chunk_index reason options.max_failures world.store in
      (
        with_store world (if gave_up then (fail_job_if_exhausted job_id store).0 else store),
        err reason,
      )

  processed : RunResult → RunResult
  unfolding failed_run
  processed (world, ok outcome) = (world, ok outcome)
  processed (world, err reason) = failed_run reason world

  -- `process`: what a run throws is recorded on the chunk, and thrown again.
  unfoldable pub process : ℕ → World → RunResult
  unfolding processed
  process db_now world = processed (run_chunk db_now world)
