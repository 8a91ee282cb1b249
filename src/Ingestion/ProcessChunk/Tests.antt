-- ===== src/Ingestion/ProcessChunk/Tests.antt =====
-- A run of a chunk at concrete tables, rules and lines.
use promotion_management_api.Base.{◌≡◌, none, some, [], ◌∷◌, ◌++◌, arith}
use promotion_management_api.Base.Texts.{codes}
use promotion_management_api.Ingestion.ChunkBoundaries.{Bytes, read}
use promotion_management_api.Ingestion.ReadRangeLines.{Decoder, read_range_lines}
use promotion_management_api.Ingestion.ReadRangeLines.Offsets.{
  row_ends, end_offsets, read_range_lines-row_ends,
}
use promotion_management_api.Ingestion.Repository.Tables.{pending}
use promotion_management_api.Ingestion.Repository.Jobs.{sum_processed, sum_rejected}
use promotion_management_api.Ingestion.Repository.Registration.{new_job}
use promotion_management_api.Pricing.Rules.{Engine, fired}
use promotion_management_api.Ingestion.ProcessChunk.{World, Options}
use promotion_management_api.Ingestion.ProcessChunk.Process.{RangeReader, run_chunk}
use promotion_management_api.Ingestion.ProcessChunk.Accounting.{IsAccounted, run_chunk-IsAccounted}

-- A decoder of plain ASCII.
abbrev ascii : Decoder (Unit {0})
ascii = record { initial = tt; write = λ s bytes. (s, bytes); finish = λ s. [] }

abbrev vendor_bytes : Bytes
vendor_bytes = codes "h" ++ 10 ∷ codes "A,B,C,1,1" ++ 10 ∷ codes "bad" ++ 10 ∷ []

read_range_lines-row_ends_example :
    end_offsets (read_range_lines ascii vendor_bytes 2 16 3)
    ≡ row_ends 16 2 2 (read vendor_bytes 2 14)
read_range_lines-row_ends_example =
    read_range_lines-row_ends ascii 16 vendor_bytes 2 3 (omega arith) (omega arith)

abbrev lines_of : RangeReader
lines_of from to = read_range_lines ascii vendor_bytes from to 65536

abbrev no_change : Engine
no_change compiled facts = fired []

abbrev options : Options
options = record {
  batch_size = 1;
  lease_ms = 1000;
  max_failures = 3;
  budget_ms = some 10;
  now = λ reading. reading;
}

abbrev world : World
world = record {
  store = record {
    chunks =
        record {
          job_id = 1;
          chunk_index = 0;
          start_offset = 2;
          end_offset = 16;
          next_offset = 2;
          lease_until = none;
          attempts = 0;
          failures = 0;
          rows_processed = 0;
          rows_rejected = 0;
          status = pending;
          last_error = none;
        }
        ∷ [];
    jobs =
        new_job 1 (codes "acme")
          (record { file_ref = codes "week.csv"; size = 16; sha256 = codes "5e"; boundaries = [] })
        ∷ [];
    next_job_id = 2;
  };
  products = record { rows = []; next_id = 1 };
  calculator = record { rules = []; rule_ids = []; pricing_rules_version = 1; spent_by = none };
  announced = [];
  enqueued = [];
}

run_chunk-IsAccounted_example :
    IsAccounted 1
      (sum_processed 1 world.store.chunks)
      (sum_rejected 1 world.store.chunks)
      (run_chunk no_change options lines_of 1 0 5 world)
run_chunk-IsAccounted_example = run_chunk-IsAccounted no_change options lines_of 1 0 5 world
