-- ===== src/Ingestion/ProcessChunk.antt =====
-- One chunk of a vendor import, a batch at a time
-- (src/modules/ingestion/commands/process-chunk-command.ts). The tables, the rows of the range and
-- the calculator are those of their own modules.
pub mod Process
pub mod Commit
pub mod Accounting
mod Tests
use promotion_management_api.Base.{
  ℕ, ◌+◌, ◌-◌, Bool, true, false, ◌&&◌, Option, none, some, List, [], ◌∷◌, ◌++◌, if◌then◌else◌, ltb,
  leb, length,
}
use promotion_management_api.Base.Int.{ℤ, pos, negsuc}
use promotion_management_api.Base.Digits.{to_text, max_safe_integer}
use promotion_management_api.Base.Texts.{Text, codes}
use promotion_management_api.Base.Result.{Result, ok, err}
use promotion_management_api.Ingestion.ParseVendorRow.{
  VendorRow, VendorRowOutcome, parsed, rejected, parse_vendor_row,
}
use promotion_management_api.Ingestion.ReadRangeLines.{RangeLine}
use promotion_management_api.Ingestion.Repository.Tables.{Chunk, Store}
use promotion_management_api.Ingestion.Repository.Chunks.{
  claim_chunk, BatchCheckpoint, checkpoint_batch, release_chunk,
}
use promotion_management_api.Ingestion.Repository.Jobs.{
  refresh_job_progress, complete_job_if_done, fail_job_if_exhausted, record_chunk_failure,
}
use promotion_management_api.Pricing.Rules.{Engine, Calculator}
use promotion_management_api.Pricing.Calculator.{
  PricingFault, row, rules, Reason, invalid_fact, engine_error, price_below_zero, price_above_max,
  PricingOutcome, priced, refused, calculate,
}
use promotion_management_api.Product.Repository.{ProductUpsert, Products, upsert_many}

-- The database, the calculator, and what was announced and enqueued.
pub record World : Type 0 where
  pub store : Store
  pub products : Products
  pub calculator : Calculator
  pub announced : List (List (Option ℕ))
  pub enqueued : List (ℕ × ℕ)

abbrev pub with_store : World → Store → World
with_store world store = record world { store = store }

-- A line that became a row, one that was the problem itself, and a fault of the rules.
pub data PricedLine : Type 0 where
  stored : ProductUpsert → PricedLine
  dropped : PricedLine
  rules_failed : (reason : Text) → PricedLine

int_text : ℤ → Text
int_text (pos n) = to_text n
int_text (negsuc n) = b'-' ∷ to_text (n + 1)

-- The text of a reason. What the schema says of a fact is of its package, which is not part of the
-- repository, so that a field stands for its issue; such a fault is never one of the rules.
reason_text : Reason → Text
unfolding int_text
reason_text (invalid_fact field) = codes field
reason_text (engine_error message) = message
reason_text (price_below_zero cents) = codes "price " ++ int_text cents ++ codes " is below zero"
reason_text (price_above_max cents) =
    codes "price "
    ++ int_text cents
    ++ codes " is above the largest exact cent value "
    ++ to_text max_safe_integer

priced_line : VendorRow → ℕ → ℕ → PricingOutcome → PricedLine
unfolding reason_text
priced_line vendor_row job_id source_offset (priced cents version) = stored (record {
  sku = vendor_row.sku;
  name = vendor_row.name;
  category = vendor_row.category;
  base_price_cents = cents;
  stock_quantity = vendor_row.stock_quantity;
  pricing_rules_version = version;
  ingest_job_id = job_id;
  ingest_source_offset = source_offset;
})
priced_line vendor_row job_id source_offset (refused row by reason) = dropped
priced_line vendor_row job_id source_offset (refused rules by reason) =
    rules_failed (reason_text reason)

pub record Totals : Type 0 where
  pub rows_processed : ℕ
  pub rows_rejected : ℕ

pub record Batch : Type 0 where
  pub rows : List ProductUpsert
  pub seen_offset : ℕ
  pub next_offset : ℕ
  pub rejected_rows : ℕ

-- `emptyBatch`
abbrev pub empty_batch : ℕ → Batch
empty_batch offset = record {
  rows = [];
  seen_offset = offset;
  next_offset = offset;
  rejected_rows = 0;
}

pub data ChunkOutcome : Type 0 where
  not_claimed : ChunkOutcome
  superseded : Totals → ChunkOutcome
  exhausted : Totals → ChunkOutcome
  finished : Totals → ChunkOutcome

-- What a run leaves, and its outcome or the message that it throws.
abbrev pub RunResult : Type 0
RunResult = World × Result Text ChunkOutcome

-- The variables of the loop; `readings` counts the calls of the clock.
pub record State : Type 0 where
  pub world : World
  pub batch : Batch
  pub row_start : ℕ
  pub totals : Totals
  pub readings : ℕ

announce_ids : List (Option ℕ) → List (List (Option ℕ)) → List (List (Option ℕ))
announce_ids [] announced = announced
announce_ids (id ∷ ids) announced = announced ++ (id ∷ ids) ∷ []

abbrev pub checkpoint_of : ℕ → ℕ → Batch → ℕ → BatchCheckpoint
checkpoint_of job_id chunk_index batch stored_rows = record {
  job_id = job_id;
  chunk_index = chunk_index;
  seen_offset = batch.seen_offset;
  next_offset = batch.next_offset;
  rows_processed = stored_rows;
  rows_rejected = batch.rejected_rows;
}

-- Both tables move, or neither does; the ids that the statement took are gone either way.
committed_or_not : World → Products × List (Option ℕ) → Store × Bool → World × Option ℕ
unfolding announce_ids
committed_or_not world (products, ids) (store, true) = (
  record world { store = store; products = products; announced = announce_ids ids world.announced },
  some (length ids),
)
committed_or_not world (products, ids) (store, false) = (
  record world { products = record { rows = world.products.rows; next_id = products.next_id } },
  none,
)

-- `commit`
unfoldable pub commit : ℕ → ℕ → Batch → World → World × Option ℕ
unfolding committed_or_not
commit job_id chunk_index batch world =
    let upserted = upsert_many batch.rows world.products in
    committed_or_not world upserted
      (checkpoint_batch (checkpoint_of job_id chunk_index batch (length upserted.1)) world.store)

-- `commitInto`, and what follows when the chunk was not lost.
into_totals : (State → RunResult) → State → World × Option ℕ → RunResult
into_totals go_on s (world, none) = (world, ok (superseded s.totals))
into_totals go_on s (world, some stored_rows) = go_on (record s {
  world = world;
  totals = record {
    rows_processed = s.totals.rows_processed + stored_rows;
    rows_rejected = s.totals.rows_rejected + s.batch.rejected_rows;
  };
})

-- The batch with one more line, whose row starts the next one at `end_offset`.
abbrev pub with_row : ProductUpsert → ℕ → State → State
with_row product_row end_offset s = record s {
  batch = record {
    rows = s.batch.rows ++ product_row ∷ [];
    seen_offset = s.batch.seen_offset;
    next_offset = end_offset;
    rejected_rows = s.batch.rejected_rows;
  };
  row_start = end_offset;
}

abbrev pub with_rejection : ℕ → State → State
with_rejection end_offset s = record s {
  batch = record {
    rows = s.batch.rows;
    seen_offset = s.batch.seen_offset;
    next_offset = end_offset;
    rejected_rows = s.batch.rejected_rows + 1;
  };
  row_start = end_offset;
}

abbrev pub batch_count : State → ℕ
batch_count s = length s.batch.rows + s.batch.rejected_rows

is_over : Option ℕ → ℕ → Bool
is_over none elapsed = false
is_over (some budget_ms) elapsed = leb budget_ms elapsed

-- The options of the command. No budget is an infinite one, and `now` gives the clock's readings.
pub record Options : Type 0 where
  pub batch_size : ℕ
  pub lease_ms : ℕ
  pub max_failures : ℕ
  pub budget_ms : Option ℕ
  pub now : ℕ → ℕ

module _ (engine : Engine) (options : Options)
    (job_id chunk_index end_of_chunk lease_until : ℕ) where
  priced_row : Calculator → ℕ → VendorRowOutcome → Calculator × PricedLine
  unfolding priced_line
  priced_row calculator source_offset (rejected reason) = (calculator, dropped)
  priced_row calculator source_offset (parsed vendor_row) =
      let (spent, outcome) = calculate engine calculator (record {
        category = vendor_row.category;
        vendor_price_cents = pos vendor_row.vendor_price_cents;
        stock_quantity = pos vendor_row.stock_quantity;
      }) in
      (spent, priced_line vendor_row job_id source_offset outcome)

  -- `price`
  price_line : Calculator → Text → ℕ → Calculator × PricedLine
  unfolding priced_row
  price_line calculator line source_offset =
      priced_row calculator source_offset (parse_vendor_row line)

  -- `outOfTime`
  out_of_time : ℕ → ℕ → Bool
  unfolding is_over
  out_of_time readings end_offset =
      is_over options.budget_ms (options.now readings - options.now 0)
      && ltb end_offset end_of_chunk

  hand_off : State → RunResult
  hand_off s = (
    record s.world {
      store = release_chunk job_id chunk_index lease_until s.world.store;
      enqueued = s.world.enqueued ++ (job_id, chunk_index) ∷ [];
    },
    ok (exhausted s.totals),
  )

  -- Between two batches: the hand-off, or the next batch.
  between : (State → RunResult) → ℕ → State → RunResult
  unfolding out_of_time hand_off
  between go_on end_offset s =
      if out_of_time s.readings end_offset
      then hand_off s
      else go_on (record s { batch = empty_batch end_offset; readings = s.readings + 1 })

  -- Once a line is in the batch.
  batched : (State → RunResult) → ℕ → State → RunResult
  unfolding into_totals between
  batched go_on end_offset s =
      if ltb (batch_count s) options.batch_size
      then go_on s
      else into_totals (between go_on end_offset) s (commit job_id chunk_index s.batch s.world)

  after_line : (State → RunResult) → ℕ → State → PricedLine → RunResult
  unfolding batched
  after_line go_on end_offset s (stored product_row) =
      batched go_on end_offset (with_row product_row end_offset s)
  after_line go_on end_offset s dropped = batched go_on end_offset (with_rejection end_offset s)
  after_line go_on end_offset s (rules_failed reason) =
      (s.world, err (codes "pricing rules rejected a row: " ++ reason))

  -- The counters before the status.
  close : State → RunResult
  close s =
      let refreshed = refresh_job_progress job_id s.world.store in
      (with_store s.world (complete_job_if_done job_id refreshed).0, ok (finished s.totals))

  -- The end of `run`.
  finish : State → RunResult
  unfolding into_totals close
  finish s =
      if ltb 0 (batch_count s)
      then into_totals close s (commit job_id chunk_index s.batch s.world)
      else close s

  -- The loop of `run` over the lines of the range.
  unfoldable pub run_lines : List RangeLine → State → RunResult
  unfolding price_line after_line finish
  run_lines [] s = finish s
  run_lines (l ∷ lines) s =
      let go_on = run_lines lines in
      let (calculator, line) = price_line s.world.calculator l.line s.row_start in
      after_line go_on l.end_offset
        (record s { world = record s.world { calculator = calculator } }) line
