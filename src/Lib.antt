-- ===== src/Lib.antt =====
-- Verification of the promotion management API: vendor files become priced products, promotions
-- discount them, and a read model in Redis answers the storefront.
--
-- The program's parts, and the files that model them:
--   * Ingestion (src/modules/ingestion). Ingestion/SplitCsvLine and Ingestion/ParseVendorRow are
--     `splitCsvLine` and `parseVendorRow`: a line becomes a row with its price in cents, or the
--     reason that it is none. Ingestion/ChunkBoundaries is `chunkBoundaries`: a file is the list of
--     its bytes, and a read is cut short at the file's end. Ingestion/Repository is
--     `IngestionRepository` and the transaction of `RegisterImportCommand`: the two tables are lists
--     of rows, each statement (`claimChunk`, `checkpointBatch`, `releaseChunk`, `refreshJobProgress`,
--     `recordChunkFailure`, `completeJobIfDone`, `failJobIfExhausted`) is a function on them, and
--     Steps puts the statements in any order, as concurrent workers do. Ingestion/ReadRangeLines is
--     `readRangeLines`, and Ingestion/ProcessChunk `ProcessChunkCommand`, which runs a chunk on the
--     two tables, the calculator and the products.
--     Ingestion/RegisterImport is `RegisterImportCommand` with the jobs that it enqueues, and the
--     status of an import.
--   * Pricing (src/modules/pricing/domain). Pricing/Facts has the two schemas, Pricing/Conditions the
--     walks over a rule's conditions, Pricing/Rules `BasePriceCalculator.fromRules` and
--     Pricing/Calculator its `calculate`, with the error that spends a calculator.
--     Pricing/CalculatorCache is `BasePriceCalculatorCache`, its loads under numbers.
--   * Promotion (src/modules/promotion). Promotion/Table is the table of promotions with its checks, its
--     exclusion constraints and its foreign key, Promotion/Repository each statement of
--     `PromotionRepository` on it, and Promotion/Commands the three commands of the admin API with
--     their errors and announcements. Promotion/EffectivePrice is `EffectivePriceCalculator` with its
--     two discounts, Promotion/Resolver `PromotionResolver`, and Promotion/Announcer the calls on the
--     queue of `PromotionAnnouncer` and `PromotionScheduler`.
--   * Product (src/modules/product). Product/Repository is `ProductRepository`: `insert`, and
--     `upsertMany` with its dedupe by sku, its guarded update and the ids that it answers;
--     Product/Repository/Batch reads a batch without its map, for the theorems.
--     Product/CreateProduct is `CreateProductCommand`.
--   * Storefront (src/modules/storefront). Storefront/ProductSource is what a recompute reads of the two
--     tables (`ProductSourceRepository`), Storefront/ProductPricer `ProductPricer`, which prices a
--     row by the promotion calculator and the resolver, and Storefront/ProductUpserted
--     `ProductUpsertedHandler`, which writes and removes the entries. Storefront/WriteRepository is
--     `ProductWriteRepository`: its two Lua scripts act on the tokens, hashes and sorted sets of the
--     read model, and a pipeline with a reply that is an error is the last one. Storefront/Rebuild
--     is `RebuildReadModelCommand`, whose recompute is an argument, and
--     Storefront/PromotionChanged the handler that announces the products of a promotion.
--     Storefront/StoredProduct has the fields that the writer stores and the schema by which the
--     reader parses them, Storefront/ProductReads is `ProductReadRepository`, and
--     Storefront/ListProducts and Storefront/ListProductsInput are the listing and its query string.
--   * Reconciler (src/modules/reconciler). Reconciler/Boundaries is the sweep that announces the
--     promotions whose boundaries have passed, with its mark; Reconciler/Orphans the sweep that gives
--     an abandoned import a worker again, on the tables of Ingestion/Repository; Reconciler/Drift the
--     repair of categories, the run of all three and the dispatch to it.
--   * Queue (src/shared/queue). Queue/RetryFailed is `retryFailed` of `EventQueue`.
-- Base has the shared numbers, texts, lists, sorting, JSON values and results.
--
-- Choices. Text is the list of its UTF-16 code units. Numbers that the code holds to safe integers
-- are natural numbers or integers, and the checks against 2^53 - 1 are written out where the code
-- has them; where a text becomes a number before such a check, it is rounded to a double
-- (Base/Double); `bigint` arithmetic is exact. An exception is a value. Fuel: the search for a newline
-- takes at most one window per byte, as does a range of rows, the boundaries one chunk per byte,
-- and `appliedAll` one pipeline per call, and the walks over pages of ids a round more than there
-- are products; the theorems on them hold for every input, so the fuel is enough. The retry of
-- failed jobs takes its rounds as an argument, and its theorem says how many are enough. Instants
-- of the ingestion tables are microseconds, and a lease is truncated to milliseconds; the instants
-- of promotions are microseconds, and the mark of the sweep is in milliseconds.
--
-- Parameters. The package json-rules-engine is a function from its rules and facts to the rules
-- that fired or an error. Node's `StringDecoder` is a record of its operations, the answers of the
-- queue are a test on its calls, and the clock gives a reading for each time it is asked. The
-- replies of Redis to the reader, the members of a sorted set and the replies of `SCAN` to the
-- rebuild, and the failed jobs that BullMQ lists are functions. The rendering of an instant as an
-- ISO text is an argument of the writer.
--
-- Not modelled: HTTP routes but for the order of the checks of a listing, the schemas of the admin
-- requests, configuration, logging, metrics, the wiring of the queues and the processes,
-- timestamps that nothing reads, and the parts that PROJECT.json lists as not modelled.
pub mod Base
pub mod Ingestion
pub mod Pricing
pub mod Promotion
pub mod Product
pub mod Storefront
pub mod Reconciler
pub mod Queue
