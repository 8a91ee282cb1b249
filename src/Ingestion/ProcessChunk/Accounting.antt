-- ===== src/Ingestion/ProcessChunk/Accounting.antt =====
-- What a run reports and what it added to the counters of its job
-- (src/modules/ingestion/commands/process-chunk-command.ts).
use promotion_management_api.Base.{
  ℕ, ◌+◌, ◌≡◌, refl, ◌∙◌, inl, inr, ◌&&◌, Option, none, some, List, [], ◌∷◌, arith, ltb, Bool-cases,
}
use promotion_management_api.Base.Result.{ok, err}
use promotion_management_api.Ingestion.ReadRangeLines.{RangeLine}
use promotion_management_api.Ingestion.Repository.Tables.{Chunk, Store, is_running}
use promotion_management_api.Ingestion.Repository.Chunks.{
  of_key, is_claimable, claimed, claim_chunk, released, is_lease, release_chunk,
}
use promotion_management_api.Ingestion.Repository.Jobs.{
  sum_processed, sum_rejected, refresh_job_progress, complete_job_if_done,
}
use promotion_management_api.Ingestion.Repository.Soundness.{Keeps-sums, All-of}
use promotion_management_api.Pricing.Rules.{Engine}
use promotion_management_api.Ingestion.ProcessChunk.{
  World, with_store, PricedLine, stored, dropped, rules_failed, Totals, ChunkOutcome, not_claimed,
  superseded, exhausted, finished, RunResult, State, commit, into_totals, with_row, with_rejection,
  batch_count, Options, out_of_time, hand_off, between, batched, after_line, close, finish,
  price_line, run_lines,
}
use promotion_management_api.Ingestion.ProcessChunk.Process.{
  RangeReader, start_state, lease_of, run_claimed, run_chunk,
}
use promotion_management_api.Ingestion.ProcessChunk.Commit.{
  CommitEnd, lost, moved, commit-CommitEnd,
}

abbrev pub totals_of : ChunkOutcome → Totals
totals_of not_claimed = record { rows_processed = 0; rows_rejected = 0 }
totals_of (superseded totals) = totals
totals_of (exhausted totals) = totals
totals_of (finished totals) = totals

-- The counters of a job's chunks are these and the totals.
abbrev pub Counts : ℕ → ℕ → ℕ → Store → Totals → Type 0
Counts job_id processed rejected store totals =
    (sum_processed job_id store.chunks ≡ processed + totals.rows_processed)
    × (sum_rejected job_id store.chunks ≡ rejected + totals.rows_rejected)

-- A run that does not throw reports what it added.
abbrev pub IsAccounted : ℕ → ℕ → ℕ → RunResult → Type 0
IsAccounted job_id processed rejected (world, ok outcome) =
    Counts job_id processed rejected world.store (totals_of outcome)
IsAccounted job_id processed rejected (world, err reason) = Unit

module _ (job_id processed rejected : ℕ) where
  Holds : State → Type 0
  Holds s = Counts job_id processed rejected s.world.store s.totals

  into_totals-IsAccounted :
      (go_on : State → RunResult)
      → ((s : State) → Holds s → IsAccounted job_id processed rejected (go_on s))
      → (s : State) (r : World × Option ℕ) → CommitEnd job_id s.batch s.world r
      → Holds s
      → IsAccounted job_id processed rejected (into_totals go_on s r)
  unfolding into_totals Holds
  into_totals-IsAccounted go_on k s (world, none) (lost e same) (p, q) = rw same (p, q)
  into_totals-IsAccounted go_on k s (world, none) (moved n e a b) h = cc
  into_totals-IsAccounted go_on k s (world, some n) (lost e same) h = cc
  into_totals-IsAccounted go_on k s (world, some n) (moved m e a b) (p, q) =
      let same : n ≡ m = ground arith in k _ (omega (arith, a, p, same), omega (arith, b, q))

release_chunk-sums :
    (id job_id chunk_index lease_until : ℕ) (store : Store)
    → (sum_processed id (release_chunk job_id chunk_index lease_until store).chunks
        ≡ sum_processed id store.chunks)
      × (sum_rejected id (release_chunk job_id chunk_index lease_until store).chunks
          ≡ sum_rejected id store.chunks)
unfolding release_chunk
release_chunk-sums id job_id chunk_index lease_until store =
    Keeps-sums id
      (λ c.
        of_key job_id chunk_index c && is_running c.status && is_lease c.lease_until lease_until)
      released store.chunks
      (All-of store.chunks (λ c e. record {
        job = refl;
        processed = λ h. refl;
        rejected = λ h. refl;
        next_offset = λ h. refl;
        end_offset = refl;
      }))

claim_chunk-sums :
    (id job_id chunk_index lease_ms now : ℕ) (store : Store)
    → (sum_processed id (claim_chunk job_id chunk_index lease_ms now store).0.chunks
        ≡ sum_processed id store.chunks)
      × (sum_rejected id (claim_chunk job_id chunk_index lease_ms now store).0.chunks
          ≡ sum_rejected id store.chunks)
unfolding claim_chunk
claim_chunk-sums id job_id chunk_index lease_ms now store =
    Keeps-sums id (λ c. of_key job_id chunk_index c && is_claimable now c) (claimed now lease_ms)
      store.chunks
      (All-of store.chunks (λ c e. record {
        job = refl;
        processed = λ h. refl;
        rejected = λ h. refl;
        next_offset = λ h. refl;
        end_offset = refl;
      }))

module _ (engine : Engine) (options : Options)
    (job_id chunk_index end_of_chunk lease_until processed rejected : ℕ) where
  hand_off-IsAccounted :
      (s : State)
      → Holds job_id processed rejected s
      → IsAccounted job_id processed rejected
          (hand_off engine options job_id chunk_index end_of_chunk lease_until s)
  unfolding Holds hand_off
  hand_off-IsAccounted s (p, q) =
      let (a, b) = release_chunk-sums job_id job_id chunk_index lease_until s.world.store in
      (a ∙ p, b ∙ q)

  close-IsAccounted :
      (s : State)
      → Holds job_id processed rejected s
      → IsAccounted job_id processed rejected
          (close engine options job_id chunk_index end_of_chunk lease_until s)
  unfolding Holds close complete_job_if_done refresh_job_progress
  close-IsAccounted s h = h

  module _ (go_on : State → RunResult)
      (k : (s : State)
        → Holds job_id processed rejected s
        → IsAccounted job_id processed rejected (go_on s)) where
    between-IsAccounted :
        (end_offset : ℕ) (s : State)
        → Holds job_id processed rejected s
        → IsAccounted job_id processed rejected
            (between engine options job_id chunk_index end_of_chunk lease_until go_on end_offset s)
    unfolding between Holds
    between-IsAccounted end_offset s h =
        elim (Bool-cases (
          out_of_time engine options job_id chunk_index end_of_chunk lease_until s.readings
            end_offset)) [ inl e ↦ rw e (hand_off-IsAccounted s h) | inr e ↦ rw e (k _ h) ]

    batched-IsAccounted :
        (end_offset : ℕ) (s : State)
        → Holds job_id processed rejected s
        → IsAccounted job_id processed rejected
            (batched engine options job_id chunk_index end_of_chunk lease_until go_on end_offset s)
    unfolding batched
    batched-IsAccounted end_offset s h =
        elim (Bool-cases (ltb (batch_count s) options.batch_size)) [
          | inl e ↦ rw e (k s h)
          | inr e ↦ rw e (
              into_totals-IsAccounted job_id processed rejected
                (between engine options job_id chunk_index end_of_chunk lease_until go_on
                  end_offset)
                (between-IsAccounted end_offset) s (commit job_id chunk_index s.batch s.world)
                (commit-CommitEnd job_id chunk_index s.batch s.world) h)
        ]

    after_line-IsAccounted :
        (end_offset : ℕ) (s : State) (line : PricedLine)
        → Holds job_id processed rejected s
        → IsAccounted job_id processed rejected (
            after_line engine options job_id chunk_index end_of_chunk lease_until go_on end_offset s
              line)
    unfolding after_line Holds
    after_line-IsAccounted end_offset s (stored product_row) h =
        batched-IsAccounted end_offset (with_row product_row end_offset s) h
    after_line-IsAccounted end_offset s dropped h =
        batched-IsAccounted end_offset (with_rejection end_offset s) h
    after_line-IsAccounted end_offset s (rules_failed reason) h = tt

  finish-IsAccounted :
      (s : State)
      → Holds job_id processed rejected s
      → IsAccounted job_id processed rejected
          (finish engine options job_id chunk_index end_of_chunk lease_until s)
  unfolding finish
  finish-IsAccounted s h = elim (Bool-cases (ltb 0 (batch_count s))) [
    | inl e ↦ rw e (
        into_totals-IsAccounted job_id processed rejected
          (close engine options job_id chunk_index end_of_chunk lease_until) close-IsAccounted s
          (commit job_id chunk_index s.batch s.world)
          (commit-CommitEnd job_id chunk_index s.batch s.world) h)
    | inr e ↦ rw e (close-IsAccounted s h)
  ]

  run_lines-IsAccounted :
      (lines : List RangeLine) (s : State)
      → Holds job_id processed rejected s
      → IsAccounted job_id processed rejected
          (run_lines engine options job_id chunk_index end_of_chunk lease_until lines s)
  unfolding run_lines Holds
  run_lines-IsAccounted [] s h = finish-IsAccounted s h
  run_lines-IsAccounted (l ∷ lines) s h =
      let went =
        price_line engine options job_id chunk_index end_of_chunk lease_until s.world.calculator
          l.line s.row_start in
      after_line-IsAccounted
        (run_lines engine options job_id chunk_index end_of_chunk lease_until lines)
        (run_lines-IsAccounted lines) l.end_offset
        (record s { world = record s.world { calculator = went.0 } }) went.1 h

-- Every run that does not throw, whether it claimed nothing, was superseded, ran out of time or
-- finished, reports just the rows that it added to the counters of its job's chunks: a batch whose
-- checkpoint was refused adds nothing and is not counted.
pub run_chunk-IsAccounted :
    (engine : Engine) (options : Options) (lines_of : RangeReader) (job_id chunk_index db_now : ℕ)
    (world : World)
    → IsAccounted job_id
        (sum_processed job_id world.store.chunks)
        (sum_rejected job_id world.store.chunks)
        (run_chunk engine options lines_of job_id chunk_index db_now world)
unfolding run_chunk Holds
run_chunk-IsAccounted engine options lines_of job_id chunk_index db_now world =
    accounted (claim_chunk job_id chunk_index options.lease_ms db_now world.store)
      (claim_chunk-sums job_id job_id chunk_index options.lease_ms db_now world.store)
  where
    accounted :
        (r : Store × Option Chunk)
        → (sum_processed job_id r.0.chunks ≡ sum_processed job_id world.store.chunks)
          × (sum_rejected job_id r.0.chunks ≡ sum_rejected job_id world.store.chunks)
        → IsAccounted job_id
            (sum_processed job_id world.store.chunks)
            (sum_rejected job_id world.store.chunks)
            (run_claimed engine options lines_of job_id chunk_index world r)
    accounted (store, none) (a, b) = (omega (arith, a), omega (arith, b))
    accounted (store, some c) (a, b) =
        run_lines-IsAccounted engine options job_id chunk_index c.end_offset
          (lease_of c.lease_until) (sum_processed job_id world.store.chunks)
          (sum_rejected job_id world.store.chunks) (lines_of c.next_offset c.end_offset)
          (start_state (with_store world store) c) (omega (arith, a), omega (arith, b))
