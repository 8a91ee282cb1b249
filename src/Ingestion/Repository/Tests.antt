-- ===== src/Ingestion/Repository/Tests.antt =====
-- The theorems on the ingestion tables at a concrete run.
use promotion_management_api.Base.{◌≡◌, refl, true, none, List, [], ◌∷◌, arith}
use promotion_management_api.Base.Texts.{codes}
use promotion_management_api.Ingestion.Repository.Tables.{Chunk, Store, pending}
use promotion_management_api.Ingestion.Repository.Chunks.{
  claim_chunk, is_claimable, claimed, BatchCheckpoint, checkpoint_batch,
}
use promotion_management_api.Ingestion.Repository.Jobs.{complete_job_if_done, record_chunk_failure}
use promotion_management_api.Ingestion.Repository.Registration.{VendorFile, register_import}
use promotion_management_api.Ingestion.Repository.Steps.{
  Statement, register, claim, checkpoint, release, refresh, complete, apply, empty_store, Reachable,
  start, next,
}
use promotion_management_api.Ingestion.Repository.Soundness.{IsSound}
use promotion_management_api.Ingestion.Repository.Held.{run}
use promotion_management_api.Ingestion.Repository.Claim.{claim_chunk-excludes}
use promotion_management_api.Ingestion.Repository.Completion.{Reachable-IsSound}

abbrev vendor_file : VendorFile
vendor_file = record {
  file_ref = codes "week.csv";
  size = 4;
  sha256 = codes "5e";
  boundaries = record { chunk_index = 0; start_offset = 2; end_offset = 4 } ∷ [];
}

abbrev registration : Statement
registration = register (codes "acme") vendor_file

abbrev registered_store : Store
registered_store = apply registration empty_store

abbrev first_chunk : Chunk
first_chunk = record {
  job_id = 1;
  chunk_index = 0;
  start_offset = 2;
  end_offset = 4;
  next_offset = 2;
  lease_until = none;
  attempts = 0;
  failures = 0;
  rows_processed = 0;
  rows_rejected = 0;
  status = pending;
  last_error = none;
}

abbrev meanwhile : List Statement
meanwhile = refresh 1 ∷ claim 1 0 1000 500000 ∷ release 1 0 7 ∷ []

claim_chunk-excludes_example :
    claim_chunk 1 0 1000 900000 (run meanwhile (claim_chunk 1 0 1000 0 registered_store).0)
    ≡ (run meanwhile (claim_chunk 1 0 1000 0 registered_store).0, none)
unfolding register_import claim_chunk is_claimable
claim_chunk-excludes_example =
    claim_chunk-excludes 1 0 1000 0 registered_store first_chunk {c = claimed 0 1000 first_chunk}
      refl (omega arith) refl meanwhile (tt, (omega arith, ((λ j i e. absurd (omega arith)), tt)))
      1000 900000 (omega arith)

-- The whole chunk in one batch.
abbrev whole_batch : BatchCheckpoint
whole_batch = record {
  job_id = 1;
  chunk_index = 0;
  seen_offset = 2;
  next_offset = 4;
  rows_processed = 1;
  rows_rejected = 0;
}

abbrev completed_store : Store
completed_store =
    apply (complete 1) (apply (checkpoint whole_batch) (apply (claim 1 0 1000 0) registered_store))

completed_store-Reachable : Reachable completed_store
unfolding register_import claim_chunk is_claimable
completed_store-Reachable =
    next (complete 1)
      (next (checkpoint whole_batch)
        (next (claim 1 0 1000 0) (next registration start (omega arith, tt)) tt)
        (omega arith, ((λ k. omega arith), tt)))
      tt

Reachable-IsSound_example : IsSound completed_store
Reachable-IsSound_example = Reachable-IsSound completed_store-Reachable

-- A failure recorded on a chunk that is done, its last one allowed, makes it failed.
done_then_failed : (record_chunk_failure 1 0 (codes "lost") 1 completed_store).1 ≡ (1, true)
unfolding register_import claim_chunk is_claimable checkpoint_batch record_chunk_failure
    complete_job_if_done
done_then_failed = refl
