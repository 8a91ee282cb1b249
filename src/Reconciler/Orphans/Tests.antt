-- ===== src/Reconciler/Orphans/Tests.antt =====
-- The orphan sweep at an import whose one open chunk has an expired lease.
use promotion_management_api.Base.{ℕ, Bool, true, ◌≡◌, refl, some, none, [], ◌∷◌, arith, All}
use promotion_management_api.Base.Texts.{codes}
use promotion_management_api.Base.Rows.{here}
use promotion_management_api.Base.Sort.{sort_by}
use promotion_management_api.Ingestion.JobStatus.{IngestionStatus}
use promotion_management_api.Ingestion.Repository.Tables.{Chunk, Job, Store, running, done}
use promotion_management_api.Ingestion.Repository.Chunks.{claim_chunk}
use promotion_management_api.Reconciler.Orphans.{
  OrphanChunk, orphaned, is_orphan, is_stalled, is_free, sweep_orphans,
}
use promotion_management_api.Reconciler.Orphans.Claimable.{orphaned-claim_chunk}
use promotion_management_api.Reconciler.Orphans.Settled.{IsWorkable, sweep_orphans-IsWorkable}

abbrev whole : Chunk
whole = record {
  job_id = 1;
  chunk_index = 0;
  start_offset = 0;
  end_offset = 100;
  next_offset = 100;
  lease_until = none;
  attempts = 1;
  failures = 0;
  rows_processed = 5;
  rows_rejected = 0;
  status = done;
  last_error = none;
}

abbrev abandoned : Chunk
abandoned = record whole {
  chunk_index = 1;
  start_offset = 100;
  end_offset = 200;
  lease_until = some 2000;
  rows_processed = 0;
  status = running;
}

abbrev job : Job
job = record {
  id = 1;
  vendor = codes "acme";
  file_ref = codes "acme.csv";
  file_sha256 = codes "00";
  file_size_bytes = 200;
  chunks_total = 2;
  chunks_done = 0;
  rows_processed = 0;
  rows_rejected = 0;
  status = IngestionStatus.running;
  last_error = none;
}

abbrev finished_job : Job
finished_job = record job { id = 2; vendor = codes "other" }

abbrev store : Store
store = record {
  chunks = whole ∷ abandoned ∷ record whole { job_id = 2 } ∷ [];
  jobs = job ∷ finished_job ∷ [];
  next_job_id = 3;
}

abbrev touched : ℕ → ℕ
touched job_id = 1000

abbrev orphan : OrphanChunk
orphan = record { job_id = 1; chunk_index = 1 }

orphan_found : orphaned touched 1 5000 store ≡ orphan ∷ []
unfolding orphaned is_orphan is_stalled is_free sort_by
orphan_found = refl

orphaned-claim_chunk_example :
    (c : Chunk) × (c.job_id ≡ 1)
    × (c.chunk_index ≡ 1)
    × ((claim_chunk 1 1 90000 6000 store).1 ≡ some c)
orphaned-claim_chunk_example =
    orphaned-claim_chunk touched 1 5000 6000 90000 store orphan (omega arith)
      (rw orphan_found (here refl))

abbrev accepts : OrphanChunk → Bool
accepts o = true

sweep_orphans-IsWorkable_example :
    All
      (IsWorkable (sweep_orphans accepts touched 1 5000 store).store.chunks)
      (sweep_orphans accepts touched 1 5000 store).store.jobs
sweep_orphans-IsWorkable_example = sweep_orphans-IsWorkable accepts touched 1 5000 store
