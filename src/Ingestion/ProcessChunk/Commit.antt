-- ===== src/Ingestion/ProcessChunk/Commit.antt =====
-- What one commit adds to the counters of a job (`commit` of
-- src/modules/ingestion/commands/process-chunk-command.ts).
use promotion_management_api.Base.{
  ℕ, suc, ◌+◌, ◌≡◌, refl, inl, inr, Bool, true, false, Option, none, some, List, [], ◌∷◌, arith,
  ◌==◌, ==_iff, Bool-cases, filterb, length,
}
use promotion_management_api.Base.Rows.{update}
use promotion_management_api.Ingestion.Repository.Tables.{Chunk, Store}
use promotion_management_api.Ingestion.Repository.Chunks.{
  BatchCheckpoint, checkpointed, is_seen, checkpoint_batch,
}
use promotion_management_api.Ingestion.Repository.Jobs.{sum_processed, sum_rejected}
use promotion_management_api.Product.Repository.{Products, upsert_many}
use promotion_management_api.Ingestion.ProcessChunk.{
  World, Batch, checkpoint_of, commit, committed_or_not,
}

-- An update that adds to the counters of each chunk of a job that it matches.
module _ (batch : BatchCheckpoint) where
  unseen_sums :
      (chunks : List Chunk)
      → length (filterb (is_seen batch) chunks) ≡ 0
      → (sum_processed batch.job_id (update (is_seen batch) (checkpointed batch) chunks)
          ≡ sum_processed batch.job_id chunks)
        × (sum_rejected batch.job_id (update (is_seen batch) (checkpointed batch) chunks)
            ≡ sum_rejected batch.job_id chunks)
  unseen_sums [] h = (refl, refl)
  unseen_sums (c ∷ chunks) h = elim (Bool-cases (is_seen batch c)) [
    | inl e ↦ cc (rw e at h)
    | inr e ↦ let (p, r) = unseen_sums chunks (rw e at h) in rw e (rw (p, r) (refl, refl))
  ]

  is_seen_job : (c : Chunk) → is_seen batch c ≡ true → (c.job_id == batch.job_id) ≡ true
  is_seen_job c h = elim (Bool-cases (c.job_id == batch.job_id)) [
    | inl e ↦ e
    | inr e ↦ cc (rw e at h)
  ]

  -- The one row that a checkpoint matches takes its rows.
  seen_sums :
      (chunks : List Chunk)
      → length (filterb (is_seen batch) chunks) ≡ 1
      → (sum_processed batch.job_id (update (is_seen batch) (checkpointed batch) chunks)
          ≡ sum_processed batch.job_id chunks + batch.rows_processed)
        × (sum_rejected batch.job_id (update (is_seen batch) (checkpointed batch) chunks)
            ≡ sum_rejected batch.job_id chunks + batch.rows_rejected)
  seen_sums [] h = absurd (omega arith)
  seen_sums (c ∷ chunks) h = elim (Bool-cases (is_seen batch c)) [
    | inl e ↦
        let one : suc (length (filterb (is_seen batch) chunks)) ≡ 1 = rw e at h in
        let (p, r) = unseen_sums chunks (omega (arith, one)) in
        let own = is_seen_job c e in rw e (rw own (rw (p, r) (omega arith, omega arith)))
    | inr e ↦
        let (p, r) = seen_sums chunks (rw e at h) in
        rw e (elim (Bool-cases (c.job_id == batch.job_id)) [
          | inl own ↦ rw own (rw (p, r) (omega arith, omega arith))
          | inr other ↦ rw other (p, r)
        ])
  ]

  pub checkpoint_batch-sums :
      (store : Store)
      → (checkpoint_batch batch store).1 ≡ true
      → (sum_processed batch.job_id (checkpoint_batch batch store).0.chunks
          ≡ sum_processed batch.job_id store.chunks + batch.rows_processed)
        × (sum_rejected batch.job_id (checkpoint_batch batch store).0.chunks
            ≡ sum_rejected batch.job_id store.chunks + batch.rows_rejected)
  unfolding checkpoint_batch
  checkpoint_batch-sums store h = seen_sums store.chunks ((==_iff _ 1).0 h)

-- A commit that was refused leaves the tables of the ingestion alone, and one that was not adds just
-- what it answers and its rejected rows.
pub data CommitEnd (job_id : ℕ) (batch : Batch) (world : World) (r : World × Option ℕ)
    : Type 0 where
  lost : r.1 ≡ none → r.0.store ≡ world.store → CommitEnd job_id batch world r
  moved :
      (stored_rows : ℕ)
      → r.1 ≡ some stored_rows
      → sum_processed job_id r.0.store.chunks
        ≡ sum_processed job_id world.store.chunks + stored_rows
      → sum_rejected job_id r.0.store.chunks
        ≡ sum_rejected job_id world.store.chunks + batch.rejected_rows
      → CommitEnd job_id batch world r

pub commit-CommitEnd :
    (job_id chunk_index : ℕ) (batch : Batch) (world : World)
    → CommitEnd job_id batch world (commit job_id chunk_index batch world)
unfolding commit
commit-CommitEnd job_id chunk_index batch world =
    let upserted = upsert_many batch.rows world.products in
    let checkpoint = checkpoint_of job_id chunk_index batch (length upserted.1) in
    ends upserted (checkpoint_batch checkpoint world.store)
      (checkpoint_batch-sums checkpoint world.store)
  where
    ends :
        (upserted : Products × List (Option ℕ)) (r : Store × Bool)
        → (r.1 ≡ true
            → (sum_processed job_id r.0.chunks
                ≡ sum_processed job_id world.store.chunks + length upserted.1)
              × (sum_rejected job_id r.0.chunks
                  ≡ sum_rejected job_id world.store.chunks + batch.rejected_rows))
        → CommitEnd job_id batch world (committed_or_not world upserted r)
    ends (products, ids) (store, true) k = let (p, r) = k refl in moved (length ids) refl p r
    ends (products, ids) (store, false) k = lost refl refl
