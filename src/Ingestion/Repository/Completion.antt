-- ===== src/Ingestion/Repository/Completion.antt =====
-- What a completed job says, in every store that the statements of
-- src/modules/ingestion/db/ingestion-repository.ts reach.
use promotion_management_api.Base.{
  ℕ, ◌+◌, ◌≤◌, ◌<◌, ◌≡◌, refl, sym, ◌∙◌, inl, inr, false, ◌&&◌, List, [], ◌∷◌, ◌++◌, arith, ◌==◌,
  Bool-cases, All, All-append, All-imp, any,
}
use promotion_management_api.Base.Texts.{Text, text_eq}
use promotion_management_api.Ingestion.ChunkBoundaries.{ChunkBoundary}
use promotion_management_api.Ingestion.JobStatus.{IngestionStatus, is_running_job, is_busy}
use promotion_management_api.Ingestion.Repository.Tables.{is_running, Chunk, Job, Store}
use promotion_management_api.Ingestion.Repository.Chunks.{
  of_key, is_claimable, claimed, claim_chunk, released, is_lease, release_chunk,
}
use promotion_management_api.Ingestion.Repository.Jobs.{
  sum_processed, sum_rejected, counted, refresh_job_progress, is_exhausted, failed_with,
  fail_job_if_exhausted,
}
use promotion_management_api.Ingestion.Repository.Registration.{
  VendorFile, chunks_from, new_job, register_import,
}
use promotion_management_api.Ingestion.Repository.Steps.{
  Statement, register, claim, checkpoint, release, refresh, record_failure, complete, fail_job,
  apply, Fits, Reachable, start, next,
}
use promotion_management_api.Ingestion.Repository.Soundness.{IsInRange, IsSoundJob, IsSound}
use promotion_management_api.Ingestion.Repository.Preservation.{
  claimed-IsInRange, released-IsInRange, update_chunks-IsSound, update_jobs-IsSound,
  checkpoint_batch-IsSound, record_chunk_failure-IsSound, complete_job_if_done-IsSound,
}

chunks_from-IsInRange :
    (job_id : ℕ) (boundaries : List ChunkBoundary)
    → All (λ (b : ChunkBoundary). b.start_offset ≤ b.end_offset) boundaries
    → All IsInRange (chunks_from job_id boundaries)
chunks_from-IsInRange job_id [] h = tt
chunks_from-IsInRange job_id (b ∷ boundaries) (h, hs) = (
  record { started = omega arith; not_past = h; done_at_end = λ e. cc },
  chunks_from-IsInRange job_id boundaries hs,
)

-- The chunks of another job add nothing to a job.
chunks_from-other :
    (id job_id : ℕ) (boundaries : List ChunkBoundary) (chunks : List Chunk)
    → id < job_id
    → (sum_processed id (chunks ++ chunks_from job_id boundaries) ≡ sum_processed id chunks)
      × (sum_rejected id (chunks ++ chunks_from job_id boundaries) ≡ sum_rejected id chunks)
chunks_from-other id job_id [] [] h = (refl, refl)
chunks_from-other id job_id (b ∷ boundaries) [] h =
    let other : (job_id == id) ≡ false = ground arith in
    rw other (chunks_from-other id job_id boundaries [] h)
chunks_from-other id job_id boundaries (c ∷ chunks) h =
    let (p, r) = chunks_from-other id job_id boundaries chunks h in rw (p, r) (refl, refl)

chunks_from-read_to_end :
    (id job_id : ℕ) (boundaries : List ChunkBoundary)
    → id < job_id
    → All
        (λ (c : Chunk). c.job_id ≡ id → c.next_offset ≡ c.end_offset)
        (chunks_from job_id boundaries)
chunks_from-read_to_end id job_id [] h = tt
chunks_from-read_to_end id job_id (b ∷ boundaries) h =
    (λ e. absurd (omega arith), chunks_from-read_to_end id job_id boundaries h)

registered-IsSoundJob :
    (chunks : List Chunk) (boundaries : List ChunkBoundary) (job_id : ℕ) (j : Job)
    → IsSoundJob chunks job_id j
    → IsSoundJob (chunks ++ chunks_from job_id boundaries) (job_id + 1) j
registered-IsSoundJob chunks boundaries job_id j s = record {
  known = omega (arith, s.known);
  final = λ e.
      let f = s.final e in
      let (p, r) = chunks_from-other j.id job_id boundaries chunks s.known in
      record {
        read_to_end =
            All-append (λ (c : Chunk). c.job_id ≡ j.id → c.next_offset ≡ c.end_offset) chunks
              (chunks_from job_id boundaries) f.read_to_end
              (chunks_from-read_to_end j.id job_id boundaries s.known);
        processed = f.processed ∙ sym p;
        rejected = f.rejected ∙ sym r;
      };
}

kept-IsSound :
    (store : Store)
    → IsSound store
    → IsSound
        (record { chunks = store.chunks; jobs = store.jobs; next_job_id = store.next_job_id + 1 })
kept-IsSound store sound = record {
  in_range = sound.in_range;
  sound_jobs =
      All-imp store.jobs (λ j s. record { known = omega (arith, s.known); final = s.final })
        sound.sound_jobs;
}

register_import-IsSound :
    (vendor : Text) (file : VendorFile) (store : Store)
    → Fits (register vendor file) store
    → IsSound store
    → IsSound (register_import vendor file store).0
unfolding register_import
register_import-IsSound vendor file store fits sound =
    elim (Bool-cases (any (λ j. text_eq j.file_sha256 file.sha256) store.jobs)) [
      | inl e ↦ rw e (kept-IsSound store sound)
      | inr e ↦
          rw e
            (elim (Bool-cases (any (λ j. text_eq j.vendor vendor && is_busy j.status) store.jobs)) [
              | inl k ↦ rw k (kept-IsSound store sound)
              | inr k ↦ rw k (record {
                in_range =
                    All-append IsInRange store.chunks
                      (chunks_from store.next_job_id file.boundaries) sound.in_range
                      (chunks_from-IsInRange store.next_job_id file.boundaries fits);
                sound_jobs =
                    All-append
                      (IsSoundJob (store.chunks ++ chunks_from store.next_job_id file.boundaries)
                        (store.next_job_id + 1))
                      store.jobs (new_job store.next_job_id vendor file ∷ [])
                      (All-imp store.jobs
                        (registered-IsSoundJob store.chunks file.boundaries store.next_job_id)
                        sound.sound_jobs)
                      (record { known = omega arith; final = λ h. cc }, tt);
              })
            ])
    ]

apply-IsSound :
    (s : Statement) (store : Store) → Fits s store → IsSound store → IsSound (apply s store)
unfolding claim_chunk release_chunk refresh_job_progress fail_job_if_exhausted
apply-IsSound (register vendor file) store fits sound =
    register_import-IsSound vendor file store fits sound
apply-IsSound (claim job_id chunk_index lease_ms now) store fits sound =
    update_chunks-IsSound store (λ c. of_key job_id chunk_index c && is_claimable now c)
      (claimed now lease_ms) (claimed-IsInRange now lease_ms)
      (λ id c. record {
        job = refl;
        processed = λ e. refl;
        rejected = λ e. refl;
        next_offset = λ e. refl;
        end_offset = refl;
      })
      sound
apply-IsSound (checkpoint batch) store fits sound = checkpoint_batch-IsSound batch store fits sound
apply-IsSound (release job_id chunk_index lease_until) store fits sound =
    update_chunks-IsSound store
      (λ c.
        of_key job_id chunk_index c && is_running c.status && is_lease c.lease_until lease_until)
      released released-IsInRange
      (λ id c. record {
        job = refl;
        processed = λ e. refl;
        rejected = λ e. refl;
        next_offset = λ e. refl;
        end_offset = refl;
      })
      sound
apply-IsSound (refresh job_id) store fits sound =
    update_jobs-IsSound store (λ j. j.id == job_id && is_running_job j.status)
      (counted IngestionStatus.running store.chunks)
      (λ j s e. record { known = s.known; final = λ k. cc }) sound
apply-IsSound (record_failure job_id chunk_index reason max_failures) store fits sound =
    record_chunk_failure-IsSound job_id chunk_index reason max_failures store sound
apply-IsSound (complete job_id) store fits sound = complete_job_if_done-IsSound job_id store sound
apply-IsSound (fail_job job_id) store fits sound =
    update_jobs-IsSound store (is_exhausted job_id store) (failed_with store.chunks)
      (λ j s e. record { known = s.known; final = λ k. cc }) sound

-- In every store that the statements reach, in any order: a chunk's checkpoint lies in its range and
-- is at its end once the chunk is done; and a job that is completed has every chunk read to its end
-- and counts exactly the rows that its chunks processed and rejected. No late claim, checkpoint,
-- release, failure or refresh ever changes that.
pub Reachable-IsSound : {store : Store} → Reachable store → IsSound store
Reachable-IsSound start = record { in_range = tt; sound_jobs = tt }
Reachable-IsSound (next s {store} reached fits) =
    apply-IsSound s store fits (Reachable-IsSound reached)
