-- ===== src/Reconciler/Orphans.antt =====
-- The sweep over the imports that no worker holds
-- (src/modules/reconciler/db/orphan-chunk-repository.ts and
-- commands/sweep-orphan-chunks-command.ts). Instants are microseconds.
pub mod Claimable
pub mod Settled
mod Tests
use promotion_management_api.Base.{
  ℕ, ◌+◌, ◌*◌, Bool, true, false, ◌&&◌, ◌||◌, Option, none, some, List, [], ◌∷◌, ◌++◌, map,
  if◌then◌else◌, ltb, ◌==◌, filterb, any, take, length,
}
use promotion_management_api.Base.Sort.{sort_by}
use promotion_management_api.Ingestion.JobStatus.{is_running_job}
use promotion_management_api.Ingestion.Repository.Tables.{is_pending, is_running, Chunk, Job, Store}
use promotion_management_api.Ingestion.Repository.Jobs.{complete_job_if_done, fail_job_if_exhausted}

abbrev pub limit : ℕ
limit = 1000

-- The payload of `chunk.process`.
pub record OrphanChunk : Type 0 where
  pub job_id : ℕ
  pub chunk_index : ℕ

abbrev pub is_expired : (grace_ms now : ℕ) → Option ℕ → Bool
is_expired grace_ms now none = true
is_expired grace_ms now (some lease) = ltb (lease + grace_ms * 1000) now

-- The conditions on a job; `touched` is its `updated_at`.
unfoldable pub is_stalled : (touched : ℕ → ℕ) → (grace_ms now : ℕ) → Job → Bool
is_stalled touched grace_ms now j =
    is_running_job j.status && ltb (touched j.id + grace_ms * 1000) now

-- The conditions on a chunk.
unfoldable pub is_free : (grace_ms now : ℕ) → Chunk → Bool
is_free grace_ms now c =
    is_pending c.status || is_running c.status && is_expired grace_ms now c.lease_until

-- The join is by the primary key of the jobs, so a chunk meets one of them.
unfoldable pub is_orphan : (touched : ℕ → ℕ) → (grace_ms now : ℕ) → Store → Chunk → Bool
is_orphan touched grace_ms now store c =
    any (λ (j : Job). j.id == c.job_id && is_stalled touched grace_ms now j) store.jobs
    && is_free grace_ms now c

abbrev pub is_before : Chunk → Chunk → Bool
is_before c d = ltb c.job_id d.job_id || c.job_id == d.job_id && ltb c.chunk_index d.chunk_index

abbrev pub orphan_of : Chunk → OrphanChunk
orphan_of c = record { job_id = c.job_id; chunk_index = c.chunk_index }

-- `orphaned`
unfoldable pub orphaned : (touched : ℕ → ℕ) → (grace_ms now : ℕ) → Store → List OrphanChunk
orphaned touched grace_ms now store =
    map orphan_of
      (take limit (sort_by is_before (filterb (is_orphan touched grace_ms now store) store.chunks)))

abbrev pub is_running_row : Job → Bool
is_running_row j = is_running_job j.status

-- `runningJobIds`
unfoldable pub running_job_ids : Store → List ℕ
running_job_ids store =
    map (λ (j : Job). j.id)
      (sort_by (λ (i j : Job). ltb i.id j.id) (filterb is_running_row store.jobs))

-- What one pass of the loop over the jobs does: it settles the job, gives it up, or leaves it.
pub data Verdict : Type 0 where
  settled given_up left : Verdict

given_up_or_left : Bool → Verdict
given_up_or_left true = given_up
given_up_or_left false = left

unfoldable pub settle : ℕ → Store → Store × Verdict
unfolding given_up_or_left
settle job_id store =
    let (next, done) = complete_job_if_done job_id store in
    let (last, failed) = fail_job_if_exhausted job_id next in
    if done then (next, settled) else (last, given_up_or_left failed)

-- The loop over the jobs.
unfoldable pub settle_all : List ℕ → Store → Store × List Verdict
settle_all [] store = (store, [])
settle_all (job_id ∷ job_ids) store =
    let (next, verdict) = settle job_id store in
    let (last, verdicts) = settle_all job_ids next in (last, verdict ∷ verdicts)

pub record OrphanSweep : Type 0 where
  pub store : Store
  pub verdicts : List Verdict
  pub published : List OrphanChunk
  pub enqueued : ℕ

-- `execute`; `accepts` is whether the queue takes a call, and a refusal only leaves it uncounted.
unfoldable pub sweep_orphans :
    (accepts : OrphanChunk → Bool) → (touched : ℕ → ℕ) → (grace_ms now : ℕ) → Store → OrphanSweep
sweep_orphans accepts touched grace_ms now store =
    let (next, verdicts) = settle_all (running_job_ids store) store in
    let orphans = orphaned touched grace_ms now next in
    record {
      store = next;
      verdicts = verdicts;
      published = orphans;
      enqueued = length (filterb accepts orphans);
    }
