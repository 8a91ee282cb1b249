-- ===== src/Ingestion/Repository/Preservation.antt =====
-- Each statement of src/modules/ingestion/db/ingestion-repository.ts keeps the tables sound.
use promotion_management_api.Base.{
  ℕ, ◌+◌, ◌≤◌, ◌<◌, ◌≡◌, refl, inl, inr, Bool, true, List, [], ◌∷◌, arith, leb, ◌==◌, ==_iff,
  Bool-cases, All, All-imp, all,
}
use promotion_management_api.Base.Texts.{Text}
use promotion_management_api.Ingestion.JobStatus.{IngestionStatus, is_running_job}
use promotion_management_api.Base.Rows.{update}
use promotion_management_api.Ingestion.Repository.Tables.{
  ChunkStatus, pending, running, done, failed, is_done, Chunk, Job, Store, with_chunks, with_jobs,
}
use promotion_management_api.Ingestion.Repository.Chunks.{
  of_key, claimed, BatchCheckpoint, checkpointed, is_seen, checkpoint_batch, released,
}
use promotion_management_api.Ingestion.Repository.Jobs.{
  chunks_of, counted, is_complete, complete_job_if_done, chunk_failed, job_errored,
  record_chunk_failure,
}
use promotion_management_api.Ingestion.Repository.Steps.{checkpoint, Fits}
use promotion_management_api.Ingestion.Repository.Soundness.{
  IsInRange, IsFinal, IsSoundJob, IsSound, Keeps, update-All, Keeps-sound_jobs, All-of, All-and,
}

pub claimed-IsInRange :
    (now lease_ms : ℕ) (c : Chunk) → IsInRange c → IsInRange (claimed now lease_ms c)
claimed-IsInRange now lease_ms c r = record {
  started = r.started;
  not_past = r.not_past;
  done_at_end = λ e. cc;
}

pub released-IsInRange : (c : Chunk) → IsInRange c → IsInRange (released c)
released-IsInRange c r = record {
  started = r.started;
  not_past = r.not_past;
  done_at_end = λ e. cc;
}

chunk_failed-IsInRange :
    (reason : Text) (max_failures : ℕ) (c : Chunk)
    → IsInRange c
    → IsInRange (chunk_failed reason max_failures c)
chunk_failed-IsInRange reason max_failures c r = record {
  started = r.started;
  not_past = r.not_past;
  done_at_end = elim (Bool-cases (leb max_failures (c.failures + 1))) [
    | inl e ↦ rw e (λ k. cc)
    | inr e ↦ rw e r.done_at_end
  ];
}

abbrev FitsChunk : BatchCheckpoint → Chunk → Type 0
FitsChunk batch c =
    of_key batch.job_id batch.chunk_index c ≡ true → batch.next_offset ≤ c.end_offset

is_seen-true :
    (batch : BatchCheckpoint) (c : Chunk)
    → is_seen batch c ≡ true
    → (of_key batch.job_id batch.chunk_index c ≡ true) × (c.next_offset ≡ batch.seen_offset)
is_seen-true batch c h = ground arith

checkpointed-IsInRange :
    (batch : BatchCheckpoint) (c : Chunk)
    → batch.seen_offset < batch.next_offset
    → IsInRange c × FitsChunk batch c
    → is_seen batch c ≡ true
    → IsInRange (checkpointed batch c)
checkpointed-IsInRange batch c forward (r, fits) seen =
    let (key, at) = is_seen-true batch c seen in
    let within = fits key in
    record {
      started = omega (arith, r.started, at, forward);
      not_past = within;
      done_at_end = elim (Bool-cases (leb c.end_offset batch.next_offset)) [
        | inl e ↦ λ k. ground arith
        | inr e ↦ rw e (λ k. absurd (omega (arith, r.done_at_end k, at, forward, within)))
      ];
    }

-- A checkpoint matches no chunk of a completed job.
checkpointed-Keeps :
    (batch : BatchCheckpoint) (chunks : List Chunk) (j : Job)
    → batch.seen_offset < batch.next_offset
    → All (FitsChunk batch) chunks
    → IsFinal chunks j
    → All (λ (c : Chunk). is_seen batch c ≡ true → Keeps j.id c (checkpointed batch c)) chunks
checkpointed-Keeps batch chunks j forward fits final =
    All-imp chunks
      (λ c (fit, ended) seen.
        let (key, at) = is_seen-true batch c seen in
        let never : c.job_id ≡ j.id → ⊥ = λ own. omega (arith, ended own, at, forward, fit key) in
        record {
          job = refl;
          processed = λ own. absurd (never own);
          rejected = λ own. absurd (never own);
          next_offset = λ own. absurd (never own);
          end_offset = refl;
        })
      (All-and (FitsChunk batch) (λ (c : Chunk). c.job_id ≡ j.id → c.next_offset ≡ c.end_offset)
        chunks fits final.read_to_end)

-- An update of one chunk column or more that neither its place nor its counters are among.
pub update_chunks-IsSound :
    (store : Store) (matches : Chunk → Bool) (set : Chunk → Chunk)
    → ((c : Chunk) → IsInRange c → IsInRange (set c))
    → ((id : ℕ) (c : Chunk) → Keeps id c (set c))
    → IsSound store
    → IsSound (with_chunks store (update matches set store.chunks))
update_chunks-IsSound store matches set range keeps sound = record {
  in_range =
      update-All IsInRange IsInRange matches set store.chunks (λ c r e. range c r) (λ c r. r)
        sound.in_range;
  sound_jobs =
      Keeps-sound_jobs matches set store.chunks store.next_job_id store.jobs
        (λ j final. All-of store.chunks (λ c e. keeps j.id c)) sound.sound_jobs;
}

pub update_jobs-IsSound :
    (store : Store) (matches : Job → Bool) (set : Job → Job)
    → ((j : Job)
        → IsSoundJob store.chunks store.next_job_id j
        → matches j ≡ true
        → IsSoundJob store.chunks store.next_job_id (set j))
    → IsSound store
    → IsSound (with_jobs store (update matches set store.jobs))
update_jobs-IsSound store matches set keeps sound = record {
  in_range = sound.in_range;
  sound_jobs =
      update-All (IsSoundJob store.chunks store.next_job_id)
        (IsSoundJob store.chunks store.next_job_id) matches set store.jobs keeps (λ j s. s)
        sound.sound_jobs;
}

pub checkpoint_batch-IsSound :
    (batch : BatchCheckpoint) (store : Store)
    → Fits (checkpoint batch) store
    → IsSound store
    → IsSound (checkpoint_batch batch store).0
unfolding checkpoint_batch
checkpoint_batch-IsSound batch store (forward, fits) sound = record {
  in_range =
      update-All (λ c. IsInRange c × FitsChunk batch c) IsInRange (is_seen batch)
        (checkpointed batch) store.chunks (λ c r e. checkpointed-IsInRange batch c forward r e)
        (λ c r. r.0) (All-and IsInRange (FitsChunk batch) store.chunks sound.in_range fits);
  sound_jobs =
      Keeps-sound_jobs (is_seen batch) (checkpointed batch) store.chunks store.next_job_id
        store.jobs (λ j final. checkpointed-Keeps batch store.chunks j forward fits final)
        sound.sound_jobs;
}

pub record_chunk_failure-IsSound :
    (job_id chunk_index : ℕ) (reason : Text) (max_failures : ℕ) (store : Store)
    → IsSound store
    → IsSound (record_chunk_failure job_id chunk_index reason max_failures store).0
unfolding record_chunk_failure
record_chunk_failure-IsSound job_id chunk_index reason max_failures store sound =
    update_jobs-IsSound
      (with_chunks store
        (update (of_key job_id chunk_index) (chunk_failed reason max_failures) store.chunks))
      (λ j. j.id == job_id) (job_errored reason)
      (λ j s e. record {
        known = s.known;
        final = λ k.
            let f = s.final k in
            record { read_to_end = f.read_to_end; processed = f.processed; rejected = f.rejected };
      })
      (update_chunks-IsSound store (of_key job_id chunk_index) (chunk_failed reason max_failures)
        (chunk_failed-IsInRange reason max_failures)
        (λ id c. record {
          job = refl;
          processed = λ e. refl;
          rejected = λ e. refl;
          next_offset = λ e. refl;
          end_offset = refl;
        })
        sound)

is_done_sound : (s : ChunkStatus) → is_done s ≡ true → s ≡ done
is_done_sound pending h = cc
is_done_sound running h = cc
is_done_sound done h = refl
is_done_sound failed h = cc

all_done-read_to_end :
    (id : ℕ) (chunks : List Chunk)
    → All IsInRange chunks
    → all (λ c. is_done c.status) (chunks_of id chunks) ≡ true
    → All (λ (c : Chunk). c.job_id ≡ id → c.next_offset ≡ c.end_offset) chunks
all_done-read_to_end id [] r h = tt
all_done-read_to_end id (c ∷ chunks) (r, rs) h = elim (Bool-cases (c.job_id == id)) [
  | inl e ↦ elim (Bool-cases (is_done c.status)) [
    | inl d ↦ (
      λ own. r.done_at_end (is_done_sound c.status d),
      all_done-read_to_end id chunks rs (rw (e, d) at h),
    )
    | inr d ↦ cc (rw (e, d) at h)
  ]
  | inr e ↦ (
    λ own. let own' = (==_iff c.job_id id).1 own in cc,
    all_done-read_to_end id chunks rs (rw e at h),
  )
]

pub complete_job_if_done-IsSound :
    (job_id : ℕ) (store : Store) → IsSound store → IsSound (complete_job_if_done job_id store).0
unfolding complete_job_if_done
complete_job_if_done-IsSound job_id store sound =
    update_jobs-IsSound store (is_complete job_id store)
      (counted IngestionStatus.completed store.chunks)
      (λ j s e. record {
        known = s.known;
        final = λ k. record { read_to_end = ended j e; processed = refl; rejected = refl };
      })
      sound
  where
    ended :
        (j : Job)
        → is_complete job_id store j ≡ true
        → All (λ (c : Chunk). c.job_id ≡ j.id → c.next_offset ≡ c.end_offset) store.chunks
    ended j e = elim (Bool-cases (j.id == job_id)) [
      | inl own ↦ elim (Bool-cases (is_running_job j.status)) [
        | inl r ↦
            rw ((==_iff j.id job_id).0 own)
              (all_done-read_to_end job_id store.chunks sound.in_range (rw (own, r) at e))
        | inr r ↦ cc (rw (own, r) at e)
      ]
      | inr own ↦ cc (rw own at e)
    ]
