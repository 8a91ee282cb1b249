-- ===== src/Ingestion/Repository/Held.antt =====
-- What keeps a chunk in the hands of one worker (the statements of
-- src/modules/ingestion/db/ingestion-repository.ts).
use promotion_management_api.Base.{
  ℕ, ◌+◌, ◌≤◌, ◌<◌, ◌≡◌, ◌≢◌, refl, sym, ap, ◌∙◌, inl, inr, Bool, true, false, ◌&&◌, Option, none,
  some, List, [], ◌∷◌, arith, leb, ==_iff, Bool-cases, All, All-append, any,
}
use promotion_management_api.Base.Texts.{Text, text_eq}
use promotion_management_api.Ingestion.ChunkBoundaries.{ChunkBoundary}
use promotion_management_api.Ingestion.JobStatus.{is_busy}
use promotion_management_api.Base.Rows.{update}
use promotion_management_api.Ingestion.Repository.Tables.{is_pending, is_running, Chunk, Store}
use promotion_management_api.Ingestion.Repository.Chunks.{
  of_key, lease_is_over, is_claimable, claimed, claim_chunk, BatchCheckpoint, checkpointed, is_seen,
  checkpoint_batch, released, is_lease, release_chunk,
}
use promotion_management_api.Ingestion.Repository.Jobs.{
  refresh_job_progress, complete_job_if_done, fail_job_if_exhausted, chunk_failed,
  record_chunk_failure,
}
use promotion_management_api.Ingestion.Repository.Registration.{
  VendorFile, chunks_from, register_import,
}
use promotion_management_api.Ingestion.Repository.Steps.{
  Statement, register, claim, checkpoint, release, refresh, record_failure, complete, fail_job,
  apply,
}
use promotion_management_api.Ingestion.Repository.Soundness.{update-All}

-- Not to be claimed before the lease is over: running under it, or no longer to be run at all.
pub record IsHeldChunk (lease : ℕ) (c : Chunk) : Type 0 where
  pub not_pending : is_pending c.status ≡ false
  pub under_lease : is_running c.status ≡ true → c.lease_until ≡ some lease

-- No worker but the holder may take the chunk before its lease is over.
pub record IsHeld (job_id chunk_index lease : ℕ) (store : Store) : Type 0 where
  pub known : job_id < store.next_job_id
  pub held :
      All (λ (c : Chunk). of_key job_id chunk_index c ≡ true → IsHeldChunk lease c) store.chunks

-- What else may run: anything but a claim after the lease's end, or the holder's own release.
abbrev pub IsOther : ℕ → ℕ → ℕ → Statement → Type 0
IsOther job_id chunk_index lease (claim j i lease_ms now) = now ≤ lease
IsOther job_id chunk_index lease (release j i l) = j ≡ job_id → i ≡ chunk_index → l ≢ lease
IsOther job_id chunk_index lease _ = Unit

abbrev pub run : List Statement → Store → Store
run [] store = store
run (s ∷ statements) store = run statements (apply s store)

pub IsHeldChunk-not_claimable :
    (lease now : ℕ) (c : Chunk) → now ≤ lease → IsHeldChunk lease c → is_claimable now c ≡ false
unfolding is_claimable lease_is_over
IsHeldChunk-not_claimable lease now c h held = elim (Bool-cases (is_running c.status)) [
  | inl r ↦ rw (held.not_pending, r, held.under_lease r) (ground arith)
  | inr r ↦ rw (held.not_pending, r) refl
]

-- An update keeps a chunk held if it does so wherever it matches.
update-held :
    (job_id chunk_index lease : ℕ) (matches : Chunk → Bool) (set : Chunk → Chunk)
    (chunks : List Chunk)
    → ((c : Chunk) → of_key job_id chunk_index (set c) ≡ of_key job_id chunk_index c)
    → ((c : Chunk)
        → of_key job_id chunk_index c ≡ true
        → matches c ≡ true
        → IsHeldChunk lease c
        → IsHeldChunk lease (set c))
    → All (λ (c : Chunk). of_key job_id chunk_index c ≡ true → IsHeldChunk lease c) chunks
    → All
        (λ (c : Chunk). of_key job_id chunk_index c ≡ true → IsHeldChunk lease c)
        (update matches set chunks)
update-held job_id chunk_index lease matches set chunks same keeps held =
    let P : Chunk → Type 0 = λ c. of_key job_id chunk_index c ≡ true → IsHeldChunk lease c in
    update-All P P matches set chunks
      (λ c h e own.
        let key : of_key job_id chunk_index c ≡ true = sym (same c) ∙ own in keeps c key e (h key))
      (λ c h. h) held

pub and-right : (a b : Bool) → (a && b) ≡ true → b ≡ true
and-right true b h = h
and-right false b h = cc

pub and-left : (a b : Bool) → (a && b) ≡ true → a ≡ true
and-left true b h = refl
and-left false b h = cc

claim-IsHeld :
    (job_id chunk_index lease j i lease_ms now : ℕ) (store : Store)
    → now ≤ lease
    → IsHeld job_id chunk_index lease store
    → IsHeld job_id chunk_index lease (claim_chunk j i lease_ms now store).0
unfolding claim_chunk
claim-IsHeld job_id chunk_index lease j i lease_ms now store h s = record {
  known = s.known;
  held =
      update-held job_id chunk_index lease (λ c. of_key j i c && is_claimable now c)
        (claimed now lease_ms) store.chunks (λ c. refl)
        (λ c key e k.
          let claimable = and-right (of_key j i c) (is_claimable now c) e in
          let not_claimable = IsHeldChunk-not_claimable lease now c h k in cc)
        s.held;
}

checkpointed-IsHeldChunk :
    (lease : ℕ) (batch : BatchCheckpoint) (c : Chunk)
    → IsHeldChunk lease c
    → IsHeldChunk lease (checkpointed batch c)
checkpointed-IsHeldChunk lease batch c k = elim (Bool-cases (leb c.end_offset batch.next_offset)) [
  | inl e ↦ record { not_pending = rw e refl; under_lease = rw e (λ r. cc) }
  | inr e ↦ record { not_pending = rw e k.not_pending; under_lease = rw e k.under_lease }
]

chunk_failed-IsHeldChunk :
    (lease : ℕ) (reason : Text) (max_failures : ℕ) (c : Chunk)
    → IsHeldChunk lease c
    → IsHeldChunk lease (chunk_failed reason max_failures c)
chunk_failed-IsHeldChunk lease reason max_failures c k =
    elim (Bool-cases (leb max_failures (c.failures + 1))) [
      | inl e ↦ record { not_pending = rw e refl; under_lease = rw e (λ r. cc) }
      | inr e ↦ record { not_pending = rw e k.not_pending; under_lease = rw e k.under_lease }
    ]

of_key_sound : (j i : ℕ) (c : Chunk) → of_key j i c ≡ true → (c.job_id ≡ j) × (c.chunk_index ≡ i)
of_key_sound j i c h = ground arith

is_lease_sound : (o : Option ℕ) (l : ℕ) → is_lease o l ≡ true → o ≡ some l
is_lease_sound none l h = cc
is_lease_sound (some k) l h = ap some ((==_iff k l).0 h)

-- A release under another lease does not match the held chunk.
release-IsHeld :
    (job_id chunk_index lease j i l : ℕ) (store : Store)
    → (j ≡ job_id → i ≡ chunk_index → l ≢ lease)
    → IsHeld job_id chunk_index lease store
    → IsHeld job_id chunk_index lease (release_chunk j i l store)
unfolding release_chunk
release-IsHeld job_id chunk_index lease j i l store other s = record {
  known = s.known;
  held =
      update-held job_id chunk_index lease
        (λ c. of_key j i c && is_running c.status && is_lease c.lease_until l) released store.chunks
        (λ c. refl) (λ c key e k. absurd (never c key e k)) s.held;
}
  where
    never :
        (c : Chunk)
        → of_key job_id chunk_index c ≡ true
        → (of_key j i c && is_running c.status && is_lease c.lease_until l) ≡ true
        → IsHeldChunk lease c
        → ⊥
    never c key e k =
        let (own_job, own_index) = of_key_sound job_id chunk_index c key in
        elim (Bool-cases (of_key j i c)) [
          | inl a ↦ elim (Bool-cases (is_running c.status)) [
            | inl r ↦ elim (Bool-cases (is_lease c.lease_until l)) [
              | inl m ↦
                  let (its_job, its_index) = of_key_sound j i c a in
                  let same : some l ≡ some lease =
                    sym (is_lease_sound c.lease_until l m) ∙ k.under_lease r in
                  other (sym its_job ∙ own_job) (sym its_index ∙ own_index) cc
              | inr m ↦ cc (rw (a, r, m) at e)
            ]
            | inr r ↦ cc (rw (a, r) at e)
          ]
          | inr a ↦ cc (rw a at e)
        ]

chunks_from-not_of_key :
    (job_id chunk_index new_id lease : ℕ) (boundaries : List ChunkBoundary)
    → job_id < new_id
    → All
        (λ (c : Chunk). of_key job_id chunk_index c ≡ true → IsHeldChunk lease c)
        (chunks_from new_id boundaries)
chunks_from-not_of_key job_id chunk_index new_id lease [] h = tt
chunks_from-not_of_key job_id chunk_index new_id lease (b ∷ boundaries) h = (
  λ e. absurd (ground arith),
  chunks_from-not_of_key job_id chunk_index new_id lease boundaries h,
)

register-IsHeld :
    (job_id chunk_index lease : ℕ) (vendor : Text) (file : VendorFile) (store : Store)
    → IsHeld job_id chunk_index lease store
    → IsHeld job_id chunk_index lease (register_import vendor file store).0
unfolding register_import
register-IsHeld job_id chunk_index lease vendor file store s =
    elim (Bool-cases (any (λ j. text_eq j.file_sha256 file.sha256) store.jobs)) [
      | inl e ↦ rw e (record { known = omega (arith, s.known); held = s.held })
      | inr e ↦
          rw e
            (elim (Bool-cases (any (λ j. text_eq j.vendor vendor && is_busy j.status) store.jobs)) [
              | inl k ↦ rw k (record { known = omega (arith, s.known); held = s.held })
              | inr k ↦ rw k (record {
                known = omega (arith, s.known);
                held =
                    All-append
                      (λ (c : Chunk). of_key job_id chunk_index c ≡ true → IsHeldChunk lease c)
                      store.chunks (chunks_from store.next_job_id file.boundaries) s.held
                      (chunks_from-not_of_key job_id chunk_index store.next_job_id lease
                        file.boundaries s.known);
              })
            ])
    ]

apply-IsHeld :
    (job_id chunk_index lease : ℕ) (s : Statement) (store : Store)
    → IsOther job_id chunk_index lease s
    → IsHeld job_id chunk_index lease store
    → IsHeld job_id chunk_index lease (apply s store)
unfolding checkpoint_batch record_chunk_failure refresh_job_progress complete_job_if_done
    fail_job_if_exhausted
apply-IsHeld job_id chunk_index lease (register vendor file) store o h =
    register-IsHeld job_id chunk_index lease vendor file store h
apply-IsHeld job_id chunk_index lease (claim j i lease_ms now) store o h =
    claim-IsHeld job_id chunk_index lease j i lease_ms now store o h
apply-IsHeld job_id chunk_index lease (checkpoint batch) store o h = record {
  known = h.known;
  held =
      update-held job_id chunk_index lease (is_seen batch) (checkpointed batch) store.chunks
        (λ c. refl) (λ c key e k. checkpointed-IsHeldChunk lease batch c k) h.held;
}
apply-IsHeld job_id chunk_index lease (release j i l) store o h =
    release-IsHeld job_id chunk_index lease j i l store o h
apply-IsHeld job_id chunk_index lease (refresh j) store o h = record {
  known = h.known;
  held = h.held;
}
apply-IsHeld job_id chunk_index lease (record_failure j i reason max_failures) store o h = record {
  known = h.known;
  held =
      update-held job_id chunk_index lease (of_key j i) (chunk_failed reason max_failures)
        store.chunks (λ c. refl)
        (λ c key e k. chunk_failed-IsHeldChunk lease reason max_failures c k) h.held;
}
apply-IsHeld job_id chunk_index lease (complete j) store o h = record {
  known = h.known;
  held = h.held;
}
apply-IsHeld job_id chunk_index lease (fail_job j) store o h = record {
  known = h.known;
  held = h.held;
}

pub run-IsHeld :
    (job_id chunk_index lease : ℕ) (statements : List Statement) (store : Store)
    → All (IsOther job_id chunk_index lease) statements
    → IsHeld job_id chunk_index lease store
    → IsHeld job_id chunk_index lease (run statements store)
run-IsHeld job_id chunk_index lease [] store o h = h
run-IsHeld job_id chunk_index lease (s ∷ statements) store (o, os) h =
    run-IsHeld job_id chunk_index lease statements (apply s store) os
      (apply-IsHeld job_id chunk_index lease s store o h)
