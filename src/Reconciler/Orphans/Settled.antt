-- ===== src/Reconciler/Orphans/Settled.antt =====
-- What a sweep leaves running (src/modules/reconciler/commands/sweep-orphan-chunks-command.ts).
use mathlib.Core.Path.{subst}
use promotion_management_api.Base.{
  ℕ, ◌≡◌, ◌⊎◌, refl, sym, inl, inr, Bool, true, false, ◌&&◌, ◌||◌, List, [], ◌∷◌, arith, ◌==◌, ltb,
  filterb, any, all, length, All, All-imp, Bool-cases,
}
use promotion_management_api.Base.Rows.{update, In, here, later, All-of_In}
use promotion_management_api.Base.Members.{In-map, In-sort_by}
use promotion_management_api.Base.Rows.{In-filterb}
use promotion_management_api.Ingestion.JobStatus.{IngestionStatus, is_running_job}
use promotion_management_api.Ingestion.Repository.Tables.{is_done, is_failed, Chunk, Job, Store}
use promotion_management_api.Ingestion.Repository.Jobs.{
  chunks_of, counted, failed_with, is_complete, is_exhausted, complete_job_if_done,
  fail_job_if_exhausted,
}
use promotion_management_api.Reconciler.Orphans.{
  OrphanChunk, running_job_ids, is_running_row, settle, settle_all, sweep_orphans,
}

abbrev pub is_at_rest : Chunk → Bool
is_at_rest c = is_done c.status || is_failed c.status

-- A job that is not running, or that has a chunk that is neither done nor given up.
abbrev pub IsWorkable : List Chunk → Job → Type 0
IsWorkable chunks j =
    (is_running_job j.status ≡ false) ⊎ (all is_at_rest (chunks_of j.id chunks) ≡ false)

-- A row of the job whose chunks are not all done, where it still runs.
abbrev pub IsIncomplete : List Chunk → ℕ → Job → Type 0
IsIncomplete chunks job_id j =
    (j.id ≡ job_id)
    × ((is_running_job j.status ≡ false)
        ⊎ (all (λ (c : Chunk). is_done c.status) (chunks_of job_id chunks) ≡ false))

All-update :
    (P Q : Job → Type 0) (matches : Job → Bool) (set : Job → Job) (rows : List Job)
    → ((j : Job) → matches j ≡ true → Q (set j))
    → ((j : Job) → matches j ≡ false → P j → Q j)
    → All P rows
    → All Q (update matches set rows)
All-update P Q matches set [] f g h = tt
All-update P Q matches set (j ∷ rows) f g (p, h) = elim (Bool-cases (matches j)) [
  | inl e ↦ rw e (f j e, All-update P Q matches set rows f g h)
  | inr e ↦ rw e (g j e p, All-update P Q matches set rows f g h)
]

over_but_not_failed :
    (chunks : List Chunk)
    → all is_at_rest chunks ≡ true
    → any (λ (c : Chunk). is_failed c.status) chunks ≡ false
    → all (λ (c : Chunk). is_done c.status) chunks ≡ true
over_but_not_failed [] h k = refl
over_but_not_failed (c ∷ chunks) h k =
    let (one, rest) = all_parts h in
    let (clear, others) = any_parts k in
    join (is_done c.status) (is_failed c.status) one clear (over_but_not_failed chunks rest others)
  where
    all_parts : {a b : Bool} → (a && b) ≡ true → (a ≡ true) × (b ≡ true)
    all_parts h = ground arith

    any_parts : {a b : Bool} → (a || b) ≡ false → (a ≡ false) × (b ≡ false)
    any_parts h = ground arith

    join : (a b : Bool) {c : Bool} → (a || b) ≡ true → b ≡ false → c ≡ true → (a && c) ≡ true
    join a b h k l = ground arith

none_complete :
    (job_id : ℕ) (store : Store) (jobs : List Job)
    → all (λ (c : Chunk). is_done c.status) (chunks_of job_id store.chunks) ≡ false
    → filterb (is_complete job_id store) jobs ≡ []
none_complete job_id store [] h = refl
none_complete job_id store (j ∷ jobs) h =
    rw (unmatched (j.id == job_id) (is_running_job j.status) h) (none_complete job_id store jobs h)
  where
    unmatched : (a b : Bool) {c : Bool} → c ≡ false → (a && b && c) ≡ false
    unmatched a b h = ground arith

or_rest : (a b c : Bool) → (a && b && c) ≡ false → a ≡ true → (b ≡ false) ⊎ (c ≡ false)
or_rest a b c h k = elim (Bool-cases b) [ inl e ↦ inr (ground arith) | inr e ↦ inl e ]

or_both :
    (a b c d : Bool)
    → (a && b && c && d) ≡ false
    → a ≡ true
    → (b ≡ false) ⊎ ((c ≡ false) ⊎ (d ≡ false))
or_both a b c d h k = elim (Bool-cases b) [
  | inl e ↦ inr (elim (Bool-cases c) [ inl f ↦ inr (ground arith) | inr f ↦ inl f ])
  | inr e ↦ inl e
]

-- One pass of the loop, for a job that still has to be looked at, and `rest` behind it.
module _ (job_id : ℕ) (store : Store) (rest : List ℕ) where
  abbrev Before : Job → Type 0
  Before j = IsWorkable store.chunks j ⊎ In j.id (job_id ∷ rest)

  abbrev After : Job → Type 0
  After j = IsWorkable store.chunks j ⊎ In j.id rest

  abbrev Between : Job → Type 0
  Between j = After j ⊎ IsIncomplete store.chunks job_id j

  is_job : (j : Job) → j.id ≡ job_id → (j.id == job_id) ≡ true
  is_job j e = ground arith

  not_complete : (j : Job) → is_complete job_id store j ≡ false → Before j → Between j
  not_complete j h (inl w) = inl (inl w)
  not_complete j h (inr (later m)) = inl (inr m)
  not_complete j h (inr (here e)) = inr (e, or_rest _ _ _ h (is_job j e))

  not_exhausted : (j : Job) → is_exhausted job_id store j ≡ false → Between j → After j
  not_exhausted j h (inl a) = a
  not_exhausted j h (inr (e, inl i)) = inl (inl i)
  not_exhausted j h (inr (e, inr i)) = elim (or_both _ _ _ _ h (is_job j e)) [
    | inl k ↦ inl (inl k)
    | inr k ↦ elim k [
      | inl l ↦ inl (inr (rw e l))
      | inr l ↦ elim (Bool-cases (all is_at_rest (chunks_of job_id store.chunks))) [
        | inl m ↦ cc (i, over_but_not_failed (chunks_of job_id store.chunks) m l)
        | inr m ↦ inl (inr (rw e m))
      ]
    ]
  ]

  -- After a completion no row of the job is incomplete.
  completed :
      (length (filterb (is_complete job_id store) store.jobs) == 1) ≡ true
      → (j : Job) → Between j
      → After j
  completed h j (inl a) = a
  completed h j (inr (e, inl i)) = inl (inl i)
  completed h j (inr (e, inr i)) = cc (rw (none_complete job_id store store.jobs i) at h)

  pub settle-jobs : All Before store.jobs → All After (settle job_id store).0.jobs
  unfolding settle complete_job_if_done fail_job_if_exhausted
  settle-jobs h =
      let between =
        All-update Before Between (is_complete job_id store)
          (counted IngestionStatus.completed store.chunks) store.jobs (λ j m. inl (inl (inl refl)))
          not_complete h in
      elim (Bool-cases (length (filterb (is_complete job_id store) store.jobs) == 1)) [
        | inl e ↦ rw e (All-imp _ (completed e) between)
        | inr e ↦ rw e (
            All-update Between After (is_exhausted job_id store) (failed_with store.chunks) _
              (λ j m. inl (inl refl)) not_exhausted between)
      ]

  pub settle-chunks : (settle job_id store).0.chunks ≡ store.chunks
  unfolding settle complete_job_if_done fail_job_if_exhausted
  settle-chunks = elim (Bool-cases (length (filterb (is_complete job_id store) store.jobs) == 1)) [
    | inl e ↦ rw e refl
    | inr e ↦ rw e refl
  ]

settle_all-IsWorkable :
    (job_ids : List ℕ) (store : Store)
    → All (λ (j : Job). IsWorkable store.chunks j ⊎ In j.id job_ids) store.jobs
    → All
        (λ (j : Job). IsWorkable (settle_all job_ids store).0.chunks j)
        (settle_all job_ids store).0.jobs
unfolding settle_all
settle_all-IsWorkable [] store h = All-imp store.jobs (λ j k. workable j k) h
  where
    workable : (j : Job) → IsWorkable store.chunks j ⊎ In j.id [] → IsWorkable store.chunks j
    workable j (inl w) = w
    workable j (inr m) = elim m [ ]
settle_all-IsWorkable (job_id ∷ job_ids) store h =
    settle_all-IsWorkable job_ids (settle job_id store).0 (
      subst
        (λ (chunks : List Chunk).
          All (λ (j : Job). IsWorkable chunks j ⊎ In j.id job_ids) (settle job_id store).0.jobs)
        (sym (settle-chunks job_id store job_ids)) (settle-jobs job_id store job_ids h))

running_row :
    (store : Store) (j : Job)
    → In j store.jobs
    → IsWorkable store.chunks j ⊎ In j.id (running_job_ids store)
unfolding running_job_ids
running_row store j m = elim (Bool-cases (is_running_job j.status)) [
  | inl e ↦ inr (
      In-map (λ (i : Job). i.id) _
        ((In-sort_by (λ (i k : Job). ltb i.id k.id) _).1
          (In-filterb is_running_row store.jobs m e)))
  | inr e ↦ inl (inl e)
]

-- After a sweep every job that still runs has a chunk that is neither done nor given up: no job is
-- left running by work that is finished or can never be done.
pub sweep_orphans-IsWorkable :
    (accepts : OrphanChunk → Bool) (touched : ℕ → ℕ) (grace_ms now : ℕ) (store : Store)
    → All
        (IsWorkable (sweep_orphans accepts touched grace_ms now store).store.chunks)
        (sweep_orphans accepts touched grace_ms now store).store.jobs
unfolding sweep_orphans
sweep_orphans-IsWorkable accepts touched grace_ms now store =
    settle_all-IsWorkable (running_job_ids store) store
      (All-of_In _ store.jobs (λ j m. running_row store j m))
