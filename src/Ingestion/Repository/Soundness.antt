-- ===== src/Ingestion/Repository/Soundness.antt =====
-- What is kept of chunks and jobs when chunks are updated
-- (src/modules/ingestion/db/ingestion-repository.ts).
use promotion_management_api.Base.{
  ℕ, ◌≤◌, ◌<◌, ◌≡◌, refl, sym, ◌∙◌, inl, inr, Bool, true, List, [], ◌∷◌, ◌==◌, ==_iff, Bool-cases,
  All, All-imp,
}
use promotion_management_api.Ingestion.JobStatus.{IngestionStatus}
use promotion_management_api.Base.Rows.{update}
use promotion_management_api.Ingestion.Repository.Tables.{done, Chunk, Job, Store}
use promotion_management_api.Ingestion.Repository.Jobs.{sum_processed, sum_rejected}

pub update-All :
    {A : Type 0} (P Q : A → Type 0) (matches : A → Bool) (set : A → A) (rows : List A)
    → ((row : A) → P row → matches row ≡ true → Q (set row))
    → ((row : A) → P row → Q row)
    → All P rows
    → All Q (update matches set rows)
update-All P Q matches set [] f g h = tt
update-All P Q matches set (row ∷ rows) f g (p, h) = elim (Bool-cases (matches row)) [
  | inl e ↦ rw e (f row p e, update-All P Q matches set rows f g h)
  | inr e ↦ rw e (g row p, update-All P Q matches set rows f g h)
]

-- Where a chunk stands in its range.
pub record IsInRange (c : Chunk) : Type 0 where
  pub started : c.start_offset ≤ c.next_offset
  pub not_past : c.next_offset ≤ c.end_offset
  pub done_at_end : c.status ≡ done → c.next_offset ≡ c.end_offset

-- A job whose chunks are read to their ends and whose counters are their sums.
pub record IsFinal (chunks : List Chunk) (j : Job) : Type 0 where
  pub read_to_end : All (λ (c : Chunk). c.job_id ≡ j.id → c.next_offset ≡ c.end_offset) chunks
  pub processed : j.rows_processed ≡ sum_processed j.id chunks
  pub rejected : j.rows_rejected ≡ sum_rejected j.id chunks

pub record IsSoundJob (chunks : List Chunk) (next_job_id : ℕ) (j : Job) : Type 0 where
  pub known : j.id < next_job_id
  pub final : j.status ≡ IngestionStatus.completed → IsFinal chunks j

pub record IsSound (store : Store) : Type 0 where
  pub in_range : All IsInRange store.chunks
  pub sound_jobs : All (IsSoundJob store.chunks store.next_job_id) store.jobs

-- An update that a job of this id does not see.
pub record Keeps (id : ℕ) (c d : Chunk) : Type 0 where
  pub job : d.job_id ≡ c.job_id
  pub processed : c.job_id ≡ id → d.rows_processed ≡ c.rows_processed
  pub rejected : c.job_id ≡ id → d.rows_rejected ≡ c.rows_rejected
  pub next_offset : c.job_id ≡ id → d.next_offset ≡ c.next_offset
  pub end_offset : d.end_offset ≡ c.end_offset

Keeps-read_to_end :
    (id : ℕ) (matches : Chunk → Bool) (set : Chunk → Chunk) (chunks : List Chunk)
    → All (λ (c : Chunk). matches c ≡ true → Keeps id c (set c)) chunks
    → All (λ (c : Chunk). c.job_id ≡ id → c.next_offset ≡ c.end_offset) chunks
    → All (λ (c : Chunk). c.job_id ≡ id → c.next_offset ≡ c.end_offset) (update matches set chunks)
Keeps-read_to_end id matches set [] k h = tt
Keeps-read_to_end id matches set (c ∷ chunks) (k, ks) (h, hs) = elim (Bool-cases (matches c)) [
  | inl e ↦
      let kept = k e in
      rw e (
        λ own.
            let e : c.job_id ≡ id = sym kept.job ∙ own in
            kept.next_offset e ∙ h e ∙ sym kept.end_offset,
        Keeps-read_to_end id matches set chunks ks hs,
      )
  | inr e ↦ rw e (h, Keeps-read_to_end id matches set chunks ks hs)
]

pub Keeps-sums :
    (id : ℕ) (matches : Chunk → Bool) (set : Chunk → Chunk) (chunks : List Chunk)
    → All (λ (c : Chunk). matches c ≡ true → Keeps id c (set c)) chunks
    → (sum_processed id (update matches set chunks) ≡ sum_processed id chunks)
      × (sum_rejected id (update matches set chunks) ≡ sum_rejected id chunks)
Keeps-sums id matches set [] k = (refl, refl)
Keeps-sums id matches set (c ∷ chunks) (k, ks) =
    let (p, r) = Keeps-sums id matches set chunks ks in
    elim (Bool-cases (matches c)) [
      | inl e ↦
          let kept = k e in
          rw e (
            rw (kept.job, p, r)
              (elim (Bool-cases (c.job_id == id)) [
                | inl own ↦
                    let e = (==_iff c.job_id id).0 own in
                    rw own (rw (kept.processed e) refl, rw (kept.rejected e) refl)
                | inr other ↦ rw other (refl, refl)
              ]))
      | inr e ↦ rw e (rw (p, r) (refl, refl))
    ]

-- An update of the chunks that completed jobs do not see keeps the jobs sound.
pub Keeps-sound_jobs :
    (matches : Chunk → Bool) (set : Chunk → Chunk) (chunks : List Chunk) (next_job_id : ℕ)
    (jobs : List Job)
    → ((j : Job)
        → IsFinal chunks j
        → All (λ (c : Chunk). matches c ≡ true → Keeps j.id c (set c)) chunks)
    → All (IsSoundJob chunks next_job_id) jobs
    → All (IsSoundJob (update matches set chunks) next_job_id) jobs
Keeps-sound_jobs matches set chunks next_job_id jobs k sound =
    All-imp jobs
      (λ j s. record {
        known = s.known;
        final = λ e.
            let f = s.final e in
            let kept = k j f in
            let (p, r) = Keeps-sums j.id matches set chunks kept in
            record {
              read_to_end = Keeps-read_to_end j.id matches set chunks kept f.read_to_end;
              processed = f.processed ∙ sym p;
              rejected = f.rejected ∙ sym r;
            };
      })
      sound

pub All-of : {A : Type 0} {P : A → Type 0} (rows : List A) → ((row : A) → P row) → All P rows
All-of [] f = tt
All-of (row ∷ rows) f = (f row, All-of rows f)

pub All-and :
    {A : Type 0} (P Q : A → Type 0) (rows : List A)
    → All P rows
    → All Q rows
    → All (λ (row : A). P row × Q row) rows
All-and P Q [] p q = tt
All-and P Q (row ∷ rows) (p, ps) (q, qs) = ((p, q), All-and P Q rows ps qs)
