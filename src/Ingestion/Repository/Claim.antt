-- ===== src/Ingestion/Repository/Claim.antt =====
-- A chunk in the hands of one worker (`claimChunk` of
-- src/modules/ingestion/db/ingestion-repository.ts).
use mathlib.Core.Path.{subst}
use promotion_management_api.Base.{
  ℕ, ◌≤◌, ◌<◌, ◌≡◌, refl, sym, inl, inr, Bool, true, false, ◌&&◌, Option, none, some, List, [], ◌∷◌,
  Bool-cases, All, All-imp, filterb,
}
use promotion_management_api.Base.Rows.{update, first_match}
use promotion_management_api.Ingestion.Repository.Tables.{Chunk, Store}
use promotion_management_api.Ingestion.Repository.Chunks.{
  of_key, is_claimable, lease_from, set_of_claim, claimed, claim_chunk,
}
use promotion_management_api.Ingestion.Repository.Steps.{Statement}
use promotion_management_api.Ingestion.Repository.Held.{
  IsHeldChunk, IsHeld, IsOther, run, run-IsHeld, and-left, and-right, IsHeldChunk-not_claimable,
}

-- The primary key: one row of the table has this job and index.
abbrev pub IsOnlyChunk : ℕ → ℕ → Chunk → Store → Type 0
IsOnlyChunk job_id chunk_index c store = filterb (of_key job_id chunk_index) store.chunks ≡ c ∷ []

no_other :
    (p : Chunk → Bool) (chunks : List Chunk)
    → filterb p chunks ≡ []
    → All (λ (d : Chunk). p d ≡ false) chunks
no_other p [] h = tt
no_other p (d ∷ chunks) h = elim (Bool-cases (p d)) [
  | inl e ↦ absurd (cons_not_nil (rw e at h))
  | inr e ↦ (e, no_other p chunks (rw e at h))
]
  where
    cons_not_nil : {x : Chunk} {xs : List Chunk} → x ∷ xs ≡ [] → ⊥
    cons_not_nil h = cc

only_one :
    (p : Chunk → Bool) (c : Chunk) (chunks : List Chunk)
    → filterb p chunks ≡ c ∷ []
    → All (λ (d : Chunk). p d ≡ true → d ≡ c) chunks
only_one p c [] h = tt
only_one p c (d ∷ chunks) h = elim (Bool-cases (p d)) [
  | inl e ↦
      let both : d ∷ filterb p chunks ≡ c ∷ [] = rw e at h in
      (λ k. cc, All-imp chunks (λ x f k. cc) (no_other p chunks cc))
  | inr e ↦ (λ k. cc, only_one p c chunks (rw e at h))
]

-- A claim that answers found a claimable row of the key.
first_match-some :
    (p : Chunk → Bool) (P : Chunk → Type 0) (chunks : List Chunk) {c : Chunk}
    → first_match p chunks ≡ some c
    → All (λ (d : Chunk). p d ≡ true → P d) chunks
    → (d : Chunk) × (p d ≡ true) × P d
first_match-some p P [] h a = cc
first_match-some p P (d ∷ chunks) h (f, a) = elim (Bool-cases (p d)) [
  | inl e ↦ (d, e, f e)
  | inr e ↦ first_match-some p P chunks (rw e at h) a
]

set_of_claim-some :
    (now lease_ms : ℕ) (o : Option Chunk) {c : Chunk}
    → set_of_claim now lease_ms o ≡ some c
    → (d : Chunk) × (o ≡ some d)
set_of_claim-some now lease_ms none h = cc
set_of_claim-some now lease_ms (some d) h = (d, refl)

claimed-IsHeldChunk :
    (now lease_ms : ℕ) (c : Chunk) → IsHeldChunk (lease_from now lease_ms) (claimed now lease_ms c)
claimed-IsHeldChunk now lease_ms c = record { not_pending = refl; under_lease = λ r. refl }

-- The only row of the key is claimed, so every row of the key is held.
update-held_only :
    {lease : ℕ} (key claimable : Chunk → Bool) (set : Chunk → Chunk) (only : Chunk)
    (chunks : List Chunk)
    → ((c : Chunk) → IsHeldChunk lease (set c))
    → claimable only ≡ true
    → All (λ (c : Chunk). key c ≡ true → c ≡ only) chunks
    → All
        (λ (c : Chunk). key c ≡ true → IsHeldChunk lease c)
        (update (λ c. key c && claimable c) set chunks)
update-held_only key claimable set only [] f h a = tt
update-held_only key claimable set only (c ∷ chunks) f h (own, a) = elim (Bool-cases (key c)) [
  | inl k ↦
      let yes : claimable c ≡ true = subst (λ (x : Chunk). claimable x ≡ true) (sym (own k)) h in
      rw (k, yes) (λ e. f c, update-held_only key claimable set only chunks f h a)
  | inr k ↦ rw k (λ e. cc, update-held_only key claimable set only chunks f h a)
]

-- After a claim that answered, the chunk is held under its lease.
claim_chunk-IsHeld :
    (job_id chunk_index lease_ms now : ℕ) (store : Store) (only : Chunk) {c : Chunk}
    → IsOnlyChunk job_id chunk_index only store
    → job_id < store.next_job_id
    → (claim_chunk job_id chunk_index lease_ms now store).1 ≡ some c
    → IsHeld job_id chunk_index
        (lease_from now lease_ms)
        (claim_chunk job_id chunk_index lease_ms now store).0
unfolding claim_chunk
claim_chunk-IsHeld job_id chunk_index lease_ms now store only {c} unique known h =
    let key = of_key job_id chunk_index in
    let matches : Chunk → Bool = λ d. key d && is_claimable now d in
    let all_only = only_one key only store.chunks unique in
    let (d, found) = set_of_claim-some now lease_ms (first_match matches store.chunks) h in
    let (e, e_matches, same) =
      first_match-some matches (λ x. x ≡ only) store.chunks found
        (All-imp store.chunks (λ x f m. f (and-left (key x) (is_claimable now x) m)) all_only) in
    let claimable : is_claimable now only ≡ true =
      subst (λ (x : Chunk). is_claimable now x ≡ true) same
        (and-right (key e) (is_claimable now e) e_matches) in
    record {
      known = known;
      held =
          update-held_only key (is_claimable now) (claimed now lease_ms) only store.chunks
            (λ x. claimed-IsHeldChunk now lease_ms x) claimable all_only;
    }

update-none :
    (matches : Chunk → Bool) (set : Chunk → Chunk) (chunks : List Chunk)
    → All (λ (c : Chunk). matches c ≡ false) chunks
    → (update matches set chunks ≡ chunks) × (first_match matches chunks ≡ none)
update-none matches set [] h = (refl, refl)
update-none matches set (c ∷ chunks) (h, hs) =
    let (u, f) = update-none matches set chunks hs in rw h (rw u refl, f)

-- A claim of a held chunk before the lease is over changes nothing and answers nothing.
IsHeld-refuses :
    (job_id chunk_index lease lease_ms now : ℕ) (store : Store)
    → now ≤ lease
    → IsHeld job_id chunk_index lease store
    → claim_chunk job_id chunk_index lease_ms now store ≡ (store, none)
unfolding claim_chunk
IsHeld-refuses job_id chunk_index lease lease_ms now store h held =
    let matches : Chunk → Bool = λ c. of_key job_id chunk_index c && is_claimable now c in
    let (u, f) =
      update-none matches (claimed now lease_ms) store.chunks
        (All-imp store.chunks refused held.held) in
    rw (u, f) refl
  where
    refused :
        (c : Chunk)
        → (of_key job_id chunk_index c ≡ true → IsHeldChunk lease c)
        → (of_key job_id chunk_index c && is_claimable now c) ≡ false
    refused c k = elim (Bool-cases (of_key job_id chunk_index c)) [
      | inl e ↦ rw (e, IsHeldChunk-not_claimable lease now c h (k e)) refl
      | inr e ↦ rw e refl
    ]

-- Once a chunk of a registered job is claimed, no claim of it succeeds before that lease is over,
-- whatever ran in between: claims before the lease's end, checkpoints, failures, refreshes,
-- completions, registrations, and releases under any other lease. The refused claim changes nothing.
pub claim_chunk-excludes :
    (job_id chunk_index lease_ms now : ℕ) (store : Store) (only : Chunk) {c : Chunk}
    → IsOnlyChunk job_id chunk_index only store
    → job_id < store.next_job_id
    → (claim_chunk job_id chunk_index lease_ms now store).1 ≡ some c
    → (statements : List Statement)
    → All (IsOther job_id chunk_index (lease_from now lease_ms)) statements
    → (other_lease_ms later : ℕ) → later ≤ lease_from now lease_ms
    → claim_chunk job_id chunk_index other_lease_ms later
        (run statements (claim_chunk job_id chunk_index lease_ms now store).0)
      ≡ (run statements (claim_chunk job_id chunk_index lease_ms now store).0, none)
claim_chunk-excludes job_id chunk_index lease_ms now store only unique known h statements others
      other_lease_ms later before =
    IsHeld-refuses job_id chunk_index (lease_from now lease_ms) other_lease_ms later
      (run statements (claim_chunk job_id chunk_index lease_ms now store).0) before
      (run-IsHeld job_id chunk_index (lease_from now lease_ms) statements
        (claim_chunk job_id chunk_index lease_ms now store).0 others
        (claim_chunk-IsHeld job_id chunk_index lease_ms now store only unique known h))
