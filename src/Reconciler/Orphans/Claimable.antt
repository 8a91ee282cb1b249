-- ===== src/Reconciler/Orphans/Claimable.antt =====
-- What the sweep enqueues, a worker can claim
-- (src/modules/reconciler/db/orphan-chunk-repository.ts).
use promotion_management_api.Base.{
  ℕ, ◌≤◌, ◌≡◌, refl, ap, inl, inr, Bool, true, false, ◌&&◌, Option, none, some, arith, Option-cases,
}
use promotion_management_api.Base.Rows.{first_match, In, first_match-none, first_match-some}
use promotion_management_api.Base.Members.{In-map_cases, In-take, In-filterb_cases, In-sort_by}
use promotion_management_api.Ingestion.Repository.Tables.{Chunk, Store}
use promotion_management_api.Ingestion.Repository.Chunks.{
  of_key, lease_is_over, is_claimable, claimed, claim_chunk,
}
use promotion_management_api.Reconciler.Orphans.{
  OrphanChunk, limit, is_expired, is_free, is_orphan, is_before, orphan_of, orphaned,
}

expired-lease_is_over :
    (grace_ms now at : ℕ) (lease : Option ℕ)
    → now ≤ at
    → is_expired grace_ms now lease ≡ true
    → lease_is_over at lease ≡ true
unfolding lease_is_over
expired-lease_is_over grace_ms now at none le h = refl
expired-lease_is_over grace_ms now at (some lease) le h = ground arith

orphan-is_claimable :
    (touched : ℕ → ℕ) (grace_ms now at : ℕ) (store : Store) (c : Chunk)
    → now ≤ at
    → is_orphan touched grace_ms now store c ≡ true
    → is_claimable at c ≡ true
unfolding is_orphan is_free is_claimable
orphan-is_claimable touched grace_ms now at store c le h =
    ground (arith, expired-lease_is_over grace_ms now at c.lease_until le)

-- A claim of a chunk that the sweep found succeeds, at that instant or any later one, while the
-- tables have not changed.
pub orphaned-claim_chunk :
    (touched : ℕ → ℕ) (grace_ms now at lease_ms : ℕ) (store : Store) (o : OrphanChunk)
    → now ≤ at
    → In o (orphaned touched grace_ms now store)
    → (c : Chunk) × (c.job_id ≡ o.job_id)
      × (c.chunk_index ≡ o.chunk_index)
      × ((claim_chunk o.job_id o.chunk_index lease_ms at store).1 ≡ some c)
unfolding orphaned claim_chunk
orphaned-claim_chunk touched grace_ms now at lease_ms store o le m =
    let matches : Chunk → Bool = λ c. of_key o.job_id o.chunk_index c && is_claimable at c in
    let (d, i, e) = In-map_cases orphan_of _ m in
    let (k, orphan) =
      In-filterb_cases (is_orphan touched grace_ms now store) store.chunks
        ((In-sort_by is_before _).0 (In-take limit _ i)) in
    let free = orphan-is_claimable touched grace_ms now at store d le orphan in
    let job : o.job_id ≡ d.job_id = ap (λ (p : OrphanChunk). p.job_id) e in
    let index : o.chunk_index ≡ d.chunk_index = ap (λ (p : OrphanChunk). p.chunk_index) e in
    elim (Option-cases (first_match matches store.chunks)) [
      | inl h ↦
          absurd
            (missed (first_match-none matches store.chunks h k) (of_key_same o d job index) free)
      | inr (c, h) ↦
          let keyed = (first_match-some matches store.chunks h).1 in
          rw h (claimed at lease_ms c, job_of o c at keyed, index_of o c at keyed, refl)
    ]
  where
    missed : {a b : Bool} → (a && b) ≡ false → a ≡ true → b ≡ true → ⊥
    missed h p q = ground arith

    of_key_same :
        (o : OrphanChunk) (d : Chunk)
        → o.job_id ≡ d.job_id
        → o.chunk_index ≡ d.chunk_index
        → of_key o.job_id o.chunk_index d ≡ true
    of_key_same o d job index = ground arith

    job_of :
        (o : OrphanChunk) (c : Chunk) (at : ℕ)
        → (of_key o.job_id o.chunk_index c && is_claimable at c) ≡ true
        → c.job_id ≡ o.job_id
    job_of o c at h = ground arith

    index_of :
        (o : OrphanChunk) (c : Chunk) (at : ℕ)
        → (of_key o.job_id o.chunk_index c && is_claimable at c) ≡ true
        → c.chunk_index ≡ o.chunk_index
    index_of o c at h = ground arith
