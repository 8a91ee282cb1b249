-- ===== src/Pricing/CalculatorCache/Rejected.antt =====
-- A rejected load is not served again
-- (src/modules/pricing/domain/base-price-calculator-cache.ts).
use promotion_management_api.Base.{
  ℕ, ◌<◌, ◌≢◌, inl, inr, Option, none, some, List, [], ◌∷◌, arith, All, All-imp, leb, Bool-cases,
}
use promotion_management_api.Pricing.CalculatorCache.{
  Cached, Cache, Served, load_new, serve, current, caught,
}

-- The events of a cache in any order, at any readings of the clock, with the loads whose `catch` has
-- run. A load is caught once it was started.
pub data Reachable (ttl_ms : ℕ) : Cache → List ℕ → Type 0 where
  empty : Reachable ttl_ms (record { cached = none; started = 0 }) []
  asks :
      {cache : Cache} {rejected : List ℕ} (asked_at stored_at : ℕ)
      → Reachable ttl_ms cache rejected
      → Reachable ttl_ms (current ttl_ms asked_at stored_at cache).cache rejected
  catches :
      {cache : Cache} {rejected : List ℕ} (load : ℕ)
      → load < cache.started
      → Reachable ttl_ms cache rejected
      → Reachable ttl_ms (caught cache) (load ∷ rejected)

-- The cached load was started, and was not caught.
abbrev IsKept : Option Cached → ℕ → List ℕ → Type 0
IsKept none started rejected = Unit
IsKept (some entry) started rejected =
    (entry.load < started) × All (λ load. entry.load ≢ load) rejected

record IsValid (cache : Cache) (rejected : List ℕ) : Type 0 where
  old : All (λ load. load < cache.started) rejected
  kept : IsKept cache.cached cache.started rejected

-- A call of `current` keeps that, and is served a load that was not caught.
record Serves (served : Served) (rejected : List ℕ) : Type 0 where
  valid : IsValid served.cache rejected
  fresh : All (λ load. served.load ≢ load) rejected

load_new-Serves :
    (ttl_ms stored_at : ℕ) (cache : Cache) (rejected : List ℕ)
    → IsValid cache rejected
    → Serves (load_new ttl_ms stored_at cache) rejected
unfolding load_new
load_new-Serves ttl_ms stored_at cache rejected v =
    let new : All (λ load. cache.started ≢ load) rejected =
      All-imp rejected (λ load below same. omega arith) v.old in
    record {
      valid = record {
        old = All-imp rejected (λ load below. omega arith) v.old;
        kept = (omega arith, new);
      };
      fresh = new;
    }

serve-Serves :
    (ttl_ms asked_at stored_at : ℕ) (cache : Cache) (rejected : List ℕ) (cached : Option Cached)
    → IsValid cache rejected
    → IsKept cached cache.started rejected
    → Serves (serve ttl_ms asked_at stored_at cache cached) rejected
unfolding serve
serve-Serves ttl_ms asked_at stored_at cache rejected none v k =
    load_new-Serves ttl_ms stored_at cache rejected v
serve-Serves ttl_ms asked_at stored_at cache rejected (some entry) v k =
    elim (Bool-cases (leb entry.expires_at asked_at)) [
      | inl e ↦ rw e (load_new-Serves ttl_ms stored_at cache rejected v)
      | inr e ↦ rw e (record { valid = v; fresh = k.1 })
    ]

Reachable-IsValid :
    {ttl_ms : ℕ} {cache : Cache} {rejected : List ℕ}
    → Reachable ttl_ms cache rejected
    → IsValid cache rejected
unfolding current caught
Reachable-IsValid empty = record { old = tt; kept = tt }
Reachable-IsValid (asks asked_at stored_at r) =
    let v = Reachable-IsValid r in (serve-Serves _ asked_at stored_at _ _ _ v v.kept).valid
Reachable-IsValid (catches load below r) = record {
  old = (below, (Reachable-IsValid r).old);
  kept = tt;
}

-- Once the `catch` of a load has run, no call is served that load, whatever calls and loads came
-- between and whatever the clock reads.
pub current-excludes :
    {ttl_ms : ℕ} {cache : Cache} {rejected : List ℕ}
    → Reachable ttl_ms cache rejected
    → (asked_at stored_at : ℕ)
    → All (λ load. (current ttl_ms asked_at stored_at cache).load ≢ load) rejected
unfolding current
current-excludes r asked_at stored_at =
    let v = Reachable-IsValid r in (serve-Serves _ asked_at stored_at _ _ _ v v.kept).fresh
