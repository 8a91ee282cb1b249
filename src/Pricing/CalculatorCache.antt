-- ===== src/Pricing/CalculatorCache.antt =====
-- The cache of the calculator (src/modules/pricing/domain/base-price-calculator-cache.ts). A load is
-- the promise of a calculator, under a number of its own; it settles at some later event, and a load
-- that is rejected runs its `catch` at an event behind that.
pub mod Rejected
mod Tests
use promotion_management_api.Base.{
  ℕ, ◌+◌, Bool, true, false, not, ◌&&◌, Option, none, some, List, [], ◌∷◌, ◌++◌, if◌then◌else◌, leb,
}

-- `cached`: when it expires, and the load.
pub record Cached : Type 0 where
  pub expires_at : ℕ
  pub load : ℕ

-- The cache, with the number of loads that it has started.
pub record Cache : Type 0 where
  pub cached : Option Cached
  pub started : ℕ

-- The load that a call of `current` is served.
pub record Served : Type 0 where
  pub cache : Cache
  pub load : ℕ

-- A new load, under the clock's second reading.
unfoldable pub load_new : (ttl_ms stored_at : ℕ) → Cache → Served
load_new ttl_ms stored_at cache = record {
  cache = record {
    cached = some (record { expires_at = stored_at + ttl_ms; load = cache.started });
    started = cache.started + 1;
  };
  load = cache.started;
}

serve : (ttl_ms asked_at stored_at : ℕ) → Cache → Option Cached → Served
serve ttl_ms asked_at stored_at cache none = load_new ttl_ms stored_at cache
serve ttl_ms asked_at stored_at cache (some entry) =
    if leb entry.expires_at asked_at
    then load_new ttl_ms stored_at cache
    else record { cache = cache; load = entry.load }

-- `current`
unfoldable pub current : (ttl_ms asked_at stored_at : ℕ) → Cache → Served
unfolding serve
current ttl_ms asked_at stored_at cache = serve ttl_ms asked_at stored_at cache cache.cached

-- The `catch` of a load; it does not look at which load is cached.
unfoldable pub caught : Cache → Cache
caught cache = record { cached = none; started = cache.started }
