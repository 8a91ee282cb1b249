-- ===== src/Pricing/CalculatorCache/Tests.antt =====
-- The cache at a load that is rejected after a second one has started.
use promotion_management_api.Base.{◌≢◌, ◌<◌, [], ◌∷◌, arith, All, none}
use promotion_management_api.Pricing.CalculatorCache.{Cache, current, caught, load_new}
use promotion_management_api.Pricing.CalculatorCache.Rejected.{Reachable, current-excludes}

-- A load, a second one when the first has expired, and then the first is rejected: the newer entry is
-- cleared with it.
abbrev after_both : Cache
after_both =
    (current 60000 70000 70000
      (current 60000 0 0 (record { cached = none; started = 0 })).cache).cache

two_started : 0 < after_both.started
unfolding current load_new
two_started = omega arith

current-excludes_example :
    All (λ load. (current 60000 70001 70001 (caught after_both)).load ≢ load) (0 ∷ [])
current-excludes_example =
    current-excludes
      (Reachable.catches 0 two_started
        (Reachable.asks 70000 70000 (Reachable.asks 0 0 Reachable.empty)))
      70001 70001
