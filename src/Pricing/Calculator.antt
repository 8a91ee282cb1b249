-- ===== src/Pricing/Calculator.antt =====
-- Pricing a vendor row: `BasePriceCalculator.calculate`, `run`, `apply` and `outOfRange`
-- (src/modules/pricing/domain/base-price-calculator.ts). Rows are run one after the other, as the
-- promise queue of the class makes sure, and the calculator is passed from each to the next.
pub mod Laws
pub mod Outcomes
pub mod Arithmetic
use Prim.Native.String.{String}
use promotion_management_api.Base.{
  ℕ, ◌+◌, ◌*◌, ◌/◌, Bool, true, false, Option, none, some, List, [], ◌∷◌, if◌then◌else◌, leb,
}
use promotion_management_api.Base.Int.{ℤ, pos, negsuc, sub_ℕ, ◌+ℤ◌}
use promotion_management_api.Base.Texts.{Text}
use promotion_management_api.Base.Digits.{max_safe_integer}
use promotion_management_api.Pricing.Facts.{
  AdjustmentEvent, adjust_percent_bps, adjust_cents, VendorRowFacts, CheckedFacts, FactsResult,
  valid, invalid, check_facts,
}
use promotion_management_api.Pricing.Rules.{
  FiredRule, EngineReply, fired, threw, Engine, Calculator,
}

pub data PricingFault : Type 0 where
  row rules : PricingFault

pub data Reason : Type 0 where
  invalid_fact : String → Reason
  engine_error : Text → Reason
  price_below_zero : ℤ → Reason
  price_above_max : ℤ → Reason

-- A refusal has its fault and the rule that it was rejected by, if one was.
pub data PricingOutcome : Type 0 where
  priced : (base_price_cents pricing_rules_version : ℕ) → PricingOutcome
  refused : PricingFault → Option Text → Reason → PricingOutcome

-- `BPS`
abbrev pub basis_points : ℕ
basis_points = 10000

-- `cents * factor / BPS` of big integers, which drops the fraction towards zero.
scaled : ℕ → ℤ → ℤ
scaled cents (pos factor) = pos (cents * factor / basis_points)
scaled cents (negsuc n) = sub_ℕ 0 (cents * (n + 1) / basis_points)

unfoldable pub apply : ℕ → AdjustmentEvent → ℤ
unfolding ◌+ℤ◌ scaled
apply cents (adjust_cents value) = pos cents +ℤ value
apply cents (adjust_percent_bps value) = scaled cents (pos basis_points +ℤ value)

-- The loop over the fired rules, with the checks of `outOfRange`.
unfoldable pub adjust : ℕ → ℕ → List FiredRule → PricingOutcome
adjust version cents [] = priced cents version
adjust version cents (result ∷ results) = elim (apply cents result.event) [
  | negsuc n ↦ refused row (some result.name) (price_below_zero (negsuc n))
  | pos next ↦
      if leb next max_safe_integer
      then adjust version next results
      else refused row (some result.name) (price_above_max (pos next))
]

-- `run`: a failure spends the calculator, and a spent one runs nothing.
run_unspent : Calculator → EngineReply → Calculator × EngineReply
run_unspent c (fired results) = (c, fired results)
run_unspent c (threw message) = (record c { spent_by = some message }, threw message)

module _ (engine : Engine) where
  unfoldable pub run : Calculator → CheckedFacts → Calculator × EngineReply
  unfolding run_unspent
  run c facts = elim c.spent_by [
    | some message ↦ (c, threw message)
    | none ↦ run_unspent c (engine c.rules facts)
  ]

  priced_by : ℕ → CheckedFacts → EngineReply → PricingOutcome
  priced_by version facts (threw message) = refused rules none (engine_error message)
  priced_by version facts (fired results) = adjust version facts.vendor_price_cents results

  calculate_checked : Calculator → FactsResult → Calculator × PricingOutcome
  unfolding priced_by
  calculate_checked c (invalid field) = (c, refused row none (invalid_fact field))
  calculate_checked c (valid facts) =
      let (c', reply) = run c facts in (c', priced_by c.pricing_rules_version facts reply)

  -- `calculate`
  unfoldable pub calculate : Calculator → VendorRowFacts → Calculator × PricingOutcome
  unfolding calculate_checked
  calculate c facts = calculate_checked c (check_facts facts)
