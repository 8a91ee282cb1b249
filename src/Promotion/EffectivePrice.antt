-- ===== src/Promotion/EffectivePrice.antt =====
-- The price of a product under one promotion
-- (src/modules/promotion/domain/effective-price-calculator.ts and the two discounts beside it).
pub mod Laws
pub mod Order
use Prim.Native.String.{String}
use promotion_management_api.Base.{
  ℕ, zero, suc, ◌+◌, ◌-◌, ◌*◌, ◌/◌, Bool, true, false, not, ◌||◌, Option, none, some, if◌then◌else◌,
  leb, ltb,
}
use promotion_management_api.Base.Int.{ℤ, pos, negsuc}
use promotion_management_api.Base.Texts.{Text, codes, text_eq}
use promotion_management_api.Base.Digits.{max_safe_integer}

-- A number of the language: a whole one, or any other (a fraction, an infinity, not a number).
pub data JsNumber : Type 0 where
  whole : ℤ → JsNumber
  other : JsNumber

pub data PricingOutcome : Type 0 where
  effective : ℕ → PricingOutcome
  refused : String → PricingOutcome

-- `Discount`: what may be wrong with a value, and the cents that it takes off.
pub record Discount : Type 0 where
  pub value_error : ℕ → Option String
  pub discount_cents : ℕ → ℕ → ℕ

abbrev pub full_discount_basis_points : ℕ
full_discount_basis_points = 10000

-- `PercentageDiscount`: floored, so that rounding never favours the customer.
unfoldable pub percentage_error : ℕ → Option String
percentage_error value =
    if ltb full_discount_basis_points value
    then some "discount is above 10000 basis points"
    else none

unfoldable pub percentage_cents : ℕ → ℕ → ℕ
percentage_cents base value = base * value / 10000

abbrev pub percentage_discount : Discount
percentage_discount = record { value_error = percentage_error; discount_cents = percentage_cents }

-- `FixedDiscount`
unfoldable pub fixed_cents : ℕ → ℕ → ℕ
fixed_cents base value = value

abbrev pub fixed_discount : Discount
fixed_discount = record { value_error = λ value. none; discount_cents = fixed_cents }

-- `Object.hasOwn(this.discounts, type) ? this.discounts[type] : undefined`
unfoldable pub discount_of : Text → Option Discount
discount_of type =
    if text_eq type (codes "percentage")
    then some percentage_discount
    else (if text_eq type (codes "fixed") then some fixed_discount else none)

-- `Number.isSafeInteger(n) && n >= least`, with the number.
unfoldable pub safe_from : ℕ → JsNumber → Option ℕ
safe_from least (whole (pos n)) =
    if leb least n then (if leb n max_safe_integer then some n else none) else none
safe_from least _ = none

less_discount : ℕ → ℕ → ℕ
less_discount base cents = if ltb base cents then 0 else base - cents

-- What follows when the two numbers are whole.
discounted : Discount → ℕ → ℕ → PricingOutcome
unfolding less_discount
discounted discount base value = elim (discount.value_error value) [
  | some reason ↦ refused reason
  | none ↦ effective (less_discount base (discount.discount_cents base value))
]

checked_value : Discount → ℕ → Option ℕ → PricingOutcome
unfolding discounted
checked_value discount base none = refused "discount value is not a whole, positive number"
checked_value discount base (some value) = discounted discount base value

checked_base : Discount → Option ℕ → Option ℕ → PricingOutcome
unfolding checked_value
checked_base discount none value =
    refused "base price is not a whole number of minor units in range"
checked_base discount (some base) value = checked_value discount base value

known_type : Option Discount → JsNumber → JsNumber → PricingOutcome
unfolding checked_base
known_type none base value = refused "unknown discount type"
known_type (some discount) base value = checked_base discount (safe_from 0 base) (safe_from 1 value)

-- `calculate`
unfoldable pub calculate : JsNumber → Text → JsNumber → PricingOutcome
unfolding known_type discount_of safe_from percentage_cents fixed_cents percentage_error
calculate base discount_type value = known_type (discount_of discount_type) base value
