-- ===== src/Pricing/Facts.antt =====
-- The data of src/modules/pricing/domain/dto, and the checks of its two schemas.
use Prim.Native.String.{String}
use promotion_management_api.Base.{
  ℕ, ◌+◌, Bool, true, false, Option, none, some, [], ◌∷◌, if◌then◌else◌, leb,
}
use promotion_management_api.Base.Int.{ℤ, pos, negsuc, ltb_ℤ}
use promotion_management_api.Base.Texts.{Text, codes, text_eq}
use promotion_management_api.Base.Digits.{max_safe_integer}
use promotion_management_api.Base.Json.{Json, whole, str, obj, get, only_keys}
use promotion_management_api.Base.Trim.{trim}

pub data RuleType : Type 0 where
  ingestion promotion : RuleType

-- `updated_at` is in milliseconds since the epoch.
pub record PricingRuleRow : Type 0 where
  pub id : ℕ
  pub type : RuleType
  pub name : Text
  pub conditions : Json
  pub event : Json
  pub priority : ℤ
  pub active : Bool
  pub updated_at : ℕ

pub data AdjustmentEvent : Type 0 where
  adjust_percent_bps : ℤ → AdjustmentEvent
  adjust_cents : ℤ → AdjustmentEvent

-- `z.number().int()` lets through whole numbers in the safe range.
is_safe : ℤ → Bool
is_safe (pos n) = leb n max_safe_integer
is_safe (negsuc n) = leb (n + 1) max_safe_integer

-- `params`: a strict object of one whole `value`.
params_value : Option Json → Option ℤ
unfolding get only_keys is_safe
params_value (some (obj fields)) =
    if only_keys (codes "value") (codes "value") fields
    then elim (get (codes "value") fields) [
      | some (whole v) ↦ if is_safe v then some v else none
      | _ ↦ none
    ]
    else none
params_value _ = none

-- Below -10 000 basis points every price would be negative.
min_bps : ℤ → Option AdjustmentEvent
min_bps v = if ltb_ℤ v (negsuc 9999) then none else some (adjust_percent_bps v)

event_of : Option Json → Option ℤ → Option AdjustmentEvent
unfolding min_bps
event_of (some (str type)) (some v) =
    if text_eq type (codes "adjustPercentBps")
    then min_bps v
    else (if text_eq type (codes "adjustCents") then some (adjust_cents v) else none)
event_of _ _ = none

-- `adjustmentEvent.safeParse`
unfoldable pub parse_adjustment : Json → Option AdjustmentEvent
unfolding get only_keys params_value event_of
parse_adjustment (obj fields) =
    if only_keys (codes "type") (codes "params") fields
    then event_of (get (codes "type") fields) (params_value (get (codes "params") fields))
    else none
parse_adjustment _ = none

pub record VendorRowFacts : Type 0 where
  pub category : Text
  pub vendor_price_cents : ℤ
  pub stock_quantity : ℤ

is_blank : Text → Bool
is_blank [] = true
is_blank (c ∷ s) = false

-- A whole number from zero to the largest safe integer.
unfoldable pub checked_number : ℤ → Option ℕ
checked_number (pos n) = if leb n max_safe_integer then some n else none
checked_number (negsuc n) = none

-- The facts that the rules see, checked.
pub record CheckedFacts : Type 0 where
  pub category : Text
  pub vendor_price_cents : ℕ
  pub stock_quantity : ℕ

-- `PROBE_ROW`
abbrev pub probe_row : CheckedFacts
probe_row = record { category = codes "probe"; vendor_price_cents = 0; stock_quantity = 0 }

pub data FactsResult : Type 0 where
  valid : CheckedFacts → FactsResult
  invalid : String → FactsResult

checked_stock : Text → ℕ → Option ℕ → FactsResult
checked_stock category price none = invalid "stockQuantity"
checked_stock category price (some stock) =
    valid (record { category = category; vendor_price_cents = price; stock_quantity = stock })

checked_price : Text → Option ℕ → Option ℕ → FactsResult
unfolding checked_stock
checked_price category none stock = invalid "vendorPriceCents"
checked_price category (some price) stock = checked_stock category price stock

-- `vendorRowFacts.safeParse`: the first issue names its field.
unfoldable pub check_facts : VendorRowFacts → FactsResult
unfolding checked_price is_blank checked_number
check_facts row =
    if is_blank (trim row.category)
    then invalid "category"
    else checked_price (trim row.category) (checked_number row.vendor_price_cents)
        (checked_number row.stock_quantity)
