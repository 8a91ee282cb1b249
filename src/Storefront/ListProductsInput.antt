-- ===== src/Storefront/ListProductsInput.antt =====
-- The schema of the listing's query string
-- (src/modules/storefront/domain/dto/list-products-input.ts).
use promotion_management_api.Base.{
  ℕ, ◌-◌, ◌*◌, Bool, true, false, ◌&&◌, Option, none, some, if◌then◌else◌, leb, length,
}
use promotion_management_api.Base.Texts.{Text, codes, text_eq}
use promotion_management_api.Base.Digits.{is_digits, number, max_safe_integer}
use promotion_management_api.Base.Options.{◌>>=◌, guard}

-- `ListProductsInput`; the one sort has no field.
pub record ListProductsInput : Type 0 where
  pub category : Option Text
  pub ascending : Bool
  pub page : ℕ
  pub page_size : ℕ

-- The parameters of a query string; no other key is taken.
pub record Query : Type 0 where
  pub category : Option Text
  pub sort : Option Text
  pub order : Option Text
  pub page : Option Text
  pub page_size : Option Text

-- `digits(max).default(otherwise)`
digits_or : (max otherwise : ℕ) → Option Text → Option ℕ
digits_or max otherwise none = some otherwise
digits_or max otherwise (some s) = do
  _ ← guard (is_digits s && leb 1 (number s) && leb (number s) max)
  some (number s)

category_of : Option Text → Option (Option Text)
category_of none = some none
category_of (some s) = do _ ← guard (leb 1 (length s) && leb (length s) 256); some (some s)

is_sort : Option Text → Bool
is_sort none = true
is_sort (some s) = text_eq s (codes "effectivePrice")

order_of : Option Text → Option Bool
order_of none = some true
order_of (some s) =
    if text_eq s (codes "asc")
    then some true
    else if text_eq s (codes "desc")
    then some false
    else none

-- `listProductsInput.parse`; nothing stands for a query that is refused.
unfoldable pub list_products_input : Query → Option ListProductsInput
unfolding category_of is_sort order_of digits_or
list_products_input query = do
  category ← category_of query.category
  _ ← guard (is_sort query.sort)
  ascending ← order_of query.order
  page ← digits_or max_safe_integer 1 query.page
  size ← digits_or 100 20 query.page_size
  _ ← guard (leb ((page - 1) * size) 10000)
  some (record { category = category; ascending = ascending; page = page; page_size = size })
