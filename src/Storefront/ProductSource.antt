-- ===== src/Storefront/ProductSource.antt =====
-- What a recompute reads of PostgreSQL
-- (src/modules/storefront/db/product-source-repository.ts).
pub mod OneRow
pub mod Counts
use promotion_management_api.Base.{
  ℕ, ◌+◌, Bool, Option, none, some, List, [], ◌∷◌, ◌++◌, map, if◌then◌else◌, ◌==◌, filterb, any,
}
use promotion_management_api.Base.Int.{pos}
use promotion_management_api.Base.Texts.{Text, codes, text_eq}
use promotion_management_api.Base.Keyset.{ids_page}
use promotion_management_api.Product.Repository.{Product}
use promotion_management_api.Promotion.View.{DiscountType, percentage, fixed}
use promotion_management_api.Promotion.Table.{Promotion, Promotions, same_product, same_category}
use promotion_management_api.Promotion.Repository.{active_promotions}
use promotion_management_api.Storefront.ProductPricer.{PromotionCandidate, SourceRow}

-- The two tables.
pub record Source : Type 0 where
  pub products : List Product
  pub promotions : Promotions

discount_name : DiscountType → Text
discount_name percentage = codes "percentage"
discount_name fixed = codes "fixed"

-- `CANDIDATE`
unfoldable pub candidate_of : Promotion → PromotionCandidate
unfolding discount_name
candidate_of row = record {
  id = row.id;
  name = row.name;
  discount_type = discount_name row.discount_type;
  value = pos row.value;
}

-- `left join`: a row for each partner, or one without.
abbrev pub left_joined {ℓ} : {A : Type ℓ} → List A → List (Option A)
left_joined [] = none ∷ []
left_joined (a ∷ others) = map some (a ∷ others)

abbrev pub promotes_product : ℕ → Promotion → Bool
promotes_product id row = same_product row.product_id (some id)

abbrev pub promotes_category : Text → Promotion → Bool
promotes_category category row = same_category row.category (some category)

abbrev pub map_candidate : Option Promotion → Option PromotionCandidate
map_candidate none = none
map_candidate (some row) = some (candidate_of row)

unfoldable pub row_of : Product → Option Promotion → Option Promotion → SourceRow
row_of p on_product on_category = record {
  id = p.id;
  sku = p.sku;
  name = p.name;
  category = p.category;
  base_price_cents = p.base_price_cents;
  stock_quantity = p.stock_quantity;
  pricing_rules_version = p.pricing_rules_version;
  product_promotion = map_candidate on_product;
  category_promotion = map_candidate on_category;
}

abbrev pub each {ℓ κ} : {A : Type ℓ} {B : Type κ} → (A → List B) → List A → List B
each f [] = []
each f (a ∷ rest) = f a ++ each f rest

-- The joined rows of one product.
unfoldable pub rows_of : List Promotion → Product → List SourceRow
rows_of active p =
    each
      (λ on_product.
        map (row_of p on_product) (left_joined (filterb (promotes_category p.category) active)))
      (left_joined (filterb (promotes_product p.id) active))

abbrev pub is_one_of : List ℕ → ℕ → Bool
is_one_of ids id = any (λ i. i == id) ids

-- The `SELECT` of `read`.
unfoldable pub selected : (ids : List ℕ) → (now : ℕ) → Source → List SourceRow
selected ids now source =
    each (rows_of (active_promotions now source.promotions))
      (filterb (λ (p : Product). is_one_of ids p.id) source.products)

-- The three clocks of a read: the statement's, and the instants of its first row and of an empty one.
pub record Clocks : Type 0 where
  pub now : ℕ
  pub row_instant : ℕ
  pub later_instant : ℕ

unfoldable pub source_read_at : Clocks → List SourceRow → ℕ
source_read_at clocks [] = clocks.later_instant
source_read_at clocks (row ∷ rows) = clocks.row_instant

-- `read`
unfoldable pub read : (ids : List ℕ) → Clocks → Source → List SourceRow × ℕ
unfolding source_read_at
read ids clocks source =
    let rows = selected ids clocks.now source in (rows, source_read_at clocks rows)

counted : Text → List (Text × ℕ) → List (Text × ℕ)
counted category [] = (category, 1) ∷ []
counted category ((name, n) ∷ counts) =
    if text_eq name category then (name, n + 1) ∷ counts else (name, n) ∷ counted category counts

-- `categoryCounts`; the order of the groups is of no account.
unfoldable pub category_counts : List Product → List (Text × ℕ)
unfolding counted
category_counts [] = []
category_counts (p ∷ products) = counted p.category (category_counts products)

abbrev pub ids_of : List Product → List ℕ
ids_of = map (λ (p : Product). p.id)

abbrev pub page_size : ℕ
page_size = 1000

-- `idsInCategory`
unfoldable pub ids_in_category : Text → (after : ℕ) → Source → List ℕ
ids_in_category category after source =
    ids_page page_size
      (ids_of (filterb (λ (p : Product). text_eq p.category category) source.products)) after

-- `idsAfter`
unfoldable pub ids_after : (after : ℕ) → Source → List ℕ
ids_after after source = ids_page page_size (ids_of source.products) after

-- `presentIds`
unfoldable pub present_ids : List ℕ → Source → List ℕ
present_ids ids source = filterb (is_one_of ids) (ids_of source.products)
