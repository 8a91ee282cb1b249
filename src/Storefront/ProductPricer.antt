-- ===== src/Storefront/ProductPricer.antt =====
-- The entry that the read model holds for a product
-- (src/modules/storefront/domain/product-pricer.ts and its types).
pub mod Laws
use promotion_management_api.Base.{
  ℕ, Bool, true, false, Option, none, some, List, [], ◌∷◌, if◌then◌else◌,
}
use promotion_management_api.Base.Int.{ℤ, pos}
use promotion_management_api.Base.Texts.{Text}
use promotion_management_api.Base.Result.{Result, ok, err, ◌>>=◌}
use promotion_management_api.Promotion.EffectivePrice.{
  JsNumber, whole, PricingOutcome, effective, refused, calculate,
}
use promotion_management_api.Promotion.Resolver.{
  CandidateLevel, product, category, CandidateFacts, Engine, PromotionResolver, select,
}

pub record PromotionCandidate : Type 0 where
  pub id : ℕ
  pub name : Text
  pub discount_type : Text
  pub value : ℤ

-- Numbers from the store are whole and not negative.
pub record SourceRow : Type 0 where
  pub id : ℕ
  pub sku : Text
  pub name : Text
  pub category : Text
  pub base_price_cents : ℕ
  pub stock_quantity : ℕ
  pub pricing_rules_version : Option ℕ
  pub product_promotion : Option PromotionCandidate
  pub category_promotion : Option PromotionCandidate

pub record ProductEntry : Type 0 where
  pub id : ℕ
  pub sku : Text
  pub name : Text
  pub category : Text
  pub base_price_cents : ℕ
  pub effective_price_cents : ℕ
  pub stock_quantity : ℕ
  pub promotion_id : Option ℕ
  pub promotion_name : Option Text
  pub pricing_rules_version : Option ℕ

pub record Applied : Type 0 where
  pub promotion : PromotionCandidate
  pub effective_price_cents : ℕ

applied_of : PromotionCandidate → PricingOutcome → Option Applied
applied_of promotion (effective price) =
    some (record { promotion = promotion; effective_price_cents = price })
applied_of promotion (refused reason) = none

-- `priced`: a promotion that cannot be priced is left out.
unfoldable pub priced : SourceRow → Option PromotionCandidate → Option Applied
unfolding applied_of
priced row none = none
priced row (some promotion) =
    applied_of promotion
      (calculate (whole (pos row.base_price_cents)) promotion.discount_type (whole promotion.value))

price_of : Option Applied → Option ℕ
price_of none = none
price_of (some applied) = some applied.effective_price_cents

-- `at`
unfoldable pub at {ℓ} : {T : Type ℓ} → Option CandidateLevel → Option T → Option T → Option T
at none on_product on_category = none
at (some product) on_product on_category = on_product
at (some category) on_product on_category = on_category

unfoldable pub entry_of : SourceRow → Option Applied → ProductEntry
entry_of row none = record {
  id = row.id;
  sku = row.sku;
  name = row.name;
  category = row.category;
  base_price_cents = row.base_price_cents;
  effective_price_cents = row.base_price_cents;
  stock_quantity = row.stock_quantity;
  promotion_id = none;
  promotion_name = none;
  pricing_rules_version = row.pricing_rules_version;
}
entry_of row (some applied) = record {
  id = row.id;
  sku = row.sku;
  name = row.name;
  category = row.category;
  base_price_cents = row.base_price_cents;
  effective_price_cents = applied.effective_price_cents;
  stock_quantity = row.stock_quantity;
  promotion_id = some applied.promotion.id;
  promotion_name = some applied.promotion.name;
  pricing_rules_version = row.pricing_rules_version;
}

facts_of : SourceRow → Option Applied → Option Applied → CandidateFacts
unfolding price_of
facts_of row on_product on_category = record {
  category = row.category;
  stock_quantity = row.stock_quantity;
  base_price_cents = row.base_price_cents;
  product_price_cents = price_of on_product;
  category_price_cents = price_of on_category;
}

-- `price`: the rules choose between the two candidates that could be priced.
unfoldable pub price : Engine → PromotionResolver → SourceRow → Result Text ProductEntry
unfolding facts_of
price engine resolver row = do
  let on_product = priced row row.product_promotion
  let on_category = priced row row.category_promotion
  level ← select engine resolver (facts_of row on_product on_category)
  ok (entry_of row (at level on_product on_category))
