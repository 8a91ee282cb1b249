-- ===== src/Storefront/ListProducts/Tests.antt =====
-- The theorem on pages at a Redis that lists two products, one of them gone.
use promotion_management_api.Base.{
  true, ◌≡◌, refl, none, List, [], ◌∷◌, if◌then◌else◌, length, take, drop,
}
use promotion_management_api.Base.Texts.{Text, codes, text_eq}
use promotion_management_api.Base.Result.{ok}
use promotion_management_api.Base.Digits.{value_from}
use promotion_management_api.Base.Trim.{trim}
use promotion_management_api.Storefront.StoredProduct.{
  Hash, ProductView, product_view, view, stored_product, field, digits, blank_is_absent,
}
use promotion_management_api.Storefront.ProductReads.{
  Redis, replied, find_all, count, find, page, non_empty, product_key,
}
use promotion_management_api.Storefront.ListProducts.{parse_all, execute}
use promotion_management_api.Storefront.ListProducts.Pages.{shown, first_pages, first_pages-shown}

abbrev hat : Hash
hat =
    (codes "id", codes "2")
    ∷ (codes "sku", codes "B-2")
    ∷ (codes "name", codes "Hat")
    ∷ (codes "category", codes "Hats")
    ∷ (codes "basePriceCents", codes "900")
    ∷ (codes "effectivePriceCents", codes "900")
    ∷ (codes "stockQuantity", codes "4")
    ∷ (codes "promotionId", codes "")
    ∷ (codes "promotionName", codes "")
    ∷ (codes "pricingRulesVersion", codes "")
    ∷ (codes "updatedAt", codes "2026-01-01")
    ∷ []

abbrev members : List Text
members = codes "7" ∷ codes "2" ∷ []

abbrev redis : Redis
redis = record {
  exists = λ key. replied 1;
  hgetall = λ key. replied (if text_eq key (codes "product:2") then hat else []);
  zrange = λ key ascending offset size. replied (take size (drop offset members));
  zcard = λ key. replied (length members);
}

abbrev hat_view : ProductView
hat_view = record {
  id = 2;
  sku = codes "B-2";
  name = codes "Hat";
  category = codes "Hats";
  base_price_cents = 900;
  effective_price_cents = 900;
  stock_quantity = 4;
  promotion = none;
}

-- Two pages of one member, of which the first shows nothing.
two_pages : first_pages redis none true 1 2 ≡ ok (hat_view ∷ [])
unfolding execute page count find_all find parse_all non_empty text_eq product_key product_view
    stored_product field digits value_from blank_is_absent trim view
two_pages = refl

first_pages-shown_example : shown redis (take 2 members) ≡ ok (hat_view ∷ [])
first_pages-shown_example =
    first_pages-shown redis none true 1 2 members
      (record { ranged = λ offset size. refl; counted = refl }) two_pages
