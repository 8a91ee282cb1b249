-- ===== src/Storefront/Rebuild/Tests.antt =====
-- The theorems on the source, the rebuild and the listing at a catalogue of three products.
use promotion_management_api.Base.{
  ℕ, Bool, true, ◌≡◌, refl, none, some, List, [], ◌∷◌, ◌++◌, arith, filterb, ltb, map, length,
}
use promotion_management_api.Base.Texts.{Text, codes, text_eq}
use promotion_management_api.Base.Digits.{to_text}
use promotion_management_api.Base.Sort.{sort_by}
use promotion_management_api.Base.Keyset.{concat, ids_page}
use promotion_management_api.Base.Result.{Result, ok, ◌>>=◌}
use promotion_management_api.Product.Repository.{Product}
use promotion_management_api.Promotion.View.{fixed}
use promotion_management_api.Promotion.Repository.{CreatePromotion, insert}
use promotion_management_api.Promotion.Repository.Reachable.{Reachable}
use promotion_management_api.Storefront.ProductSource.{
  Source, ids_of, is_one_of, selected, ids_after, ids_in_category,
}
use promotion_management_api.Storefront.ProductSource.OneRow.{joined_row, selected-once}
use promotion_management_api.Storefront.Rebuild.{
  Walked, recompute_pages, recompute_all, rebuild_category, walk_pages, slices, left_of,
}
use promotion_management_api.Storefront.Rebuild.Coverage.{IsNumbered, recompute_pages-ids_after}
use promotion_management_api.Storefront.Rebuild.Category.{Rebuilds, rebuild_category-Rebuilds}

abbrev product : ℕ → Text → Product
product id category = record {
  id = id;
  sku = to_text id;
  name = codes "Shirt";
  category = category;
  base_price_cents = 500;
  stock_quantity = 2;
  pricing_rules_version = some 7;
  ingest_source = none;
}

abbrev products : List Product
products = product 5 (codes "Tops") ∷ product 2 (codes "Hats") ∷ product 9 (codes "Tops") ∷ []

abbrev sale : CreatePromotion
sale = record {
  name = codes "Sale";
  discount_type = fixed;
  value = 100;
  starts_at = 10;
  ends_at = 20;
  product_id = none;
  category = some (codes "Tops");
}

abbrev all_exist : ℕ → Bool
all_exist id = true

abbrev catalogue : Source
catalogue = record {
  products = products;
  promotions = (insert all_exist sale 5000 (record { rows = []; next_id = 1 })).0;
}

selected-once_example :
    selected (9 ∷ 2 ∷ 7 ∷ []) 15000 catalogue
    ≡ map
        (joined_row 15000 catalogue.promotions)
        (filterb (λ (p : Product). is_one_of (9 ∷ 2 ∷ 7 ∷ []) p.id) catalogue.products)
selected-once_example =
    selected-once (9 ∷ 2 ∷ 7 ∷ []) 15000 catalogue
      (Reachable.inserts all_exist sale 5000 Reachable.empty)

catalogue-IsNumbered : IsNumbered catalogue.products
catalogue-IsNumbered = record {
  distinct = (((λ e. omega arith), ((λ e. omega arith), tt)), (((λ e. omega arith), tt), (tt, tt)));
  positive = (omega arith, (omega arith, (omega arith, tt)));
}

-- The calls of a recompute, in order.
abbrev record_call : List ℕ → List (List ℕ) → Result Text (List (List ℕ))
record_call ids calls = ok (calls ++ ids ∷ [])

recompute_pages-ids_after_example :
    (calls : List (List ℕ)) × (concat calls ≡ sort_by ltb (ids_of catalogue.products))
    × (recompute_pages record_call catalogue (λ after. ids_after after catalogue) [] ≡ (
        recompute_all record_call calls [] >>= λ next. ok (record {
          model = next;
          handled = sort_by ltb (ids_of catalogue.products);
          seen = length catalogue.products;
        })))
recompute_pages-ids_after_example =
    recompute_pages-ids_after record_call catalogue catalogue-IsNumbered []

-- The set still lists a product that has moved to another category.
abbrev listed : Text → List (List ℕ) → List ℕ
listed category model = 5 ∷ 2 ∷ []

abbrev rebuilt : Walked (List (List ℕ))
rebuilt = record { model = (5 ∷ 9 ∷ []) ∷ (2 ∷ []) ∷ []; handled = 5 ∷ 9 ∷ 2 ∷ []; seen = 3 }

tops-rebuilt : rebuild_category record_call listed catalogue (codes "Tops") [] ≡ ok rebuilt
unfolding rebuild_category recompute_pages walk_pages ids_in_category ids_page sort_by text_eq
    recompute_all slices left_of
tops-rebuilt = refl

rebuild_category-Rebuilds_example : Rebuilds record_call listed catalogue (codes "Tops") [] rebuilt
rebuild_category-Rebuilds_example =
    rebuild_category-Rebuilds record_call listed catalogue (codes "Tops") [] catalogue-IsNumbered
      (λ m. (((λ e. omega arith), tt), (tt, tt))) tops-rebuilt
