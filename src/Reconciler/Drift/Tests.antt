-- ===== src/Reconciler/Drift/Tests.antt =====
-- The drift repair at a category that has lost a member.
use promotion_management_api.Base.{ℕ, ◌≡◌, ◌↔◌, refl, none, List, [], ◌∷◌, All, if◌then◌else◌}
use promotion_management_api.Base.Texts.{Text, codes, text_eq}
use promotion_management_api.Base.Result.{Result, ok}
use promotion_management_api.Product.Repository.{Product}
use promotion_management_api.Storefront.ProductSource.{category_counts}
use promotion_management_api.Storefront.ProductSource.Counts.{in_category}
use promotion_management_api.Reconciler.Drift.{Repair, repair_drift, repair_all}
use promotion_management_api.Reconciler.Drift.Repaired.{repair_drift-quiet}

-- The model is the number of members that the hats' set has; the tops' has two.
abbrev count : Text → ℕ → Result Text ℕ
count category hats = ok (if text_eq category (codes "Hats") then hats else 2)

abbrev rebuild_category : Text → ℕ → Result Text (ℕ × ℕ)
rebuild_category category hats = ok (3, 3)

abbrev product_in_category : ℕ → Text → Product
product_in_category id category = record {
  id = id;
  sku = codes "A";
  name = codes "Shirt";
  category = category;
  base_price_cents = 100;
  stock_quantity = 1;
  pricing_rules_version = none;
  ingest_source = none;
}

-- Two tops and three hats.
abbrev products : List Product
products =
    product_in_category 1 (codes "Hats")
    ∷ product_in_category 2 (codes "Tops")
    ∷ product_in_category 3 (codes "Hats")
    ∷ product_in_category 4 (codes "Hats")
    ∷ product_in_category 5 (codes "Tops")
    ∷ []

abbrev repair : Repair ℕ
repair = record { model = 3; rebuilt = codes "Hats" ∷ []; repaired = 1 }

hats-repaired : repair_drift count rebuild_category (category_counts products) 2 ≡ ok repair
unfolding repair_drift repair_all text_eq category_counts
hats-repaired = refl

repair_drift-quiet_example :
    (repair.repaired ≡ 0)
    ↔ All (λ (p : Product). count p.category 2 ≡ ok (in_category p.category products)) products
repair_drift-quiet_example = repair_drift-quiet count rebuild_category products 2 hats-repaired
