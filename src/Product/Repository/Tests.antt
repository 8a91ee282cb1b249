-- ===== src/Product/Repository/Tests.antt =====
-- The theorems on the products table at a concrete batch, and two orders of two rows.
use promotion_management_api.Base.{ℕ, ◌≡◌, refl, List, [], ◌∷◌, map, All}
use promotion_management_api.Base.Texts.{Text, codes, text_eq}
use promotion_management_api.Product.Repository.{
  Product, ProductUpsert, Products, find, set_where, product_of, update_rows, upsert, upsert_all,
  upsert_many, map_set, distinct_rows,
}
use promotion_management_api.Product.Repository.Statement.{id_at}
use promotion_management_api.Product.Repository.Ids.{IsKnown, upsert_many-ids}
use promotion_management_api.Product.Repository.Batch.{first_skus, last_of}
use promotion_management_api.Product.Repository.Resolves.{Resolves, upsert_many-Resolves}

abbrev row_at : ℕ → ℕ → ℕ → ProductUpsert
row_at cents job_id offset = record {
  sku = codes "A";
  name = codes "Shirt";
  category = codes "Tops";
  base_price_cents = cents;
  stock_quantity = 1;
  pricing_rules_version = 1;
  ingest_job_id = job_id;
  ingest_source_offset = offset;
}

abbrev no_products : Products
no_products = record { rows = []; next_id = 1 }

abbrev batch : List ProductUpsert
batch = row_at 100 1 10 ∷ row_at 200 1 20 ∷ []

-- A table that holds the sku of the batch from an earlier job.
abbrev stored_before : Products
stored_before = (upsert_many (row_at 50 0 0 ∷ []) no_products).0

upsert_many-Resolves_example :
    Resolves
      (find (codes "A") stored_before.rows)
      (find (codes "A") (upsert_many batch stored_before).0.rows)
      (last_of (codes "A") batch)
upsert_many-Resolves_example = upsert_many-Resolves batch stored_before (codes "A")

upsert_many-ids_example :
    ((upsert_many batch no_products).1
      ≡ map (λ (sku : Text). id_at sku (upsert_many batch no_products).0.rows) (first_skus batch))
    × All (IsKnown (upsert_many batch no_products).0.rows) (first_skus batch)
upsert_many-ids_example = upsert_many-ids batch no_products

-- The first job stores a price; a second one has another price early in its file and the same one
-- late in it.
abbrev stored_once : Products
stored_once = (upsert_many (row_at 100 1 100 ∷ []) no_products).0

abbrev early_first : Products
early_first =
    (upsert_many (row_at 100 2 200 ∷ []) (upsert_many (row_at 300 2 50 ∷ []) stored_once).0).0

abbrev late_first : Products
late_first =
    (upsert_many (row_at 300 2 50 ∷ []) (upsert_many (row_at 100 2 200 ∷ []) stored_once).0).0

abbrev prices : List Product → List ℕ
prices rows = map (λ (p : Product). p.base_price_cents) rows

-- In the order of the file the later row decides; in the other order the earlier row does.
order_of_writes_decides : (prices early_first.rows ≡ 100 ∷ []) × (prices late_first.rows ≡ 300 ∷ [])
unfolding upsert_many upsert_all upsert distinct_rows find set_where product_of update_rows map_set
    text_eq
order_of_writes_decides = (refl, refl)
